-- ===== src/ApiTests.antt =====
-- The C tests of tests/: z_api_session_test.c, z_api_keyexpr_test.c and z_leak_pub_sub_test.c, as
-- traces of calls. What the library answers is a parameter; an assertion that fails ends the run.
pub mod Ownership
use zenoh_flat_c.Base.{
  ℕ, zero, suc, ◌+◌, Bool, true, false, not, ◌&&◌, none, some, List, [], ◌∷◌, ◌++◌, ltb,
  if◌then◌else◌,
}
use zenoh_flat_c.Base.Int.{pos}
use zenoh_flat_c.Base.Text.{Str, codes, str_eq, starts_with}
use zenoh_flat_c.Base.Decimal.{decimal}
use zenoh_flat_c.Enums.{block, data_normal}
use zenoh_flat_c.Api.Sample.{z_sample_key_expr, z_sample_payload}
use zenoh_flat_c.Trace.{
  whole, part, Event, Trace, calls, sleeps, prints, returns, aborts, config, session, other_session,
  ke, other_ke, keyexpr_text, argument, payload_bytes, z_zbytes_to_bytes, payload, subscriber,
  publisher, z_config_default, z_open, z_session_drop, z_keyexpr_try_from, z_keyexpr_autocanonize,
  z_keyexpr_join, z_keyexpr_intersects, z_keyexpr_includes, z_keyexpr_drop, z_keyexpr_to_string,
  z_free, z_session_declare_subscriber, z_session_declare_publisher, z_zbytes_from_slice,
  z_publisher_put, z_publisher_drop, z_subscriber_drop,
}

-- `assert`
abbrev pub assert : Bool → Trace → Trace
assert true rest = rest
assert false rest = aborts ∷ []

-- `config_made` says that the result of `z_config_default` is not NULL.
unfoldable pub test_open_drop : Bool → Bool → Trace → Trace
test_open_drop config_made opens rest =
    calls (z_config_default config)
    ∷ assert config_made
        (calls (z_open config session opens) ∷ assert opens (calls (z_session_drop session) ∷ rest))

-- `main` of the session test, for whether the two configurations are made and the two sessions open.
unfoldable pub session_test : Bool → Bool → Bool → Bool → Trace
session_test first_made first second_made second =
    test_open_drop first_made first (test_open_drop second_made second (returns (pos 0) ∷ []))

-- What the library answers about key expressions, by their texts. `joined`, `intersects` and
-- `includes` are the answers of the one call that the test makes.
pub record KeyexprAnswers : Type 0 where
  pub is_keyexpr : Str → Bool
  pub canonizes : Str → Bool
  pub joins : Bool
  pub text_of : Str → Str
  pub canonical_text : Str → Str
  pub joined_text : Str
  pub intersects : Str → Str → Bool
  pub includes : Str → Str → Bool

module _ (answers : KeyexprAnswers) where
  open answers use {
    is_keyexpr, canonizes, joins, text_of, canonical_text, joined_text, intersects, includes,
  }

  unfoldable pub test_create : Trace → Trace
  test_create rest =
      calls (z_keyexpr_try_from (codes "a/b/c") ke (is_keyexpr (codes "a/b/c")))
      ∷ assert (is_keyexpr (codes "a/b/c")) (
          calls (z_keyexpr_drop ke)
          ∷ calls (z_keyexpr_try_from (codes "a/**/**") other_ke (is_keyexpr (codes "a/**/**")))
          ∷ assert (not (is_keyexpr (codes "a/**/**"))) rest)

  unfoldable pub test_to_string : Trace → Trace
  test_to_string rest =
      calls (z_keyexpr_try_from (codes "a/b/c") ke (is_keyexpr (codes "a/b/c")))
      ∷ assert (is_keyexpr (codes "a/b/c")) (
          calls (z_keyexpr_to_string (whole ke) keyexpr_text)
          ∷ assert (str_eq (text_of (codes "a/b/c")) (codes "a/b/c"))
              (calls (z_free keyexpr_text) ∷ calls (z_keyexpr_drop ke) ∷ rest))

  -- Without the assertions on relations, which are compiled for the unstable API only.
  unfoldable pub test_relations : Trace → Trace
  test_relations rest =
      calls (z_keyexpr_try_from (codes "a/*/c") ke (is_keyexpr (codes "a/*/c")))
      ∷ calls (z_keyexpr_try_from (codes "a/b/c") other_ke (is_keyexpr (codes "a/b/c")))
      ∷ assert (is_keyexpr (codes "a/*/c") && is_keyexpr (codes "a/b/c")) (
          calls (z_keyexpr_intersects ke other_ke)
          ∷ assert (intersects (codes "a/*/c") (codes "a/b/c")) (
              calls (z_keyexpr_includes ke other_ke)
              ∷ assert (includes (codes "a/*/c") (codes "a/b/c")) (
                  calls (z_keyexpr_includes other_ke ke)
                  ∷ assert (not (includes (codes "a/b/c") (codes "a/*/c")))
                      (calls (z_keyexpr_drop ke) ∷ calls (z_keyexpr_drop other_ke) ∷ rest))))

  unfoldable pub test_autocanonize : Trace → Trace
  test_autocanonize rest =
      calls (z_keyexpr_autocanonize (codes "a/**/**/c") ke (canonizes (codes "a/**/**/c")))
      ∷ assert (canonizes (codes "a/**/**/c")) (
          calls (z_keyexpr_to_string (whole ke) keyexpr_text)
          ∷ assert (str_eq (canonical_text (codes "a/**/**/c")) (codes "a/**/c"))
              (calls (z_free keyexpr_text) ∷ calls (z_keyexpr_drop ke) ∷ rest))

  -- The first key expression is not tested for NULL.
  unfoldable pub test_concat_join : Trace → Trace
  test_concat_join rest =
      calls (z_keyexpr_try_from (codes "a/b") ke (is_keyexpr (codes "a/b")))
      ∷ calls (z_keyexpr_join ke (codes "c/d") other_ke joins)
      ∷ assert joins (
          calls (z_keyexpr_to_string (whole other_ke) keyexpr_text)
          ∷ assert (str_eq joined_text (codes "a/b/c/d")) (
              calls (z_free keyexpr_text)
              ∷ calls (z_keyexpr_drop other_ke)
              ∷ calls (z_keyexpr_drop ke)
              ∷ rest))

  -- `main` of the key expression test.
  unfoldable pub keyexpr_test : Trace
  keyexpr_test = test_create (
      test_to_string (test_relations (test_autocanonize (test_concat_join (returns (pos 0) ∷ [])))))

-- What the library answers in the test for leaks; `puts i` is the answer to the i-th message.
pub record LeakAnswers : Type 0 where
  pub pub_opens : Bool
  pub sub_opens : Bool
  pub is_keyexpr : Bool
  pub sub_declares : Bool
  pub pub_declares : Bool
  pub puts : ℕ → Bool

abbrev pub leak_keyexpr : Str
leak_keyexpr = codes "demo/example/zenoh-flat-c-leak-test"

abbrev pub leak_value : Str
leak_value = codes "leak-test-payload"

-- The handler of a sample, for the bytes of its payload, which stays owned by the caller; `text_made`
-- says that the text of its key is not NULL. `strncmp` is
-- taken to read a payload that is at least as long as the value.
unfoldable pub leak_handler : Bool → List ℕ → Trace
leak_handler text_made bytes =
    calls (z_keyexpr_to_string (part z_sample_key_expr (whole argument)) keyexpr_text)
    ∷ calls (z_zbytes_to_bytes (part z_sample_payload (whole argument)) payload_bytes)
    ∷ assert text_made (
        assert (starts_with bytes leak_value)
          (calls (z_free keyexpr_text) ∷ calls (z_free payload_bytes) ∷ []))

-- The loop over the messages, from the i-th on.
unfoldable pub put_messages : LeakAnswers → ℕ → ℕ → Trace → Trace
put_messages answers i zero rest = rest
put_messages answers i (suc n) rest =
    calls (z_zbytes_from_slice leak_value payload)
    ∷ calls (z_publisher_put publisher payload none)
    ∷ assert (answers.puts i) (put_messages answers (suc i) n rest)

-- The end of the test for leaks.
abbrev pub closing : ℕ → Trace
closing received =
    sleeps
    ∷ calls (z_publisher_drop publisher)
    ∷ calls (z_subscriber_drop subscriber)
    ∷ calls (z_session_drop session)
    ∷ calls (z_session_drop other_session)
    ∷ prints (codes "received " ++ (decimal received ++ codes " sample(s)\n"))
    ∷ returns (if ltb 0 received then pos 0 else pos 1)
    ∷ []

-- `main` of the test for leaks. `received` counts the samples that arrived, which is printed last.
unfoldable pub leak_test : LeakAnswers → ℕ → Trace
leak_test answers received =
    calls (z_config_default config)
    ∷ calls (z_open config session answers.pub_opens)
    ∷ calls (z_config_default config)
    ∷ calls (z_open config other_session answers.sub_opens)
    ∷ assert (answers.pub_opens && answers.sub_opens) (
        calls (z_keyexpr_try_from leak_keyexpr ke answers.is_keyexpr)
        ∷ calls (z_session_declare_subscriber other_session ke [] subscriber answers.sub_declares)
        ∷ assert answers.sub_declares (
            calls (z_keyexpr_try_from leak_keyexpr other_ke answers.is_keyexpr)
            ∷ calls (
                z_session_declare_publisher session other_ke (some (block, data_normal, false))
                  publisher answers.pub_declares)
            ∷ assert answers.pub_declares (sleeps ∷ put_messages answers 0 5 (closing received))))
