-- ===== src/ApiTests/Ownership.antt =====
-- What the C tests of tests/ own, followed through a run.
use zenoh_flat_c.Base.{ℕ, zero, suc, ◌≡◌, refl, ◌∙◌, Bool, true, false, some, List, [], ◌∷◌, arith}
use zenoh_flat_c.Base.Text.{codes}
use zenoh_flat_c.Trace.{
  argument, calls, prints, sleeps, returns, aborts, Trace, session, other_session, publisher,
  subscriber,
}
use zenoh_flat_c.Trace.Ledger.{ledger}
use zenoh_flat_c.ApiTests.{
  session_test, leak_handler, test_open_drop, KeyexprAnswers, test_create, test_to_string,
  test_relations, test_autocanonize, test_concat_join, keyexpr_test, LeakAnswers, put_messages,
  closing, leak_test,
}

-- An assertion failed in the run.
unfoldable pub has_aborted : Trace → Bool
has_aborted [] = false
has_aborted (aborts ∷ trace) = true
has_aborted (calls c ∷ trace) = has_aborted trace
has_aborted (prints s ∷ trace) = has_aborted trace
has_aborted (sleeps ∷ trace) = has_aborted trace
has_aborted (returns n ∷ trace) = has_aborted trace

-- Whatever comes behind a test, it comes behind it with what was owned in front of it.
abbrev Neutral : (Trace → Trace) → Type 0
Neutral test =
    (rest : Trace)
    → has_aborted (test rest) ≡ false
    → (has_aborted rest ≡ false) × (ledger (test rest) [] ≡ ledger rest [])

test_open_drop-Neutral : (made opens : Bool) → Neutral (test_open_drop made opens)
unfolding has_aborted ledger test_open_drop
test_open_drop-Neutral made opens rest h = ground arith

module _ (answers : KeyexprAnswers) where
  test_create-Neutral : Neutral (test_create answers)
  unfolding has_aborted ledger test_create
  test_create-Neutral rest h = ground arith

  test_to_string-Neutral : Neutral (test_to_string answers)
  unfolding has_aborted ledger test_to_string
  test_to_string-Neutral rest h = ground arith

  test_relations-Neutral : Neutral (test_relations answers)
  unfolding has_aborted ledger test_relations
  test_relations-Neutral rest h = ground arith

  test_autocanonize-Neutral : Neutral (test_autocanonize answers)
  unfolding has_aborted ledger test_autocanonize
  test_autocanonize-Neutral rest h = ground arith

  test_concat_join-Neutral :
      answers.is_keyexpr (codes "a/b") ≡ true → Neutral (test_concat_join answers)
  unfolding has_aborted ledger test_concat_join
  test_concat_join-Neutral valid rest h = ground arith

  -- If `a/b` is a key expression, a run of the key expression test in which no assertion fails uses
  -- only what it owns, and drops each key expression and each text exactly once.
  pub keyexpr_test_ownership :
      answers.is_keyexpr (codes "a/b") ≡ true
      → has_aborted (keyexpr_test answers) ≡ false
      → ledger (keyexpr_test answers) [] ≡ some []
  unfolding keyexpr_test ledger
  keyexpr_test_ownership valid h =
      let (h1, e1) = test_create-Neutral _ h in
      let (h2, e2) = test_to_string-Neutral _ h1 in
      let (h3, e3) = test_relations-Neutral _ h2 in
      let (h4, e4) = test_autocanonize-Neutral _ h3 in
      let (h5, e5) = test_concat_join-Neutral valid _ h4 in e1 ∙ (e2 ∙ (e3 ∙ (e4 ∙ e5)))

put_messages-Neutral :
    (answers : LeakAnswers) (i n : ℕ) (rest : Trace)
    → has_aborted (put_messages answers i n rest) ≡ false
    → (has_aborted rest ≡ false)
      × (ledger
            (put_messages answers i n rest)
            (publisher ∷ subscriber ∷ other_session ∷ session ∷ [])
          ≡ ledger rest (publisher ∷ subscriber ∷ other_session ∷ session ∷ []))
unfolding has_aborted ledger put_messages
put_messages-Neutral answers i zero rest h = (h, refl)
put_messages-Neutral answers i (suc n) rest h =
    ground (arith, put_messages-Neutral answers (suc i) n rest)

-- If its key is a key expression, a run of the test for leaks in which no assertion fails uses only
-- what it owns, and leaves nothing: each payload goes to the publisher, and the publisher, the
-- subscriber and both sessions are dropped.
pub leak_test_ownership :
    (answers : LeakAnswers) (received : ℕ)
    → answers.is_keyexpr ≡ true
    → has_aborted (leak_test answers received) ≡ false
    → ledger (leak_test answers received) [] ≡ some []
unfolding has_aborted ledger leak_test
leak_test_ownership answers received valid h =
    ground (arith, put_messages-Neutral answers 0 5 (closing received))

ledger-session_test :
    (first_made first second_made second : Bool)
    → has_aborted (session_test first_made first second_made second) ≡ false
    → ledger (session_test first_made first second_made second) [] ≡ some []
unfolding session_test ledger
ledger-session_test first_made first second_made second h =
    let (h1, e1) = test_open_drop-Neutral first_made first _ h in
    let (h2, e2) = test_open_drop-Neutral second_made second _ h1 in e1 ∙ e2

ledger-leak_handler :
    (made : Bool) (bytes : List ℕ)
    → has_aborted (leak_handler made bytes) ≡ false
    → ledger (leak_handler made bytes) (argument ∷ []) ≡ some (argument ∷ [])
unfolding has_aborted ledger leak_handler
ledger-leak_handler made bytes h = ground arith

-- Runs of the three tests in which no assertion fails, with `a/b` and the key of the test for leaks
-- being key expressions, use only what they own and leave nothing owned: every session, key expression,
-- publisher and subscriber is dropped once, and each payload goes to the publisher. The handler of the
-- test for leaks frees its texts and leaves the sample to its caller.
pub tests_ownership :
    (first_made first second_made second made : Bool) (k : KeyexprAnswers) (l : LeakAnswers)
    (received : ℕ) (bytes : List ℕ)
    → has_aborted (session_test first_made first second_made second) ≡ false
    → k.is_keyexpr (codes "a/b") ≡ true
    → has_aborted (keyexpr_test k) ≡ false
    → l.is_keyexpr ≡ true
    → has_aborted (leak_test l received) ≡ false
    → has_aborted (leak_handler made bytes) ≡ false
    → (ledger (session_test first_made first second_made second) [] ≡ some [])
      × (ledger (keyexpr_test k) [] ≡ some [])
      × (ledger (leak_test l received) [] ≡ some [])
      × (ledger (leak_handler made bytes) (argument ∷ []) ≡ some (argument ∷ []))
tests_ownership first_made first second_made second made k l received bytes hs vk hk vl hl hh = (
  ledger-session_test first_made first second_made second hs,
  keyexpr_test_ownership k vk hk,
  leak_test_ownership l received vl hl,
  ledger-leak_handler made bytes hh,
)
