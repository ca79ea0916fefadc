-- ===== src/Tests/CommandLines.antt =====
-- Whole command lines of the programs, and the tests of the flat API.
use zenoh_flat_c.Base.{
  length, arith, ◌++◌, ◌+◌, ◌≡◌, refl, ◌↔◌, true, not, none, some, List, [], ◌∷◌,
}
use zenoh_flat_c.Base.Text.{starts_with, Str, codes, str_eq}
use zenoh_flat_c.Process.{fresh, Process, ok}
use zenoh_flat_c.Process.Ensures.{Ensures}
use zenoh_flat_c.Args.{arguments}
use zenoh_flat_c.Config.Values.{process}
use zenoh_flat_c.Config.Repeated.{pairs, pairs_taken}
use zenoh_flat_c.Examples.Put
use zenoh_flat_c.Examples.Put.CommandLine.{key_and_value, put_command_line}
use zenoh_flat_c.Examples.Get.{split_selector}
use zenoh_flat_c.Examples.Get.Selector.{SelectorOf, split_selector_iff}
use zenoh_flat_c.Examples.PubThr
use zenoh_flat_c.Examples.PubThr.Size.{OneLeft, pub_thr_parses_size}
use zenoh_flat_c.Trace.Ledger.{ledger}
use zenoh_flat_c.ApiTests.{
  session_test, test_open_drop, leak_handler, leak_value, KeyexprAnswers, keyexpr_test, LeakAnswers,
  leak_test, test_create, test_to_string, test_relations, test_autocanonize, test_concat_join,
  put_messages,
}
use zenoh_flat_c.ApiTests.Ownership.{has_aborted, tests_ownership}
use zenoh_flat_c.Trace.{argument}
use zenoh_flat_c.Enums.{all_complete}
use zenoh_flat_c.Examples.Get
use zenoh_flat_c.Examples.OptionPairs.{option_pairs}
use zenoh_flat_c.Examples.Get.CommandLine.{get_options, eight_taken, get_command_line}
use zenoh_flat_c.Tests.{list_api, arg, keep_pair}

split_selector_iff_example :
    (split_selector (codes "a/b?x=?") ≡ (codes "a/b", some (codes "x=?")))
    ↔ SelectorOf (codes "a/b?x=?") (codes "a/b") (some (codes "x=?"))
split_selector_iff_example = split_selector_iff (codes "a/b?x=?") (codes "a/b") (some (codes "x=?"))

-- Texts that do not begin with `-`.
abbrev ends : List Str
ends = codes "tcp/a:1" ∷ codes "tcp/b:2" ∷ []

put_command_line_example :
    Put.parse_args list_api (
      process
        (arg (codes "z_put") ∷ key_and_value (codes "demo/a") (codes "v") (pairs (codes "e") ends))
        [])
    ≡ ok
        (
          record { keyexpr = codes "demo/a"; value = codes "v" },
          (codes "connect/endpoints", codes "['tcp/a:1','tcp/b:2']") ∷ [],
        )
        (process (arg (codes "z_put") ∷ none ∷ none ∷ none ∷ none ∷ pairs_taken ends) (0 ∷ []))
unfolding keep_pair fresh
put_command_line_example =
    put_command_line (arg (codes "z_put")) (codes "demo/a") (codes "v") ends (λ e. cc) (λ e. cc)
      ((λ e. cc), ((λ e. cc), tt)) list_api []
      ((codes "connect/endpoints", codes "['tcp/a:1','tcp/b:2']") ∷ []) refl

abbrev thr_line : Process
thr_line =
    process (arg (codes "z_pub_thr") ∷ arg (codes "-p") ∷ arg (codes "3") ∷ arg (codes "8") ∷ []) []

pub_thr_parses_size_example :
    Ensures
      (λ result q.
        (length q.blocks ≡ length thr_line.blocks + 1) × OneLeft (arguments q.argv) result.0.size)
      (PubThr.parse_args list_api thr_line)
pub_thr_parses_size_example = pub_thr_parses_size list_api thr_line

-- The answers that the tests expect.
abbrev keyexpr_answers : KeyexprAnswers
keyexpr_answers = record {
  is_keyexpr = λ text. not (str_eq text (codes "a/**/**"));
  canonizes = λ text. true;
  joins = true;
  text_of = λ text. text;
  canonical_text = λ text. codes "a/**/c";
  joined_text = codes "a/b/c/d";
  intersects = λ a b. true;
  includes = λ a b. str_eq a (codes "a/*/c");
}

abbrev leak_answers : LeakAnswers
leak_answers = record {
  pub_opens = true;
  sub_opens = true;
  is_keyexpr = true;
  sub_declares = true;
  pub_declares = true;
  puts = λ i. true;
}

tests_ownership_example :
    (ledger (session_test true true true true) [] ≡ some [])
    × (ledger (keyexpr_test keyexpr_answers) [] ≡ some [])
    × (ledger (leak_test leak_answers 5) [] ≡ some [])
    × (ledger (leak_handler true leak_value) (argument ∷ []) ≡ some (argument ∷ []))
unfolding str_eq has_aborted keyexpr_test test_create test_to_string test_relations
    test_autocanonize test_concat_join leak_test put_messages session_test leak_handler
    test_open_drop starts_with
tests_ownership_example =
    tests_ownership true true true true true keyexpr_answers leak_answers 5 leak_value refl refl
      refl refl refl refl

get_command_line_example :
    Get.parse_args list_api (
      process
        (arg (codes "z_get")
          ∷ option_pairs
              (get_options (codes "d?x=1") (codes "v") 500 all_complete)
              (pairs (codes "e") (codes "tcp/a:1" ∷ [])))
        [])
    ≡ ok
        (
          record {
            selector = codes "d?x=1";
            value = some (codes "v");
            target = all_complete;
            timeout_ms = 500;
          },
          (codes "connect/endpoints", codes "['tcp/a:1']") ∷ [],
        )
        (process
          (arg (codes "z_get") ∷ (eight_taken ++ pairs_taken (codes "tcp/a:1" ∷ [])))
          (0 ∷ []))
unfolding keep_pair fresh
get_command_line_example =
    get_command_line (arg (codes "z_get")) (codes "d?x=1") (codes "v") 500 all_complete
      (codes "tcp/a:1" ∷ []) (λ e. cc) (λ e. cc) ((λ e. cc), tt) list_api []
      ((codes "connect/endpoints", codes "['tcp/a:1']") ∷ []) (omega arith) refl
