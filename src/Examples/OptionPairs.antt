-- ===== src/Examples/OptionPairs.antt =====
-- A command line `-a A -b B … -e ENDPOINT …` whose options stand in the order in which `parse_args`
-- reads them.
use zenoh_flat_c.Base.{◌≡◌, refl, Option, none, some, List, [], ◌∷◌, ◌++◌, All, All-both, length}
use zenoh_flat_c.Base.Text.{Str, codes}
use zenoh_flat_c.Process.{Heap, Argv, Cmd, ok}
use zenoh_flat_c.Args.{parse_arg, form, other, is_short, is_long, check_help}
use zenoh_flat_c.Args.Names.{other_form}
use zenoh_flat_c.Args.Outcome.{Skipped}
use zenoh_flat_c.Args.Help.{check_help_absent}
use zenoh_flat_c.Config.Values.{process}
use zenoh_flat_c.Config.Repeated.{pairs, pull_pair}
use zenoh_flat_c.Config.Common.{value, parse_arg_text-Takes}
use zenoh_flat_c.Examples.Leftovers.{IsPlain, NoneLeft}
use zenoh_flat_c.Examples.Consumed.{Unnamed-IsPlain, Skipped-NoneLeft}
use zenoh_flat_c.Examples.Endpoints.{left-Skipped}

-- Each option by its letter, with its value, in front of other arguments.
abbrev pub option_pairs : List (Str × Str) → Argv → Argv
option_pairs [] rest = rest
option_pairs ((s, v) ∷ options) rest = some (b'-' ∷ s) ∷ some v ∷ option_pairs options rest

-- No option is `-h`, or begins with `--help`.
abbrev pub NoHelp : List (Str × Str) → Type 0
NoHelp options =
    All
      (λ option.
        (form (codes "h") (b'-' ∷ option.0) ≡ other)
        × (form (codes "help") (b'-' ∷ option.0) ≡ other))
      options

-- The values do not begin with `-`.
abbrev pub PlainValues : List (Str × Str) → Type 0
PlainValues options = All (λ option. IsPlain (some option.1)) options

-- The option that is read next is the first that is left.
pub parse_arg_pair :
    {A : Type 0} (s l : Str) (func : Str → Cmd A) (d : A) (name : Option Str) (before : Argv)
    (v : Str) (after : Argv) (n : Heap)
    → length s ≡ 1
    → NoneLeft before
    → parse_arg s l func d (process (name ∷ (before ++ some (b'-' ∷ s) ∷ some v ∷ after)) n)
      ≡ func v (process (name ∷ (before ++ none ∷ none ∷ after)) n)
unfolding parse_arg
parse_arg_pair s l func d name before v after n one left = rw (
    parse_arg_text-Takes s l n (
      value (
        pull_pair s l one name before after v (
          All-both (Skipped s) (Skipped l) before (Skipped-NoneLeft s before left)
            (Skipped-NoneLeft l before left)))))

module _ (name : Option Str) (endpoints : List Str)
    (plain : All (λ v. IsPlain (some v)) endpoints) where
  unasked :
      (opt : Str) (options : List (Str × Str))
      → form opt (codes "-e") ≡ other
      → All (λ option. form opt (b'-' ∷ option.0) ≡ other) options
      → PlainValues options
      → All (Skipped opt) (option_pairs options (pairs (codes "e") endpoints))
  unasked opt [] e h values = left-Skipped name [] tt endpoints plain opt (other_form opt _ e)
  unasked opt ((s, v) ∷ options) e h values =
      (other_form opt _ h.0, (Unnamed-IsPlain opt v values.0, unasked opt options e h.1 values.1))

  firsts :
      (options : List (Str × Str))
      → NoHelp options
      → All (λ option. form (codes "h") (b'-' ∷ option.0) ≡ other) options
  firsts [] h = tt
  firsts (o ∷ options) h = (h.0.0, firsts options h.1)

  seconds :
      (options : List (Str × Str))
      → NoHelp options
      → All (λ option. form (codes "help") (b'-' ∷ option.0) ≡ other) options
  seconds [] h = tt
  seconds (o ∷ options) h = (h.0.1, seconds options h.1)

  pub check_help-pairs :
      (options : List (Str × Str)) (n : Heap)
      → NoHelp options
      → PlainValues options
      → check_help (process (name ∷ option_pairs options (pairs (codes "e") endpoints)) n)
        ≡ ok tt (process (name ∷ option_pairs options (pairs (codes "e") endpoints)) n)
  unfolding form is_short is_long
  check_help-pairs options n h values =
      check_help_absent _ name _ refl (unasked (codes "h") options refl (firsts options h) values)
        (unasked (codes "help") options refl (seconds options h) values)
