-- ===== src/Args/Outcome.antt =====
-- A description of what `parse_opt` takes out of the arguments: the first argument that names the
-- option, with its value.
pub mod Sound
pub mod Complete
use zenoh_flat_c.Base.{◌≡◌, ◌⊎◌, Bool, true, false, Option, none, some, [], ◌∷◌, ◌++◌, All}
use zenoh_flat_c.Base.Text.{Str, Lacks}
use zenoh_flat_c.Process.{Argv}
use zenoh_flat_c.Args.{Scan, not_found, found, no_value, short_without_value, long_without_value}
use zenoh_flat_c.Args.Names.{ShortOf, LongOf, Unnamed}

-- An entry that holds no name of the option.
abbrev pub Skipped : Str → Option Str → Type 0
Skipped opt none = Unit
Skipped opt (some a) = Unnamed opt a

-- The value is behind the `=` of `--opt=value`, the first one.
abbrev pub Attached : Str → Str → Str → Type 0
Attached opt value a =
    LongOf opt a × ((before : Str) × Lacks b'=' before × (a ≡ before ++ b'=' ∷ value))

-- The value is the next argument. The message is printed where there is none.
pub data NeedsNext (opt : Str) (a : Str) (message : Str) : Type 0 where
  after_short : ShortOf opt a → message ≡ short_without_value opt → NeedsNext opt a message
  after_long :
      LongOf opt a → Lacks b'=' a → message ≡ long_without_value opt → NeedsNext opt a message

-- There is no argument right behind: the array ends, or the entry was taken before.
abbrev pub NoArgument : Argv → Type 0
NoArgument [] = Unit
NoArgument (none ∷ _) = Unit
NoArgument (some _ ∷ _) = ⊥

pub data Outcome (opt : Str) (has_value : Bool) (xs : Argv) (r : Scan) : Type 0 where
  absent : All (Skipped opt) xs → r ≡ not_found → Outcome opt has_value xs r
  flag :
      (before after : Argv) (a : Str)
      → All (Skipped opt) before
      → ShortOf opt a ⊎ LongOf opt a
      → has_value ≡ false
      → xs ≡ before ++ some a ∷ after
      → r ≡ found opt (before ++ none ∷ after)
      → Outcome opt has_value xs r
  attached :
      (before after : Argv) (a value : Str)
      → All (Skipped opt) before
      → Attached opt value a
      → has_value ≡ true
      → xs ≡ before ++ some a ∷ after
      → r ≡ found value (before ++ none ∷ after)
      → Outcome opt has_value xs r
  next :
      (before after : Argv) (a value message : Str)
      → All (Skipped opt) before
      → NeedsNext opt a message
      → has_value ≡ true
      → xs ≡ before ++ some a ∷ some value ∷ after
      → r ≡ found value (before ++ none ∷ none ∷ after)
      → Outcome opt has_value xs r
  missing :
      (before after : Argv) (a message : Str)
      → All (Skipped opt) before
      → NeedsNext opt a message
      → has_value ≡ true
      → NoArgument after
      → xs ≡ before ++ some a ∷ after
      → r ≡ no_value message
      → Outcome opt has_value xs r
