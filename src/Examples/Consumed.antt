-- ===== src/Examples/Consumed.antt =====
-- A command line whose arguments are all consumed, and texts that are no options.
use zenoh_flat_c.Base.{ℕ, ◌≡◌, refl, none, some, List, [], ◌∷◌, All, arith}
use zenoh_flat_c.Base.Text.{Str}
use zenoh_flat_c.Process.{fresh, without-first, Argv, Process, ok}
use zenoh_flat_c.Args.{
  arguments, first_option, check_unknown_opts, nulls, positions, parse_pos_args,
}
use zenoh_flat_c.Args.Names.{Unnamed}
use zenoh_flat_c.Args.Outcome.{Skipped}
use zenoh_flat_c.Config.Repeated.{pairs, pairs_taken}
use zenoh_flat_c.Examples.{reject_unknown, reject_positional}
use zenoh_flat_c.Examples.Leftovers.{NoneLeft, IsPlain}

-- A text that does not begin with `-` names no option.
pub Unnamed-IsPlain : (opt a : Str) → IsPlain (some a) → Unnamed opt a
Unnamed-IsPlain opt [] plain = ((λ s. cc (s.1)), λ l. let (_, e) = l.1 in cc e)
Unnamed-IsPlain opt (c ∷ a) plain = (
  (λ s. absurd (plain (ground (arith, s.1)))),
  λ l. let (_, e) = l.1 in absurd (plain (ground (arith, e))),
)

pub pairs-Skipped :
    (opt s : Str) (vs : List Str)
    → Unnamed opt (b'-' ∷ s)
    → All (λ v. IsPlain (some v)) vs
    → All (Skipped opt) (pairs s vs)
pairs-Skipped opt s [] n h = tt
pairs-Skipped opt s (v ∷ vs) n h = (n, (Unnamed-IsPlain opt v h.0, pairs-Skipped opt s vs n h.1))

pub pairs_taken-NoneLeft : (vs : List Str) → NoneLeft (pairs_taken vs)
pairs_taken-NoneLeft [] = tt
pairs_taken-NoneLeft (v ∷ vs) = (refl, (refl, pairs_taken-NoneLeft vs))

pub Skipped-NoneLeft : (opt : Str) (xs : Argv) → NoneLeft xs → All (Skipped opt) xs
Skipped-NoneLeft opt [] h = tt
Skipped-NoneLeft opt (none ∷ xs) h = (tt, Skipped-NoneLeft opt xs h.1)
Skipped-NoneLeft opt (some a ∷ xs) h = absurd (cc (h.0))

first_option-NoneLeft : (xs : Argv) → NoneLeft xs → first_option xs ≡ none
unfolding first_option
first_option-NoneLeft [] h = refl
first_option-NoneLeft (none ∷ xs) h = first_option-NoneLeft xs h.1
first_option-NoneLeft (some a ∷ xs) h = absurd (cc (h.0))

positions-nulls : (n : ℕ) (xs : Argv) → NoneLeft xs → positions n xs ≡ some (nulls n)
unfolding positions
positions-nulls n [] h = refl
positions-nulls n (none ∷ xs) h = positions-nulls n xs h.1
positions-nulls n (some a ∷ xs) h = absurd (cc (h.0))

module _ (p : Process) (left : NoneLeft (arguments p.argv)) where
  pub reject_unknown-NoneLeft : reject_unknown p ≡ ok tt p
  unfolding reject_unknown check_unknown_opts
  reject_unknown-NoneLeft = rw (reject_unknown, first_option-NoneLeft (arguments p.argv) left)

  pub reject_positional-NoneLeft : reject_positional p ≡ ok tt p
  unfolding reject_positional parse_pos_args
  reject_positional-NoneLeft =
      rw (positions-nulls 1 (arguments p.argv) left, without-first (fresh p.blocks) p.blocks) refl
