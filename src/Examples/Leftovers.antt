-- ===== src/Examples/Leftovers.antt =====
-- The end of each `parse_args` of examples/: the arguments that are left over.
use zenoh_flat_c.Base.{ℕ, ◌≡◌, refl, false, Option, none, some, [], ◌∷◌, arith, All, if◌then◌else◌}
use zenoh_flat_c.Base.Text.{Str, codes}
use zenoh_flat_c.Process.{
  Block, fresh, grown, without-first, Argv, Process, Run, ok, and_then, exit_with, ◌>>◌, complaint,
}
use zenoh_flat_c.Process.Ensures.{Ensures, returns, quits}
use zenoh_flat_c.Args.{
  arguments, first_option, check_unknown_opts, positions, prepend, parse_pos_args, returned,
}
use zenoh_flat_c.Examples.{reject_unknown, reject_positional, is_unexpected, free_array, array_of}

-- Every argument was consumed.
abbrev pub NoneLeft : Argv → Type 0
NoneLeft xs = All (λ slot. slot ≡ none) xs

-- The argument does not look like an option.
abbrev pub IsPlain : Option Str → Type 0
IsPlain none = Unit
IsPlain (some []) = Unit
IsPlain (some (c ∷ _)) = ¬ (c ≡ b'-')

first_option-IsPlain : (xs : Argv) → first_option xs ≡ none → All IsPlain xs
unfolding first_option
first_option-IsPlain [] h = tt
first_option-IsPlain (none ∷ xs) h = (tt, first_option-IsPlain xs h)
first_option-IsPlain (some [] ∷ xs) h = (tt, first_option-IsPlain xs h)
first_option-IsPlain (some (c ∷ a) ∷ xs) h =
    ((λ e. ground arith), first_option-IsPlain xs (ground arith))

positions-NoneLeft : (xs : Argv) → is_unexpected (positions 1 xs) ≡ false → NoneLeft xs
unfolding positions
positions-NoneLeft [] h = tt
positions-NoneLeft (none ∷ xs) h = (refl, positions-NoneLeft xs h)
positions-NoneLeft (some a ∷ xs) h = go (positions 0 xs) h
  where
    go : (o : Option Argv) → is_unexpected (prepend (some a) o) ≡ false → NoneLeft (some a ∷ xs)
    go none e = absurd (cc)
    go (some l) e = absurd (cc)

pub reject_unknown-Ensures :
    (p : Process) → Ensures (λ _ q. (q ≡ p) × All IsPlain (arguments p.argv)) (reject_unknown p)
unfolding reject_unknown check_unknown_opts
reject_unknown-Ensures p = go (first_option (arguments p.argv)) refl
  where
    go :
        (o : Option Str)
        → first_option (arguments p.argv) ≡ o
        → Ensures (λ _ q. (q ≡ p) × All IsPlain (arguments p.argv)) (reject_unknown p)
    go none e = rw (e, reject_unknown) (returns (refl, first_option-IsPlain _ e))
    go (some a) e = rw (e, reject_unknown) quits

-- What `parse_pos_args` gives, and the process behind it.
abbrev pub placed : Option Argv → Process → Run (Option (Block × Argv))
placed none p = ok none p
placed (some l) p = ok (some (fresh p.blocks, l)) (record p { blocks = grown p.blocks })

pub parse_pos_args-placed :
    (n : ℕ) (p : Process) → parse_pos_args n p ≡ placed (positions n (arguments p.argv)) p
unfolding parse_pos_args
parse_pos_args-placed n p = go (positions n (arguments p.argv))
  where
    go :
        (o : Option Argv)
        → returned (fresh p.blocks) o (record p { blocks = grown p.blocks }) ≡ placed o p
    go none = rw (without-first (fresh p.blocks) p.blocks) refl
    go (some l) = refl

pub reject_positional-Ensures :
    (p : Process) → Ensures (λ _ q. (q ≡ p) × NoneLeft (arguments p.argv)) (reject_positional p)
unfolding reject_positional
reject_positional-Ensures p =
    rw (parse_pos_args-placed 1 p) (go (positions 1 (arguments p.argv)) refl)
  where
    go :
        (o : Option Argv)
        → positions 1 (arguments p.argv) ≡ o
        → Ensures
            (λ _ q. (q ≡ p) × NoneLeft (arguments p.argv))
            (and_then (placed o p) (λ pos_args.
              if is_unexpected (array_of pos_args)
              then (free_array pos_args
                  >> exit_with (complaint (codes "Unexpected positional arguments\n")))
              else free_array pos_args))
    go none e = quits
    go (some []) e =
        rw (without-first (fresh p.blocks) p.blocks) (returns (refl, positions-NoneLeft _ (rw e)))
    go (some (none ∷ l)) e =
        rw (without-first (fresh p.blocks) p.blocks) (returns (refl, positions-NoneLeft _ (rw e)))
    go (some (some a ∷ l)) e = rw (without-first (fresh p.blocks) p.blocks) quits
