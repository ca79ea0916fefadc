-- ===== src/Examples/PubThr/Size.antt =====
-- The positional argument of examples/z_pub_thr.c, the size of the payload.
use zenoh_flat_c.Base.{length, ℕ, ◌+◌, ◌≡◌, refl, ap, Option, none, some, [], ◌∷◌, ◌++◌, arith}
use zenoh_flat_c.Base.Int.{to_unsigned}
use zenoh_flat_c.Base.Text.{Str, atoi}
use zenoh_flat_c.Process.{fresh, without-first, Argv, Process, and_then, Cmd, ◌>>=◌}
use zenoh_flat_c.Process.Ensures.{Ensures, returns, quits, bind}
use zenoh_flat_c.Args.{arguments, positions, prepend, parse_pos_args}
use zenoh_flat_c.Args.Steps.{parse_arg-Ensures, check_flag-Ensures, check_help-Ensures}
use zenoh_flat_c.Config.{ConfigApi}
use zenoh_flat_c.Config.Steps.{parse_zenoh_common_args-Ensures}
use zenoh_flat_c.Config.Choices.{parse_priority-Ensures}
use zenoh_flat_c.Examples.Leftovers.{
  NoneLeft, placed, parse_pos_args-placed, reject_unknown-Ensures,
}
use zenoh_flat_c.Examples.PubThr.{size_argument, parse_args}

-- One argument is left, and it reads as the size.
abbrev pub OneLeft : Argv → ℕ → Type 0
OneLeft xs size =
    (before : Argv) × (text : Str) × (after : Argv) × NoneLeft before
    × NoneLeft after
    × (xs ≡ before ++ some text ∷ after)
    × (size ≡ to_unsigned 32 (atoi text))

no_room-NoneLeft : (xs l : Argv) → positions 0 xs ≡ some l → NoneLeft xs
unfolding positions
no_room-NoneLeft [] l h = tt
no_room-NoneLeft (none ∷ xs) l h = (refl, no_room-NoneLeft xs l h)
no_room-NoneLeft (some a ∷ xs) l h = absurd (cc)

positions-OneLeft :
    (xs : Argv) (text : Str) (l : Argv)
    → positions 1 xs ≡ some (some text ∷ l)
    → OneLeft xs (to_unsigned 32 (atoi text))
unfolding positions
positions-OneLeft [] text l h = absurd (cc)
positions-OneLeft (none ∷ xs) text l h =
    let (before, t, after, nb, na, e, s) = positions-OneLeft xs text l h in
    (none ∷ before, t, after, (refl, nb), na, ap (λ ys. none ∷ ys) e, s)
positions-OneLeft (some a ∷ xs) text l h = go (positions 0 xs) refl h
  where
    go :
        (o : Option Argv)
        → positions 0 xs ≡ o
        → prepend (some a) o ≡ some (some text ∷ l)
        → OneLeft (some a ∷ xs) (to_unsigned 32 (atoi text))
    go none e k = absurd (cc)
    go (some r) e k = ([], a, xs, tt, no_room-NoneLeft xs r e, refl, cc)

-- From the process `q`, with `p` in front of it for the blocks.
abbrev SizeRead : Process → ℕ → Process → Type 0
SizeRead p size q = (q ≡ p) × OneLeft (arguments p.argv) size

size_argument-Ensures :
    {A : Type 0} {Q : A → Process → Type 0} (next : ℕ → Cmd A) (p : Process)
    → ((size : ℕ) (q : Process) → SizeRead p size q → Ensures Q (next size q))
    → Ensures Q ((parse_pos_args 1 >>= (λ pos_args. size_argument pos_args >>= next)) p)
unfolding size_argument
size_argument-Ensures {Q = Q} next p rest =
    rw (parse_pos_args-placed 1 p) (go (positions 1 (arguments p.argv)) refl)
  where
    go :
        (o : Option Argv)
        → positions 1 (arguments p.argv) ≡ o
        → Ensures Q (and_then (placed o p) (λ pos_args. size_argument pos_args >>= next))
    go none e = quits
    go (some []) e = rw (without-first (fresh p.blocks) p.blocks) quits
    go (some (none ∷ l)) e = rw (without-first (fresh p.blocks) p.blocks) quits
    go (some (some text ∷ l)) e =
        rw (without-first (fresh p.blocks) p.blocks) (rest _ _ (refl, positions-OneLeft _ text l e))

-- On every command line the `parse_args` of z_pub_thr returns or exits with a message. It returns only
-- if exactly one argument is left over that no option consumed, with the number that `atoi` reads in it
-- as the size, wrapped to 32 bits; one block of memory more is allocated than before.
pub pub_thr_parses_size :
    (api : ConfigApi) (p : Process)
    → Ensures
        (λ result q.
          (length q.blocks ≡ length p.blocks + 1) × OneLeft (arguments q.argv) result.0.size)
        (parse_args api p)
unfolding parse_args
pub_thr_parses_size api p = bind (check_help-Ensures p) λ _ p1 h1.
    bind (parse_arg-Ensures _ _ _ _ p1 parse_priority-Ensures) λ priority p2 h2.
      bind (check_flag-Ensures _ p2) λ express p3 h3.
        bind (parse_zenoh_common_args-Ensures api p3) λ c p4 h4.
          bind (reject_unknown-Ensures p4) λ _ p5 (e5, plain).
            size_argument-Ensures _ p5
              λ size q (e, left). returns (rw (e, e5) (omega arith), rw e left)
