-- ===== src/Config/Drain.antt =====
-- A repeated option: taking its values out of `argv` until none is left.
use zenoh_flat_c.Base.{
  ℕ, zero, suc, ◌≤◌, ◌<◌, ◌≡◌, refl, ◌⊎◌, inl, inr, none, some, List, [], ◌∷◌, arith, length,
}
use zenoh_flat_c.Base.Text.{Str}
use zenoh_flat_c.Process.{Argv}
use zenoh_flat_c.Args.{Scan, not_found, found, no_value}
use zenoh_flat_c.Args.Pull.{live, Shrinks}

-- By `take`, the values `vs` are taken from `xs`, in this order, and `ys` is left without the option.
pub data Drains (take : Argv → Scan) : Argv → List Str → Argv → Type 0 where
  done : {xs : Argv} → take xs ≡ not_found → Drains take xs [] xs
  more :
      {xs ys zs : Argv} {v : Str} {vs : List Str}
      → take xs ≡ found v ys
      → Drains take ys vs zs
      → Drains take xs (v ∷ vs) zs

-- After some values the option stands without one, which is complained about.
pub data Stops (take : Argv → Scan) (message : Str) : Argv → Type 0 where
  now : {xs : Argv} → take xs ≡ no_value message → Stops take message xs
  later :
      {xs ys : Argv} {v : Str}
      → take xs ≡ found v ys
      → Stops take message ys
      → Stops take message xs

pub live-le-length : (xs : Argv) → live xs ≤ length xs
live-le-length [] = omega arith
live-le-length (none ∷ xs) = omega (arith, live-le-length xs)
live-le-length (some _ ∷ xs) = omega (arith, live-le-length xs)

module _ (take : Argv → Scan)
    (shrinks : (xs : Argv) (v : Str) (r : Argv) → take xs ≡ found v r → Shrinks xs r) where
  -- Drained, or stopped.
  abbrev pub Ends : Argv → Type 0
  Ends xs =
      ((vs : List Str) × (ys : Argv) × Drains take xs vs ys)
      ⊎ ((message : Str) × Stops take message xs)

  Ends-more : (xs ys : Argv) (v : Str) → take xs ≡ found v ys → Ends ys → Ends xs
  Ends-more xs ys v e (inl (vs, zs, d)) = inl (v ∷ vs, zs, more e d)
  Ends-more xs ys v e (inr (m, s)) = inr (m, later e s)

  Ends-below : (fuel : ℕ) (xs : Argv) → live xs < fuel → Ends xs
  Ends-below zero xs h = absurd (omega arith)
  Ends-below (suc fuel) xs h = go (take xs) refl (Ends-below fuel)
    where
      go : (r : Scan) → take xs ≡ r → ((ys : Argv) → live ys < fuel → Ends ys) → Ends xs
      go not_found e rec = inl ([], xs, done e)
      go (found v ys) e rec =
          let fewer = shrinks xs v ys e in Ends-more xs ys v e (rec ys (omega arith))
      go (no_value m) e rec = inr (m, now e)

  -- There is no third way.
  pub Ends-total : (xs : Argv) → Ends xs
  Ends-total xs = Ends-below (suc (live xs)) xs (omega arith)
