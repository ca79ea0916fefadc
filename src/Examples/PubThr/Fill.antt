-- ===== src/Examples/PubThr/Fill.antt =====
-- The payload buffer of examples/z_pub_thr.c.
use zenoh_flat_c.Base.{
  ltb, if◌then◌else◌, ℕ, zero, suc, ◌+◌, ◌%◌, ◌<◌, ◌≡◌, refl, ap, Option, none, some, List, [], ◌∷◌,
  arith, length,
}
use zenoh_flat_c.Examples.PubThr.{fill}

-- `value[k]`
abbrev pub byte_at : ℕ → List ℕ → Option ℕ
byte_at k [] = none
byte_at zero (b ∷ bytes) = some b
byte_at (suc k) (b ∷ bytes) = byte_at k bytes

length-fill : (i n : ℕ) → length (fill i n) ≡ n
unfolding fill
length-fill i zero = refl
length-fill i (suc n) = ap suc (length-fill (i + 1) n)

-- Up to the size each byte is its index modulo 10; nothing is behind.
pub byte_at-fill :
    (k i n : ℕ) → byte_at k (fill i n) ≡ (if ltb k n then some ((i + k) % 10) else none)
unfolding fill
byte_at-fill zero i zero = ground arith
byte_at-fill (suc k) i zero = ground arith
byte_at-fill zero i (suc n) = ground arith
byte_at-fill (suc k) i (suc n) =
    let rest = byte_at-fill k (i + 1) n in
    let same : i + 1 + k ≡ i + suc k = omega arith in ground (arith, rest, same)

-- The buffer of z_pub_thr has the given size, and each of its bytes is its index modulo 10.
pub fill_lem :
    (size k : ℕ)
    → k < size
    → (length (fill 0 size) ≡ size) × (byte_at k (fill 0 size) ≡ some (k % 10))
fill_lem size k h = let byte = byte_at-fill k 0 size in (length-fill 0 size, ground (arith, byte))
