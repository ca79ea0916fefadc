-- ===== src/Examples/SubThr/Report/Elapsed.antt =====
-- The times and the rates that examples/z_sub_thr.c computes with doubles.
use zenoh_flat_c.Base.{
  ℕ, zero, suc, ◌-◌, ◌+◌, ◌*◌, ◌^◌, ◌≤◌, ◌<◌, ◌≡◌, refl, inl, inr, true, arith, ltb, ◌⊎◌,
  Bool-cases,
}
use zenoh_flat_c.Base.Int.{ℤ, pos, negsuc, neg, difference, le_int}
use zenoh_flat_c.Base.Double.{Double, number, ◌≼◌, IsRounded}
use zenoh_flat_c.Examples.SubThr.{Timespec, Stats, received}
use zenoh_flat_c.Examples.SubThr.Report.{elapsed_ms, elapsed_s, average}

-- A reading of the clock, and an earlier one or the same.
pub record Ordered (from now : Timespec) : Type 0 where
  pub from_valid : from.tv_nsec < 1000000000
  pub now_valid : now.tv_nsec < 1000000000
  pub not_later :
      (from.tv_sec < now.tv_sec) ⊎ ((from.tv_sec ≡ now.tv_sec) × (from.tv_nsec ≤ now.tv_nsec))

-- Later by at least `n` seconds less at most that much.
abbrev Within : Timespec → Timespec → ℕ → Type 0
Within from now n =
    (le_int (pos n) (difference now.tv_sec from.tv_sec) ≡ true)
    × (le_int (neg (n * 1000000000)) (difference now.tv_nsec from.tv_nsec) ≡ true)

difference-pos : (n a b : ℕ) → n + b ≤ a → le_int (pos n) (difference a b) ≡ true
difference-pos n a b h = elim (Bool-cases (ltb a b)) [
  | inl e ↦ absurd (less e)
  | inr e ↦ rw e (ground arith)
]
  where
    less : ltb a b ≡ true → ⊥
    less e = ground arith

difference-negsuc : (k a b : ℕ) → b ≤ a + suc k → le_int (negsuc k) (difference a b) ≡ true
difference-negsuc k a b h = elim (Bool-cases (ltb a b)) [
  | inl e ↦ rw e (shown (b - a) (ground arith))
  | inr e ↦ rw e refl
]
  where
    shown : (m : ℕ) → m ≤ suc k → le_int (negsuc k) (neg m) ≡ true
    shown zero g = refl
    shown (suc m) g = ground arith

Ordered-Within : (from now : Timespec) → Ordered from now → (n : ℕ) × (n ≤ 1) × Within from now n
Ordered-Within from now h = go h.not_later
  where
    go :
        (from.tv_sec < now.tv_sec) ⊎ ((from.tv_sec ≡ now.tv_sec) × (from.tv_nsec ≤ now.tv_nsec))
        → (n : ℕ) × (n ≤ 1) × Within from now n
    go (inl later) = (
      1,
      omega arith,
      (
        difference-pos 1 now.tv_sec from.tv_sec (omega arith),
        difference-negsuc 999999999 now.tv_nsec from.tv_nsec (omega arith),
      ),
    )
    go (inr (same, le)) = (
      0,
      omega arith,
      (
        difference-pos 0 now.tv_sec from.tv_sec (omega arith),
        difference-pos 0 now.tv_nsec from.tv_nsec (omega arith),
      ),
    )

module _ {W : Type 0} ⦃d : Double W⦄ (laws : IsRounded W) where
  product_least :
      (n k : ℕ) (x : ℤ)
      → 1 ≤ k
      → k ≤ 2 ^ 53
      → n * k ≤ 2 ^ 53
      → le_int (pos n) x ≡ true
      → number d (n * k) ≼ d.product (d.of_integer x) (number d k)
  product_least n k x least small exact h =
      rw (laws.product_exact n k exact) at
        (laws.product_le k _ _ least small (laws.integer_le (pos n) x h))

  quotient_least :
      (n k : ℕ) (x : ℤ)
      → 1 ≤ k
      → k ≤ 2 ^ 53
      → n * k ≤ 2 ^ 53
      → le_int (neg (n * k)) x ≡ true
      → d.of_integer (neg n) ≼ d.quotient (d.of_integer x) (number d k)
  quotient_least n k x least small exact h =
      rw (laws.quotient_exact n k least exact) at
        (laws.quotient_le k _ _ least small (laws.integer_le (neg (n * k)) x h))

  module _ (from now : Timespec) (ordered : Ordered from now) where
    elapsed_s-not_negative : number d 0 ≼ elapsed_s d from now
    unfolding elapsed_s
    elapsed_s-not_negative =
        let (n, small, (seconds, nanoseconds)) = Ordered-Within from now ordered in
        laws.sum_not_negative n _ _ (omega arith) (laws.integer_le _ _ seconds)
          (quotient_least n 1000000000 _ (omega arith) (omega arith) (omega arith) nanoseconds)

    elapsed_ms-not_negative : number d 0 ≼ elapsed_ms d from now
    unfolding elapsed_ms
    elapsed_ms-not_negative =
        let (n, small, (seconds, nanoseconds)) = Ordered-Within from now ordered in
        let parts : n * 1000000000 ≡ n * 1000 * 1000000 = omega arith in
        laws.sum_not_negative (n * 1000) _ _ (omega arith)
          (product_least n 1000 _ (omega arith) (omega arith) (omega arith) seconds)
          (quotient_least (n * 1000) 1000000 _ (omega arith) (omega arith) (omega arith)
            (rw parts at nanoseconds))

  average-not_negative : (n : ℕ) (secs : W) → n < 2 ^ 64 → number d 0 ≼ average d n secs
  unfolding average
  average-not_negative n secs small = elim (Bool-cases (d.gt secs (number d 0))) [
    | inl e ↦ rw e (laws.quotient_not_negative n secs small e)
    | inr e ↦ rw e (laws.integer_le (pos 0) (pos 0) refl)
  ]

  -- With doubles that are rounded as IEEE 754 prescribes, for any two readings of the clock, each with
  -- less than 1000000000 nanoseconds and the second not before the first: neither the milliseconds nor
  -- the seconds that z_sub_thr computes between them are negative, and neither is the average that
  -- `drop_stats` prints for them.
  pub times_not_negative :
      (from now : Timespec) (stats : Stats)
      → Ordered from now
      → (number d 0 ≼ elapsed_ms d from now)
        × (number d 0 ≼ elapsed_s d from now)
        × (number d 0 ≼ average d (received stats) (elapsed_s d from now))
  unfolding received
  times_not_negative from now stats ordered = (
    elapsed_ms-not_negative from now ordered,
    elapsed_s-not_negative from now ordered,
    average-not_negative (received stats) (elapsed_s d from now) (omega arith),
  )
