-- ===== src/Tests/Doubles.antt =====
-- The laws of doubles can be met: whole numbers, with quotients that are rounded down. The reports of
-- z_sub_thr with them.
use native.Mathlib.Nat.{mul-le-mul_right, le-div_iff_mul-le, div-mul-le_self, div-eq_of_lt-le}
use zenoh_flat_c.Base.{
  length, ℕ, zero, suc, ◌+◌, ◌-◌, ◌*◌, ◌/◌, ◌≤◌, ◌≡◌, refl, ap, true, not, [], ◌∷◌, arith, some,
  inl,
}
use zenoh_flat_c.Base.Int.{ℤ, pos, negsuc, neg, difference, le_int}
use zenoh_flat_c.Base.Double.{Double, number, ◌≼◌, IsRounded}
use zenoh_flat_c.Trace.{calls, prints, context, free}
use zenoh_flat_c.Trace.Ledger.{ledger}
use zenoh_flat_c.Examples.SubThr.{Stats, z_stats_make, Timespec, received}
use zenoh_flat_c.Examples.SubThr.Report.{
  signed_decimal, elapsed_ms, elapsed_s, average, report, drop_stats,
}
use zenoh_flat_c.Examples.SubThr.Report.Elapsed.{Ordered, times_not_negative}
use zenoh_flat_c.Examples.SubThr.Rounds.{samples, stopped}
use zenoh_flat_c.Examples.SubThr.Report.Measured.{output, measurements_printed}
use zenoh_flat_c.Examples.SubThr.Report.Dropped.{drop_stats_reports}
use zenoh_flat_c.Tests.Threads.{seven, tick, after_five, Limits-1_2, five_run}

abbrev sum_int : ℤ → ℤ → ℤ
sum_int (pos m) (pos n) = pos (m + n)
sum_int (pos m) (negsuc n) = difference m (suc n)
sum_int (negsuc m) (pos n) = difference n (suc m)
sum_int (negsuc m) (negsuc n) = negsuc (suc (m + n))

abbrev product_int : ℤ → ℤ → ℤ
product_int (pos m) (pos n) = pos (m * n)
product_int (pos m) (negsuc n) = neg (m * suc n)
product_int (negsuc m) (pos n) = neg (suc m * n)
product_int (negsuc m) (negsuc n) = pos (suc m * suc n)

-- Rounded down, for a divisor that is positive; 0 otherwise.
abbrev quotient_int : ℤ → ℤ → ℤ
quotient_int (pos m) (pos (suc n)) = pos (m / suc n)
quotient_int (negsuc m) (pos (suc n)) = negsuc (m / suc n)
quotient_int _ _ = pos 0

instance abbrev whole_double : Double ℤ
whole_double = record {
  of_integer = λ a. a;
  sum = sum_int;
  product = product_int;
  quotient = quotient_int;
  le = le_int;
  gt = λ a b. not (le_int a b);
  format = signed_decimal;
}

le_int_trans : (x y z : ℤ) → le_int x y ≡ true → le_int y z ≡ true → le_int x z ≡ true
le_int_trans x y z h k = ground arith

le_neg : (m n : ℕ) → n ≤ m → le_int (neg m) (neg n) ≡ true
le_neg zero zero h = refl
le_neg zero (suc n) h = absurd (omega arith)
le_neg (suc m) zero h = refl
le_neg (suc m) (suc n) h = ground arith

le_pos : (m n : ℕ) → m ≤ n → le_int (pos m) (pos n) ≡ true
le_pos m n h = ground arith

le_negsuc : (m n : ℕ) → n ≤ m → le_int (negsuc m) (negsuc n) ≡ true
le_negsuc m n h = ground arith

negative_first : (m n : ℕ) → le_int (neg m) (pos n) ≡ true
negative_first zero n = ground arith
negative_first (suc m) n = refl

of_le_pos : (m n : ℕ) → le_int (pos m) (pos n) ≡ true → m ≤ n
of_le_pos m n h = ground arith

of_le_negsuc : (m n : ℕ) → le_int (negsuc m) (negsuc n) ≡ true → n ≤ m
of_le_negsuc m n h = ground arith

div_le : (k m n : ℕ) → m ≤ n → m / suc k ≤ n / suc k
div_le k m n h =
    let low = div-mul-le_self m (suc k) in
    let (_, up) = le-div_iff_mul-le {k = suc k} {x = m / suc k} {y = n} (omega arith) in
    up (omega arith)

mul_le : (k m n : ℕ) → m ≤ n → m * k ≤ n * k
mul_le k m n h = mul-le-mul_right k h

le_product :
    (k : ℕ) (x y : ℤ)
    → le_int x y ≡ true
    → le_int (product_int x (pos k)) (product_int y (pos k)) ≡ true
le_product k (pos m) (pos n) h = le_pos _ _ (mul_le k m n (of_le_pos m n h))
le_product k (pos m) (negsuc n) h = ground arith
le_product k (negsuc m) (pos n) h = negative_first (suc m * k) (n * k)
le_product k (negsuc m) (negsuc n) h = le_neg _ _ (mul_le k (suc n) (suc m) (ground arith))

le_quotient :
    (k : ℕ) (x y : ℤ)
    → le_int x y ≡ true
    → le_int (quotient_int x (pos (suc k))) (quotient_int y (pos (suc k))) ≡ true
le_quotient k (pos m) (pos n) h = le_pos _ _ (div_le k m n (of_le_pos m n h))
le_quotient k (pos m) (negsuc n) h = ground arith
le_quotient k (negsuc m) (pos n) h = refl
le_quotient k (negsuc m) (negsuc n) h = le_negsuc _ _ (div_le k n m (of_le_negsuc m n h))

quotient_exact_int : (a b c : ℕ) → c ≡ a * suc b → quotient_int (neg c) (pos (suc b)) ≡ neg a
quotient_exact_int zero b zero e =
    ap pos (div-eq_of_lt-le {k = 0} (suc b) {m = 0} (omega arith) (omega arith))
quotient_exact_int zero b (suc c) e = absurd (omega arith)
quotient_exact_int (suc a) b zero e = absurd (omega arith)
quotient_exact_int (suc a) b (suc c) e =
    ap negsuc (div-eq_of_lt-le {k = a} (suc b) {m = c} (omega arith) (omega arith))

at_most : (n b : ℕ) → le_int (neg n) (negsuc b) ≡ true → suc b ≤ n
at_most zero b h = ground arith
at_most (suc n) b h = ground arith

difference_not_negative : (a b : ℕ) → b ≤ a → le_int (pos 0) (difference a b) ≡ true
difference_not_negative a b h = ground arith

sum_int_not_negative :
    (n : ℕ) (x y : ℤ)
    → le_int (pos n) x ≡ true
    → le_int (neg n) y ≡ true
    → le_int (pos 0) (sum_int x y) ≡ true
sum_int_not_negative n (pos a) (pos b) h k = ground arith
sum_int_not_negative n (negsuc a) y h k = ground arith
sum_int_not_negative n (pos a) (negsuc b) h k =
    difference_not_negative a (suc b) (most (at_most n b k) (of_le_pos n a h))
  where
    most : suc b ≤ n → n ≤ a → suc b ≤ a
    most p q = omega arith

quotient_le_some :
    (k : ℕ) (x y : ℤ)
    → 1 ≤ k
    → le_int x y ≡ true
    → le_int (quotient_int x (pos k)) (quotient_int y (pos k)) ≡ true
quotient_le_some zero x y least h = absurd (omega arith)
quotient_le_some (suc k) x y least h = le_quotient k x y h

quotient_exact_some : (a b : ℕ) → 1 ≤ b → quotient_int (neg (a * b)) (pos b) ≡ neg a
quotient_exact_some a zero least = absurd (omega arith)
quotient_exact_some a (suc b) least = quotient_exact_int a b (a * suc b) refl

quotient_not_negative_int :
    (n : ℕ) (y : ℤ) → not (le_int y (pos 0)) ≡ true → le_int (pos 0) (quotient_int (pos n) y) ≡ true
quotient_not_negative_int n (pos zero) h = refl
quotient_not_negative_int n (pos (suc k)) h = le_pos 0 _ (omega arith)
quotient_not_negative_int n (negsuc k) h = refl

whole-IsRounded : IsRounded ℤ
whole-IsRounded = record {
  le_trans = le_int_trans;
  integer_le = λ a b h. h;
  product_le = λ k x y least small h. le_product k x y h;
  quotient_le = λ k x y least small h. quotient_le_some k x y least h;
  product_exact = λ a b h. refl;
  quotient_exact = λ a b least h. quotient_exact_some a b least;
  sum_not_negative = λ n x y small h k. sum_int_not_negative n x y h k;
  quotient_not_negative = λ n y small h. quotient_not_negative_int n y h;
}

-- Two seconds and a half later.
abbrev later : Timespec
later = record { tv_sec = 8; tv_nsec = 500000000 }

abbrev begun : Timespec
begun = record { tv_sec = 5; tv_nsec = 999999999 }

begun-Ordered : Ordered begun later
begun-Ordered = record {
  from_valid = omega arith;
  now_valid = omega arith;
  not_later = inl (omega arith);
}

times_not_negative_example :
    (number whole_double 0 ≼ elapsed_ms whole_double begun later)
    × (number whole_double 0 ≼ elapsed_s whole_double begun later)
    × (number whole_double 0
        ≼ average whole_double (received after_five) (elapsed_s whole_double begun later))
times_not_negative_example = times_not_negative whole-IsRounded begun later after_five begun-Ordered

drop_stats_reports_example :
    (drop_stats whole_double later after_five ≡ (
      prints (report whole_double (5 - 1) (elapsed_s whole_double tick later))
      ∷ calls (free context)
      ∷ []))
    × (ledger (drop_stats whole_double later after_five) (context ∷ []) ≡ some [])
drop_stats_reports_example =
    drop_stats_reports whole_double 1 2 Limits-1_2 tick tick tick later
      (tick ∷ tick ∷ tick ∷ tick ∷ []) after_five five_run (omega arith)

-- The six samples of two rounds end the process.
measurements_printed_example :
    ((s : Stats) × (samples 0 seven (z_stats_make tick tick 1 2) ≡ stopped ((1 + 1) * (2 + 1)) s)
      × (s.finished_rounds ≡ 1 + 1))
    × (length (output whole_double (λ now. later) seven (z_stats_make tick tick 1 2)) ≡ 1 + 1)
measurements_printed_example =
    measurements_printed whole_double 1 2 Limits-1_2 tick tick (λ now. later) seven (omega arith)
