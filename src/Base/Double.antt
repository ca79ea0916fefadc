-- ===== src/Base/Double.antt =====
-- All that the examples do with a `double`. The literals 0.0, 1000.0, 1.0e6 and 1.0e9 are integers.
use Prim.Native.Nat.{ℕ, ◌*◌, ◌^◌, ◌≤◌, ◌<◌}
use mathlib.Core.Path.{◌≡◌}
use mathlib.Core.Bool.{Bool, true}
use zenoh_flat_c.Base.Int.{ℤ, pos, neg, le_int}
use zenoh_flat_c.Base.Text.{Str}

pub record Double (W : Type 0) : Type 0 where
  -- the conversion of an integer
  pub of_integer : ℤ → W
  pub sum : W → W → W
  pub product : W → W → W
  pub quotient : W → W → W
  pub le : W → W → Bool
  pub gt : W → W → Bool
  -- `%f` of printf
  pub format : W → Str

module _ {W : Type 0} where
  abbrev pub number : Double W → ℕ → W
  number d n = d.of_integer (pos n)

  infix 4 ◌≼◌
  abbrev pub ◌≼◌ : ⦃d : Double W⦄ → W → W → Type 0
  ◌≼◌ ⦃d⦄ x y = d.le x y ≡ true

-- Rounding keeps the order, and integers up to 2 ^ 53 are exact, so that a product or a quotient of
-- such numbers that is such a number is exact too. NaN and the infinities meet these laws: nothing is
-- `<=` NaN, and no sum, product or quotient below is NaN.
pub record IsRounded (W : Type 0) ⦃d : Double W⦄ : Type 0 where
  pub le_trans : (x y z : W) → x ≼ y → y ≼ z → x ≼ z
  pub integer_le : (a b : ℤ) → le_int a b ≡ true → d.of_integer a ≼ d.of_integer b
  pub product_le :
      (k : ℕ) (x y : W)
      → 1 ≤ k
      → k ≤ 2 ^ 53
      → x ≼ y
      → d.product x (number d k) ≼ d.product y (number d k)
  pub quotient_le :
      (k : ℕ) (x y : W)
      → 1 ≤ k
      → k ≤ 2 ^ 53
      → x ≼ y
      → d.quotient x (number d k) ≼ d.quotient y (number d k)
  pub product_exact :
      (a b : ℕ) → a * b ≤ 2 ^ 53 → d.product (number d a) (number d b) ≡ number d (a * b)
  pub quotient_exact :
      (a b : ℕ)
      → 1 ≤ b
      → a * b ≤ 2 ^ 53
      → d.quotient (d.of_integer (neg (a * b))) (number d b) ≡ d.of_integer (neg a)
  pub sum_not_negative :
      (n : ℕ) (x y : W)
      → n ≤ 2 ^ 53
      → number d n ≼ x
      → d.of_integer (neg n) ≼ y
      → number d 0 ≼ d.sum x y
  pub quotient_not_negative :
      (n : ℕ) (y : W)
      → n < 2 ^ 64
      → d.gt y (number d 0) ≡ true
      → number d 0 ≼ d.quotient (number d n) y
