-- ===== src/Base/Decimal.antt =====
-- Numbers in decimal: `%d` and `%4d` of printf, and `atoi` behind them.
use Prim.Native.Nat.{ℕ, zero, suc, ◌+◌, ◌-◌, ◌*◌, ◌/◌, ◌%◌, ◌^◌, ◌<◌, ◌≤◌}
use mathlib.Core.Path.{◌≡◌, refl, ap, ◌∙◌}
use mathlib.Core.Bool.{true}
use mathlib.Core.Logic.{◌≢◌, ◌⊎◌, inl, inr}
use mathlib.Core.List.{[], ◌∷◌, ◌++◌, append-nil, append_assoc}
use native.Mathlib.Nat.{zero-add}
use native.Mathlib.Omega.{arith}
use zenoh_flat_c.Base.Tests.{ltb, if◌then◌else◌, Bool-cases}
use zenoh_flat_c.Base.Lists.{All, All-append, length, length-append}
use zenoh_flat_c.Base.Int.{ℤ, pos, negsuc, to_signed, to_unsigned}
use zenoh_flat_c.Base.Text.{
  Str, Lacks, in_long, leading_number, atoi, strtol, digits_value, signed_value, is_digit, is_space,
}

digits : ℕ → ℕ → Str
digits zero n = []
digits (suc fuel) n =
    let more = digits fuel (n / 10) ++ (b'0' + n % 10) ∷ [] in
    if ltb n 10 then (b'0' + n) ∷ [] else more

-- `%d` of a number that is not negative.
unfoldable pub decimal : ℕ → Str
unfolding digits
decimal n = digits (suc n) n

spaces : ℕ → Str
spaces zero = []
spaces (suc n) = b' ' ∷ spaces n

-- `%4d`: at least four characters, with spaces in front.
unfoldable pub decimal4 : ℕ → Str
unfolding decimal spaces
decimal4 n = spaces (4 - length (decimal n)) ++ decimal n

is_digit_of_small : (n : ℕ) → n < 10 → is_digit (b'0' + n) ≡ true
unfolding is_digit
is_digit_of_small n h = ground arith

digits_value_step :
    (acc n : ℕ) (ys : Str)
    → n < 10
    → digits_value acc ((b'0' + n) ∷ ys) ≡ digits_value (acc * 10 + n) ys
unfolding digits_value
digits_value_step acc n ys h =
    let back : b'0' + n - b'0' ≡ n = omega arith in rw (is_digit_of_small n h, digits_value, back)

digits_value-digits :
    (fuel n : ℕ) (ys : Str) → n < fuel → digits_value 0 (digits fuel n ++ ys) ≡ digits_value n ys
unfolding digits
digits_value-digits zero n ys h = absurd (omega arith)
digits_value-digits (suc fuel) n ys h = elim (Bool-cases (ltb n 10)) [
  | inl small ↦ rw small (digits_value_step 0 n ys (ground arith) ∙ rw (zero-add))
  | inr large ↦
      rw (large, append_assoc)
        (digits_value-digits fuel (n / 10) ((b'0' + n % 10) ∷ ys) (ground arith)
          ∙ digits_value_step (n / 10) (n % 10) ys (omega arith)
          ∙ ap (λ m. digits_value m ys) (omega arith))
]

StartsWithDigit : Str → Type 0
StartsWithDigit s = (c : ℕ) × (t : Str) × (s ≡ c ∷ t) × (is_digit c ≡ true)

digits-StartsWithDigit : (fuel n : ℕ) → n < fuel → StartsWithDigit (digits fuel n)
unfolding digits StartsWithDigit
digits-StartsWithDigit zero n h = absurd (omega arith)
digits-StartsWithDigit (suc fuel) n h = elim (Bool-cases (ltb n 10)) [
  | inl small ↦ (b'0' + n, [], rw small, is_digit_of_small n (ground arith))
  | inr large ↦
      let (c, t, e, d) = digits-StartsWithDigit fuel (n / 10) (ground arith) in
      (c, t ++ (b'0' + n % 10) ∷ [], rw (large, e), d)
]

leading_number-digits :
    (s t : Str) → StartsWithDigit s → leading_number (s ++ t) ≡ pos (digits_value 0 (s ++ t))
unfolding leading_number StartsWithDigit signed_value
leading_number-digits s u (c, t, e, d) = rw e (go c d)
  where
    go :
        (c : ℕ)
        → is_digit c ≡ true
        → leading_number (c ∷ (t ++ u)) ≡ pos (digits_value 0 (c ∷ (t ++ u)))
    go c d = ground arith

-- `t` does not begin with a digit.
abbrev pub EndsNumber : Str → Type 0
EndsNumber t = (acc : ℕ) → digits_value acc t ≡ acc

leading_number-decimal : (n : ℕ) (t : Str) → EndsNumber t → leading_number (decimal n ++ t) ≡ pos n
unfolding decimal
leading_number-decimal n t h =
    leading_number-digits _ t (digits-StartsWithDigit (suc n) n (omega arith))
    ∙ ap pos (digits_value-digits (suc n) n t (omega arith) ∙ h n)

leading_number-spaces : (k : ℕ) (t : Str) → leading_number (spaces k ++ t) ≡ leading_number t
unfolding spaces leading_number is_space
leading_number-spaces zero t = refl
leading_number-spaces (suc k) t = leading_number-spaces k t

atoi_of_int : (s : Str) (n : ℕ) → leading_number s ≡ pos n → n < 2 ^ 31 → atoi s ≡ pos n
unfolding atoi strtol
atoi_of_int s n e h = ap (λ z. to_signed 32 (to_unsigned 32 (in_long z))) e ∙ fits
  where
    fits : to_signed 32 (to_unsigned 32 (in_long (pos n))) ≡ pos n
    fits = ground arith

-- What is printed in decimal is read back, if an `int` holds it.
pub atoi-decimal : (n : ℕ) → n < 2 ^ 31 → atoi (decimal n) ≡ pos n
unfolding digits_value
atoi-decimal n h = atoi_of_int _ n (rw append-nil at (leading_number-decimal n [] (λ acc. refl))) h

pub atoi-decimal4 : (n : ℕ) → n < 2 ^ 31 → atoi (decimal4 n) ≡ pos n
unfolding decimal4 digits_value
atoi-decimal4 n h =
    atoi_of_int _ n
      (leading_number-spaces (4 - length (decimal n)) (decimal n)
        ∙ rw append-nil at (leading_number-decimal n [] (λ acc. refl)))
      h

length-digits-le : (fuel n k : ℕ) → n < 10 ^ suc k → length (digits fuel n) ≤ suc k
unfolding digits
length-digits-le zero n k h = omega arith
length-digits-le (suc fuel) n zero h = elim (Bool-cases (ltb n 10)) [
  | inl small ↦ rw small (omega arith)
  | inr large ↦ absurd (ground arith)
]
length-digits-le (suc fuel) n (suc k) h =
    let power : 10 ^ suc (suc k) ≡ 10 ^ suc k * 10 = omega arith in
    let rest = length-digits-le fuel (n / 10) k (omega (arith, power)) in
    elim (Bool-cases (ltb n 10)) [
      | inl small ↦ rw small (omega arith)
      | inr large ↦
          rw large
            (omega (arith, rest, length-append (digits fuel (n / 10)) ((b'0' + n % 10) ∷ [])))
    ]

length-spaces : (n : ℕ) → length (spaces n) ≡ n
unfolding spaces
length-spaces zero = omega arith
length-spaces (suc n) = ap suc (length-spaces n)

-- `%4d` of any `int`.
unfoldable pub decimal4_int : ℤ → Str
unfolding decimal spaces decimal4
decimal4_int (pos n) = decimal4 n
decimal4_int (negsuc n) = let text = b'-' ∷ decimal (n + 1) in spaces (4 - length text) ++ text

pub length-decimal4-ge : (n : ℕ) → 4 ≤ length (decimal4 n)
unfolding decimal4
length-decimal4-ge n = omega (
  arith,
  length-spaces (4 - length (decimal n)),
  length-append (spaces (4 - length (decimal n))) (decimal n),
)

-- Spaces and digits.
abbrev pub IsFigure : ℕ → Type 0
IsFigure c = (c ≡ b' ') ⊎ (is_digit c ≡ true)

digits-IsFigure : (fuel n : ℕ) → All IsFigure (digits fuel n)
unfolding digits
digits-IsFigure zero n = tt
digits-IsFigure (suc fuel) n = elim (Bool-cases (ltb n 10)) [
  | inl small ↦ rw small (inr (is_digit_of_small n (ground arith)), tt)
  | inr large ↦ rw large (
      All-append IsFigure (digits fuel (n / 10)) _ (digits-IsFigure fuel (n / 10))
        (inr (is_digit_of_small (n % 10) (omega arith)), tt))
]

spaces-IsFigure : (n : ℕ) → All IsFigure (spaces n)
unfolding spaces
spaces-IsFigure zero = tt
spaces-IsFigure (suc n) = (inl refl, spaces-IsFigure n)

pub decimal4-IsFigure : (n : ℕ) → All IsFigure (decimal4 n)
unfolding decimal4 decimal
decimal4-IsFigure n =
    All-append IsFigure (spaces (4 - length (decimal n))) _ (spaces-IsFigure _)
      (digits-IsFigure (suc n) n)

-- Below 10000, `%4d` takes four characters.
pub length-decimal4 : (n : ℕ) → n < 10 ^ 4 → length (decimal4 n) ≡ 4
unfolding decimal4 decimal
length-decimal4 n h =
    let short = length-digits-le (suc n) n 3 h in
    omega (
      arith,
      short,
      length-spaces (4 - length (digits (suc n) n)),
      length-append (spaces (4 - length (digits (suc n) n))) (digits (suc n) n),
    )

-- A number in decimal begins with a digit.
pub decimal_first : (n : ℕ) → (c : ℕ) × (t : Str) × (decimal n ≡ c ∷ t) × (is_digit c ≡ true)
unfolding decimal StartsWithDigit
decimal_first n = digits-StartsWithDigit (suc n) n (omega arith)

digit_nonzero : (n : ℕ) → b'0' + n ≢ 0
digit_nonzero n = λ e. omega arith

-- The decimals have no null byte.
digits-Lacks : (fuel n : ℕ) → Lacks 0 (digits fuel n)
unfolding digits
digits-Lacks zero n = tt
digits-Lacks (suc fuel) n = elim (Bool-cases (ltb n 10)) [
  | inl small ↦ rw small (digit_nonzero n, tt)
  | inr large ↦ rw large (
      All-append (λ a. a ≢ 0) (digits fuel (n / 10)) _ (digits-Lacks fuel (n / 10))
        (digit_nonzero (n % 10), tt))
]

spaces-Lacks : (n : ℕ) → Lacks 0 (spaces n)
unfolding spaces
spaces-Lacks zero = tt
spaces-Lacks (suc n) = (λ e. omega arith, spaces-Lacks n)

pub decimal4-Lacks : (n : ℕ) → Lacks 0 (decimal4 n)
unfolding decimal4 decimal
decimal4-Lacks n =
    All-append (λ a. a ≢ 0) (spaces (4 - length (decimal n))) _ (spaces-Lacks _)
      (digits-Lacks (suc n) n)
