-- ===== src/Base/Text.antt =====
-- C strings: the bytes in front of the terminating null byte, and the functions of string.h,
-- stdlib.h and stdio.h that the program calls on them.
use Prim.Native.Char.{code}
use Prim.Native.String.{String}
use Prim.Native.Nat.{ℕ, zero, suc, ◌+◌, ◌-◌, ◌*◌, ◌<◌, ◌^◌}
use mathlib.Core.Path.{◌≡◌, refl}
use mathlib.Core.Logic.{◌≢◌}
use mathlib.Core.Bool.{Bool, true, false, ◌&&◌, ◌||◌}
use mathlib.Core.Option.{Option, none, some}
use mathlib.Core.List.{List, [], ◌∷◌, ◌++◌}
use native.Mathlib.Omega.{arith}
use zenoh_flat_c.Base.Tests.{◌==◌, if◌then◌else◌, leb, ltb}
use zenoh_flat_c.Base.Lists.{All, length, take, take_all}
use zenoh_flat_c.Base.Int.{ℤ, pos, negsuc, neg, to_signed, to_unsigned}

abbrev pub Str : Type 0
Str = List ℕ

-- The bytes of an ASCII literal.
abbrev pub codes : String → Str
codes String.[] = []
codes (String.◌∷◌ c s) = code c ∷ codes s

-- `strcmp(s, t) == 0`
unfoldable pub str_eq : Str → Str → Bool
str_eq [] [] = true
str_eq [] (_ ∷ _) = false
str_eq (_ ∷ _) [] = false
str_eq (a ∷ s) (b ∷ t) = (a == b) && str_eq s t

-- `strncmp(s, p, strlen(p)) == 0`
unfoldable pub starts_with : Str → Str → Bool
starts_with s [] = true
starts_with [] (_ ∷ _) = false
starts_with (a ∷ s) (b ∷ p) = (a == b) && starts_with s p

-- `strchr(s, c)`: the text in front of the first `c` and the text behind it.
unfoldable pub split_char : ℕ → Str → Option (Str × Str)
split_char c [] = none
split_char c (a ∷ s) = elim (a == c) [
  | true ↦ some ([], s)
  | false ↦ elim (split_char c s) [ none ↦ none | some (before, after) ↦ some (a ∷ before, after) ]
]

-- `snprintf` of a text into a buffer of `size` bytes: what does not fit is cut off.
unfoldable pub snprintf : ℕ → Str → Str
snprintf zero text = []
snprintf (suc room) text = take room text

unfoldable pub is_space : ℕ → Bool
is_space c = (c == 32) || (leb 9 c && leb c 13)

unfoldable pub is_digit : ℕ → Bool
is_digit c = leb b'0' c && leb c b'9'

-- The digits from here on, in front of anything else.
unfoldable pub digits_value : ℕ → Str → ℕ
digits_value acc [] = acc
digits_value acc (c ∷ s) =
    let more = digits_value (acc * 10 + (c - b'0')) s in if is_digit c then more else acc

unfoldable pub signed_value : Str → ℤ
unfolding digits_value is_digit
signed_value [] = pos 0
signed_value (c ∷ s) =
    if c == b'-'
    then neg (digits_value 0 s)
    else if c == b'+'
    then pos (digits_value 0 s)
    else pos (digits_value 0 (c ∷ s))

-- The number at the beginning of a text, behind white space.
unfoldable pub leading_number : Str → ℤ
unfolding signed_value is_space
leading_number [] = pos 0
leading_number (c ∷ s) =
    let rest = leading_number s in if is_space c then rest else signed_value (c ∷ s)

abbrev pub in_long : ℤ → ℤ
in_long (pos n) = pos (if ltb n (2 ^ 63) then n else 2 ^ 63 - 1)
in_long (negsuc n) = negsuc (if ltb n (2 ^ 63) then n else 2 ^ 63 - 1)

-- `strtol(s, NULL, 10)` with a `long` of 64 bits: beyond its range the nearest number of the range.
unfoldable pub strtol : Str → ℤ
unfolding leading_number
strtol s = in_long (leading_number s)

-- `atoi`: the `long` of `strtol`, of which an `int` keeps 32 bits, as glibc does it. C leaves it
-- undefined where the number is none of an `int`.
unfoldable pub atoi : Str → ℤ
unfolding strtol
atoi s = to_signed 32 (to_unsigned 32 (strtol s))

pub str_eq_refl : (s : Str) → str_eq s s ≡ true
unfolding str_eq
str_eq_refl [] = refl
str_eq_refl (a ∷ s) = ground (arith, str_eq_refl s)

pub eq_of_str_eq : (s t : Str) → str_eq s t ≡ true → s ≡ t
unfolding str_eq
eq_of_str_eq [] [] h = refl
eq_of_str_eq [] (_ ∷ _) h = cc
eq_of_str_eq (_ ∷ _) [] h = cc
eq_of_str_eq (a ∷ s) (b ∷ t) h = ground (arith, eq_of_str_eq s t)

pub starts_with-append : (p s : Str) → starts_with (p ++ s) p ≡ true
unfolding starts_with
starts_with-append [] s = refl
starts_with-append (a ∷ p) s = ground (arith, starts_with-append p s)

-- A text that starts with `p` is `p` and a rest.
pub starts_with_split : (s p : Str) → starts_with s p ≡ true → (r : Str) × (s ≡ p ++ r)
unfolding starts_with
starts_with_split s [] h = (s, refl)
starts_with_split [] (_ ∷ _) h = absurd (cc)
starts_with_split (a ∷ s) (b ∷ p) h = ground (arith, starts_with_split s p)

-- No byte of the text is `c`.
abbrev pub Lacks : ℕ → Str → Type 0
Lacks c s = All (λ a. a ≢ c) s

pub split_char-append : (c : ℕ) (s t : Str) → Lacks c s → split_char c (s ++ c ∷ t) ≡ some (s, t)
unfolding split_char
split_char-append c [] t h = ground arith
split_char-append c (a ∷ s) t h = ground (arith, split_char-append c s t h.1)

pub split_char-eq_none : (c : ℕ) (s : Str) → Lacks c s → split_char c s ≡ none
unfolding split_char
split_char-eq_none c [] h = refl
split_char-eq_none c (a ∷ s) h = ground (arith, split_char-eq_none c s h.1)

pub split_char-none : (c : ℕ) (s : Str) → split_char c s ≡ none → Lacks c s
unfolding split_char
split_char-none c [] h = tt
split_char-none c (a ∷ s) h = ground (arith, split_char-none c s)

split_first :
    (c a : ℕ) (s after : Str) (o : Option (Str × Str))
    → split_char c s ≡ o
    → split_char c (a ∷ s) ≡ some ([], after)
    → Unit {0} × (a ∷ s ≡ c ∷ after)
unfolding split_char
split_first c a s after none e h = ground arith
split_first c a s after (some (before, rest)) e h = ground arith

pub split_char_split :
    (c : ℕ) (s before after : Str)
    → split_char c s ≡ some (before, after)
    → Lacks c before × (s ≡ before ++ c ∷ after)
unfolding split_char
split_char_split c [] before after h = absurd (cc)
split_char_split c (a ∷ s) [] after h = split_first c a s after (split_char c s) refl h
split_char_split c (a ∷ s) (b ∷ before) after h = ground (arith, split_char_split c s before after)

-- A text that is shorter than the buffer is written whole.
pub snprintf_fits : (size : ℕ) (text : Str) → length text < size → snprintf size text ≡ text
unfolding snprintf
snprintf_fits zero text h = absurd (omega arith)
snprintf_fits (suc room) text h = take_all room text (omega arith)
