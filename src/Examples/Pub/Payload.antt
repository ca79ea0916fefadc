-- ===== src/Examples/Pub/Payload.antt =====
-- What examples/z_pub.c sends, and its buffer of 256 bytes.
use zenoh_flat_c.Base.{
  refl, ◌∙◌, ℕ, ◌^◌, ◌≤◌, ◌<◌, ◌≡◌, ◌∷◌, ◌++◌, arith, length, length-append, length-take-le,
}
use zenoh_flat_c.Base.Int.{pos, to_signed}
use zenoh_flat_c.Base.Text.{Str, snprintf, snprintf_fits}
use zenoh_flat_c.Base.Decimal.{decimal4, decimal4_int, length-decimal4}
use zenoh_flat_c.Examples.Pub.{message}

abbrev pub whole_message : ℕ → Str → Str
whole_message idx value = b'[' ∷ (decimal4 idx ++ (b']' ∷ b' ' ∷ value))

length-message-le : (idx : ℕ) (value : Str) → length (message idx value) ≤ 255
unfolding message snprintf
length-message-le idx value =
    length-take-le 255 (b'[' ∷ (decimal4_int (to_signed 32 idx) ++ (b']' ∷ b' ' ∷ value)))

-- The number of a round that an `int` holds.
pub message_of_int :
    (idx : ℕ) (value : Str)
    → idx < 2 ^ 31
    → message idx value ≡ snprintf 256 (whole_message idx value)
unfolding message decimal4_int
message_of_int idx value h = let same : to_signed 32 idx ≡ pos idx = ground arith in rw same refl

-- In the first 10000 rounds a value of at most 248 characters is sent whole, behind the number of the
-- round, and the message leaves room for the null byte in its buffer of 256 bytes.
pub message_whole :
    (idx : ℕ) (value : Str)
    → idx < 10 ^ 4
    → length value ≤ 248
    → (message idx value ≡ whole_message idx value) × (length (message idx value) < 256)
message_whole idx value small short = (
  message_of_int idx value (omega arith)
      ∙ snprintf_fits 256 (whole_message idx value) (
          omega
            (arith, length-decimal4 idx small, length-append (decimal4 idx) (b']' ∷ b' ' ∷ value))),
  omega (arith, length-message-le idx value),
)
