-- ===== src/Examples/Delivery.antt =====
-- z_pub and z_sub together: what z_sub prints of what z_pub publishes.
use zenoh_flat_c.Base.{
  ℕ, zero, suc, ◌+◌, ◌^◌, ◌≤◌, ◌≡◌, ◌≢◌, refl, ◌∙◌, Bool, true, false, none, List, [], ◌∷◌, ◌++◌,
  append_assoc, arith, length, ◌&&◌, if◌then◌else◌, All-append,
}
use zenoh_flat_c.Base.Text.{Str, codes, Lacks}
use zenoh_flat_c.Base.Decimal.{decimal4, decimal4-Lacks}
use zenoh_flat_c.Enums.{put, sample_kind_value}
use zenoh_flat_c.Trace.{Trace, calls, prints, sleeps, returns, aborts}
use zenoh_flat_c.Trace.Printed.{printed_text}
use zenoh_flat_c.Trace.Published.{empty, published}
use zenoh_flat_c.Examples.{Answers}
use zenoh_flat_c.Examples.Pub
use zenoh_flat_c.Examples.Pub.{message}
use zenoh_flat_c.Examples.Pub.Effect.{messages, published-main}
use zenoh_flat_c.Examples.Pub.Payload.{whole_message, message_whole}
use zenoh_flat_c.Examples.Sub.{Sample, data_handler, printed_bytes, kind_to_str}

-- The library makes a sample of each publication without an attachment: a put of the same bytes under
-- the same key.
pub record IsFaithful (deliver : Str × Str → Sample) : Type 0 where
  pub same_key : (p : Str × Str) → (deliver p).key_expr ≡ p.0
  pub is_put : (p : Str × Str) → (deliver p).kind ≡ sample_kind_value put
  pub same_bytes : (p : Str × Str) → (deliver p).payload ≡ p.1
  pub no_attachment : (p : Str × Str) → (deliver p).attachment ≡ none

-- The handler is called for each publication, once and in order.
abbrev pub handled : (Str × Str → Sample) → List (Str × Str) → Trace
handled deliver [] = []
handled deliver (p ∷ ps) = data_handler (deliver p) ++ handled deliver ps

abbrev pub line : Str → Str → Str
line key text =
    codes ">> [Subscriber] Received PUT ('" ++ (key ++ (codes "': '" ++ (text ++ codes "')\n")))

abbrev pub lines : Str → Str → ℕ → ℕ → Str
lines key value idx zero = []
lines key value idx (suc n) = line key (whole_message idx value) ++ lines key value (suc idx) n

pub printed_bytes-Lacks : (bytes : Str) → Lacks 0 bytes → printed_bytes bytes ≡ bytes
unfolding printed_bytes
printed_bytes-Lacks [] h = refl
printed_bytes-Lacks (b ∷ bytes) h = ground (arith, printed_bytes-Lacks bytes h.1)

printed_text-append : (a b : Trace) → printed_text (a ++ b) ≡ printed_text a ++ printed_text b
unfolding printed_text
printed_text-append [] b = refl
printed_text-append (prints text ∷ a) b = rw (printed_text-append a b, append_assoc) refl
printed_text-append (calls _ ∷ a) b = printed_text-append a b
printed_text-append (sleeps ∷ a) b = printed_text-append a b
printed_text-append (returns _ ∷ a) b = printed_text-append a b
printed_text-append (aborts ∷ a) b = printed_text-append a b

whole-Lacks : (idx : ℕ) (value : Str) → Lacks 0 value → Lacks 0 (whole_message idx value)
whole-Lacks idx value h = (
  (λ e. omega arith),
  All-append (λ a. a ≢ 0) (decimal4 idx) _ (decimal4-Lacks idx)
      ((λ e. omega arith), ((λ e. omega arith), h)),
)

module _ (deliver : Str × Str → Sample) (faithful : IsFaithful deliver) where
  handler_line :
      (key text : Str)
      → Lacks 0 text
      → printed_text (data_handler (deliver (key, text))) ≡ line key text
  unfolding printed_text data_handler kind_to_str sample_kind_value
  handler_line key text h =
      rw
        (
          faithful.same_key (key, text),
          faithful.is_put (key, text),
          faithful.same_bytes (key, text),
          faithful.no_attachment (key, text),
          printed_bytes-Lacks text h,
        )
        (rw (append_assoc, append_assoc) refl)

  handled-lines :
      (key value : Str) (idx n : ℕ)
      → Lacks 0 value
      → length value ≤ 248
      → idx + n ≤ 10 ^ 4
      → printed_text (handled deliver (messages key value idx n)) ≡ lines key value idx n
  unfolding printed_text
  handled-lines key value idx zero h short early = refl
  handled-lines key value idx (suc n) h short early =
      let (whole, _) = message_whole idx value (omega arith) short in
      rw (whole) (
        printed_text-append (data_handler (deliver (key, whole_message idx value))) _
        ∙ rw
            (
              handler_line key (whole_message idx value) (whole-Lacks idx value h),
              handled-lines key value (suc idx) n h short (omega arith),
            )
            refl)

  if_lines :
      (key value : Str) (n : ℕ) (b : Bool)
      → printed_text (handled deliver (messages key value 0 n)) ≡ lines key value 0 n
      → printed_text (handled deliver (if b then messages key value 0 n else []))
        ≡ (if b then lines key value 0 n else [])
  unfolding printed_text
  if_lines key value n true e = e
  if_lines key value n false e = refl

  -- If the library makes a put of the same bytes under the same key of each publication, without an
  -- attachment, and z_sub's handler is called for each, once and in order, then z_sub prints for the
  -- first `rounds` rounds of z_pub, at most 10000, the lines `>> [Subscriber] Received PUT ('KEY':
  -- '[   N] VALUE')` for N = 0, 1, 2 and so on, the value whole, if it has no null byte and at most 248
  -- characters; it prints nothing where z_pub returned early.
  pub pub_to_sub :
      (answers : Answers) (args : Pub.PubArgs) (rounds : ℕ)
      → Lacks 0 args.value
      → length args.value ≤ 248
      → rounds ≤ 10 ^ 4
      → printed_text (handled deliver (published empty (Pub.main answers args rounds))) ≡ (
          if answers.opens && (answers.is_keyexpr args.keyexpr && answers.declares)
          then lines args.keyexpr args.value 0 rounds
          else [])
  pub_to_sub answers args rounds h short early =
      rw (published-main answers args rounds (omega arith)) (
        if_lines args.keyexpr args.value rounds
          (answers.opens && (answers.is_keyexpr args.keyexpr && answers.declares))
          (handled-lines args.keyexpr args.value 0 rounds h short (omega arith)))
