-- ===== src/Examples/Pub/Effect.antt =====
-- What examples/z_pub.c publishes.
use zenoh_flat_c.Base.{
  take, length, All, ◌++◌, ◌+◌, ◌%◌, ◌^◌, ◌≤◌, ℕ, zero, suc, ◌≡◌, refl, ap, ◌&&◌, Option, none,
  some, List, [], ◌∷◌, arith, if◌then◌else◌,
}
use zenoh_flat_c.Base.Text.{Str, codes, atoi, snprintf}
use zenoh_flat_c.Base.Int.{pos}
use zenoh_flat_c.Base.Decimal.{
  decimal4, IsFigure, decimal4-IsFigure, atoi-decimal4, length-decimal4-ge,
}
use zenoh_flat_c.Examples.Pub.Payload.{message_of_int}
use zenoh_flat_c.Trace.{Trace, ke, publisher}
use zenoh_flat_c.Trace.Published.{Contents, empty, holding, published}
use zenoh_flat_c.Examples.{Answers, open_session, make_keyexpr}
use zenoh_flat_c.Examples.Pub.{PubArgs, message, put_round, put_rounds, main}

-- The messages from the number `idx` on.
abbrev pub messages : Str → Str → ℕ → ℕ → List (Str × Str)
messages key value idx zero = []
messages key value idx (suc n) = (key, message idx value) ∷ messages key value (suc idx) n

published-put_round :
    (args : PubArgs) (idx : ℕ) (rest : Trace) (texts : List (Str × Str)) (contents : Contents)
    → contents publisher ≡ args.keyexpr
    → ((c : Contents) → c publisher ≡ args.keyexpr → published c rest ≡ texts)
    → published contents (put_round args idx rest) ≡ (args.keyexpr, message idx args.value) ∷ texts
unfolding published put_round
published-put_round args idx rest texts contents e behind = go args.attachment_text refl
  where
    go :
        (o : Option Str)
        → args.attachment_text ≡ o
        → published contents (put_round args idx rest)
          ≡ (args.keyexpr, message idx args.value) ∷ texts
    go none a = rw (a, e) (ap (λ l. (args.keyexpr, message idx args.value) ∷ l) (behind _ e))
    go (some t) a = rw (a, e) (ap (λ l. (args.keyexpr, message idx args.value) ∷ l) (behind _ e))

published-put_rounds :
    (args : PubArgs) (contents : Contents) (idx n : ℕ)
    → idx + n ≤ 2 ^ 31
    → contents publisher ≡ args.keyexpr
    → published contents (put_rounds args idx n) ≡ messages args.keyexpr args.value idx n
unfolding published put_rounds
published-put_rounds args contents idx zero h e = refl
published-put_rounds args contents idx (suc n) h e =
    let next : (idx + 1) % 2 ^ 32 ≡ suc idx = omega arith in
    rw next (
      published-put_round args idx (put_rounds args (suc idx) n) _ contents e
        (λ c k. published-put_rounds args c (suc idx) n (omega arith) k))

pub published-main :
    (answers : Answers) (args : PubArgs) (rounds : ℕ)
    → rounds ≤ 2 ^ 31
    → published empty (main answers args rounds) ≡ (
        if answers.opens && (answers.is_keyexpr args.keyexpr && answers.declares)
        then messages args.keyexpr args.value 0 rounds
        else [])
unfolding published main open_session make_keyexpr
published-main answers args rounds h = ground (
  arith,
  published-put_rounds args (holding publisher args.keyexpr (holding ke args.keyexpr empty)) 0
      rounds (omega arith) refl,
)

-- Under the key some texts, numbered from `n` on: `[`, the number in spaces and digits, at least four
-- characters, `] ` and the value, of which a buffer of 256 bytes keeps 255.
pub data Numbered (key value : Str) : ℕ → ℕ → List (Str × Str) → Type 0 where
  no_more : {n : ℕ} → Numbered key value n 0 []
  one_more :
      {n count : ℕ} {texts : List (Str × Str)} (number : Str)
      → All IsFigure number
      → atoi number ≡ pos n
      → 4 ≤ length number
      → Numbered key value (suc n) count texts
      → Numbered key value n
          (suc count)
          ((key, take 255 (codes "[" ++ (number ++ (codes "] " ++ value)))) ∷ texts)

messages-Numbered :
    (key value : Str) (n count : ℕ)
    → n + count ≤ 2 ^ 31
    → Numbered key value n count (messages key value n count)
unfolding snprintf
messages-Numbered key value n zero h = no_more
messages-Numbered key value n (suc count) h = rw (message_of_int n value (omega arith)) (
    one_more (decimal4 n) (decimal4-IsFigure n) (atoi-decimal4 n (omega arith))
      (length-decimal4-ge n) (messages-Numbered key value (suc n) count (omega arith)))

-- In its first `rounds` rounds, at most 2 ^ 31, z_pub publishes under its key one text for each of the
-- numbers 0, 1, 2 and so on, in this order, with or without an attachment: `[`, the number, which
-- takes at least four characters, `] ` and the value, cut after 255 characters. It publishes nothing
-- if the session did not open, the key is no key expression, or the publisher was not declared.
pub pub_publishes :
    (answers : Answers) (args : PubArgs) (rounds : ℕ)
    → rounds ≤ 2 ^ 31
    → (texts : List (Str × Str)) × Numbered args.keyexpr args.value 0 rounds texts
      × (published empty (main answers args rounds) ≡ (
          if answers.opens && (answers.is_keyexpr args.keyexpr && answers.declares)
          then texts
          else []))
pub_publishes answers args rounds h = (
  messages args.keyexpr args.value 0 rounds,
  messages-Numbered args.keyexpr args.value 0 rounds (omega arith),
  published-main answers args rounds h,
)
