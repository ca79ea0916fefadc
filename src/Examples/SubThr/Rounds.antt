-- ===== src/Examples/SubThr/Rounds.antt =====
-- z_sub_thr counts rounds: how many samples a round takes, when the process ends, and what the
-- closing report says.
use zenoh_flat_c.Base.{
  ℕ, ◌+◌, ◌*◌, ◌%◌, ◌^◌, ◌≤◌, ◌<◌, ◌≡◌, refl, sym, inl, inr, Bool, true, false, List, [], ◌∷◌,
  arith, ltb, ◌==◌, if◌then◌else◌, Bool-cases,
}
use zenoh_flat_c.Examples.SubThr.{
  Timespec, Stats, Action, silent, reports, reports_and_exits, on_sample, first_of_round,
}

-- The process after some samples: it still runs, or it ended at the n-th.
pub data Fate : Type 0 where
  running : Stats → Fate
  stopped : ℕ → Stats → Fate

abbrev pub after_sample : ℕ → (Stats → Fate) → Stats × Action → Fate
after_sample n rest (stats, silent) = rest stats
after_sample n rest (stats, reports) = rest stats
after_sample n rest (stats, reports_and_exits) = stopped n stats

-- One clock reading for each sample; `n` samples came before.
unfoldable pub samples : ℕ → List Timespec → Stats → Fate
samples n [] stats = running stats
samples n (now ∷ times) stats = after_sample (n + 1) (samples (n + 1) times) (on_sample now stats)

-- Round sizes and limits that an `unsigned long` counts without wrapping.
pub record Limits (r m : ℕ) : Type 0 where
  pub some_messages : 1 ≤ m
  pub no_wrap : r + 1 < 2 ^ 64

-- After `n` samples: a finished round took `m + 1` of them.
pub record IsAt (r m n : ℕ) (s : Stats) : Type 0 where
  pub max_rounds_is : s.max_rounds ≡ r
  pub messages_is : s.messages_per_round ≡ m
  pub samples_are : s.finished_rounds * (m + 1) + s.count ≡ n
  pub count_le : s.count ≤ m
  pub rounds_le : s.finished_rounds ≤ r

-- What holds after the n-th sample: the end comes with the last sample of round r + 1.
abbrev pub Next : ℕ → ℕ → ℕ → Stats × Action → Type 0
Next r m n (s, silent) = IsAt r m n s
Next r m n (s, reports) = IsAt r m n s
Next r m n (s, reports_and_exits) = (s.finished_rounds ≡ r + 1) × (n ≡ (r + 1) * (m + 1))

one_more : (f m n c : ℕ) → c ≡ m → f * (m + 1) + c ≡ n → (f + 1) * (m + 1) ≡ n + 1
one_more f m n c full e = omega arith

module _ (r m : ℕ) (limits : Limits r m) where
  end-Next :
      (n : ℕ) (now : Timespec) (s : Stats)
      → IsAt r m n s
      → (s.count == 0) ≡ false
      → ltb s.count s.messages_per_round ≡ false
      → Next r m (n + 1) (on_sample now s)
  unfolding on_sample
  end-Next n now s at e f =
      let full : s.count ≡ m = ground arith in
      let wrap = limits.no_wrap in
      let next : (s.finished_rounds + 1) % 2 ^ 64 ≡ s.finished_rounds + 1 = omega arith in
      rw (e, on_sample, f, next)
        (ended (ltb s.max_rounds (s.finished_rounds + 1)) refl
          (one_more s.finished_rounds m n s.count full at.samples_are))
    where
      t : Stats
      t = record s { count = 0; finished_rounds = s.finished_rounds + 1 }

      ended :
          (b : Bool)
          → ltb s.max_rounds (s.finished_rounds + 1) ≡ b
          → (s.finished_rounds + 1) * (m + 1) ≡ n + 1
          → Next r m (n + 1) (t, if b then reports_and_exits else reports)
      ended true g h =
          let same : s.finished_rounds ≡ r = ground arith in
          let goal : (s.finished_rounds + 1) * (m + 1) ≡ n + 1 = h in
          (omega arith, sym (rw same at goal))
      ended false g h = let more : s.finished_rounds + 1 ≤ r = ground arith in omega arith

  first :
      {n : ℕ} {now : Timespec} {s : Stats}
      → IsAt r m n s
      → s.count ≡ 0
      → IsAt r m (n + 1) (first_of_round s now)
  first at e = let some = limits.some_messages in omega arith

  counted :
      {n : ℕ} {s : Stats}
      → IsAt r m n s
      → s.count < s.messages_per_round
      → IsAt r m (n + 1) (record s { count = s.count + 1 })
  counted at e = omega arith

  pub on_sample-Next :
      (n : ℕ) (now : Timespec) (s : Stats) → IsAt r m n s → Next r m (n + 1) (on_sample now s)
  unfolding on_sample
  on_sample-Next n now s at = elim (Bool-cases (s.count == 0)) [
    | inl e ↦ rw (e, on_sample) (first at (ground arith))
    | inr e ↦ elim (Bool-cases (ltb s.count s.messages_per_round)) [
      | inl f ↦ rw (e, on_sample, f) (counted at (ground arith))
      | inr f ↦ end-Next n now s at e f
    ]
  ]
