-- ===== src/Examples/SubThr/Ending.antt =====
-- How examples/z_sub_thr.c ends, and what it reports.
use zenoh_flat_c.Base.{
  ℕ, suc, ◌+◌, ◌-◌, ◌*◌, ◌^◌, ◌≤◌, ◌<◌, ◌≡◌, refl, subst, List, [], ◌∷◌, arith, length,
}
use zenoh_flat_c.Examples.SubThr.{
  Timespec, Stats, Action, silent, reports, reports_and_exits, on_sample, received, z_stats_make,
}
use zenoh_flat_c.Examples.SubThr.Rounds.{
  Fate, running, stopped, samples, Limits, IsAt, Next, on_sample-Next,
}

too_many_arith : (f k m c : ℕ) → c ≤ m → (f + k + 1) * (m + 1) ≤ f * (m + 1) + c → ⊥
too_many_arith f k m c h e = omega arith

too_many : (r m f c n : ℕ) → f ≤ r → c ≤ m → f * (m + 1) + c ≡ n → (r + 1) * (m + 1) ≤ n → ⊥
too_many r m f c n hf hc e h = go (r - f) (omega arith)
  where
    go : (k : ℕ) → r ≡ f + k → ⊥
    go k er = too_many_arith f k m c hc (rw (er, ← e) at h)

module _ (r m : ℕ) (limits : Limits r m) where
  -- After the given number of samples: the process runs on at this point of a round, or it ended
  -- with the last sample of round r + 1.
  abbrev pub Fits : ℕ → Fate → Type 0
  Fits total (running s) = IsAt r m total s
  Fits total (stopped n s) = (s.finished_rounds ≡ r + 1) × (n ≡ (r + 1) * (m + 1)) × (n ≤ total)

  samples-Fits :
      (n : ℕ) (times : List Timespec) (s : Stats)
      → IsAt r m n s
      → Fits (n + length times) (samples n times s)
  unfolding samples
  samples-Fits n [] s at = omega arith
  samples-Fits n (now ∷ times) s at =
      let rec = samples-Fits (n + 1) times in
      let total : n + 1 + length times ≡ n + suc (length times) = omega arith in
      go (on_sample now s) refl (on_sample-Next r m limits n now s at)
        (λ q h. subst (λ k. Fits k (samples (n + 1) times q)) total (rec q h))
    where
      go :
          (p : Stats × Action)
          → on_sample now s ≡ p
          → Next r m (n + 1) p
          → ((q : Stats)
              → IsAt r m (n + 1) q
              → Fits (n + suc (length times)) (samples (n + 1) times q))
          → Fits (n + suc (length times)) (samples n (now ∷ times) s)
      go (q, silent) e h rec = rw (e, samples) (rec q h)
      go (q, reports) e h rec = rw (e, samples) (rec q h)
      go (q, reports_and_exits) e h rec = rw (e, samples) (h.0, h.1, omega arith)

  pub start-IsAt : (old old_first : Timespec) → IsAt r m 0 (z_stats_make old old_first r m)
  unfolding z_stats_make
  start-IsAt old old_first = omega arith

  -- From the start, with the limit `r` on the rounds and `m` messages in each, a finished round has
  -- taken m + 1 samples, and the process ends exactly with the sample (r + 1) * (m + 1), which
  -- finishes round r + 1.
  pub samples_rounds :
      (old old_first : Timespec) (times : List Timespec)
      → Fits (length times) (samples 0 times (z_stats_make old old_first r m))
  samples_rounds old old_first times =
      let total : 0 + length times ≡ length times = omega arith in
      rw total at (samples-Fits 0 times _ (start-IsAt old old_first))

  -- With at least one message in a round and a limit `r` on the rounds such that r + 1 does not wrap,
  -- the process has ended once (r + 1) * (m + 1) samples have arrived: exactly with the last of these,
  -- in round r + 1.
  pub samples_stop :
      (old old_first : Timespec) (times : List Timespec)
      → (r + 1) * (m + 1) ≤ length times
      → (s : Stats) × (samples 0 times (z_stats_make old old_first r m)
          ≡ stopped ((r + 1) * (m + 1)) s)
        × (s.finished_rounds ≡ r + 1)
  samples_stop old old_first times enough =
      go (samples 0 times (z_stats_make old old_first r m)) refl
        (samples_rounds old old_first times)
    where
      go :
          (f : Fate)
          → samples 0 times (z_stats_make old old_first r m) ≡ f
          → Fits (length times) f
          → (s : Stats) × (samples 0 times (z_stats_make old old_first r m)
              ≡ stopped ((r + 1) * (m + 1)) s)
            × (s.finished_rounds ≡ r + 1)
      go (running s) e fits = absurd (
          too_many r m s.finished_rounds s.count (length times) fits.rounds_le fits.count_le
            fits.samples_are enough)
      go (stopped n s) e (done, n_is, _) = (s, rw (← n_is) e, done)

  -- With at least one message in a round and limits that do not wrap, while the process runs and fewer
  -- than 2 ^ 64 samples have arrived, the number that `drop_stats` prints as received falls short of the
  -- number of samples by one for each finished round.
  pub received_short :
      (old old_first : Timespec) (times : List Timespec) (s : Stats)
      → samples 0 times (z_stats_make old old_first r m) ≡ running s
      → length times < 2 ^ 64
      → received s + s.finished_rounds ≡ length times
  unfolding received
  received_short old old_first times s e small =
      let fits : IsAt r m (length times) s =
        subst (Fits (length times)) e (samples_rounds old old_first times) in
      rw fits.messages_is (omega arith)
