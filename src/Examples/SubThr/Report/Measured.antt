-- ===== src/Examples/SubThr/Report/Measured.antt =====
-- How many rates examples/z_sub_thr.c prints.
use zenoh_flat_c.Base.{
  ℕ, ◌+◌, ◌*◌, ◌%◌, ◌^◌, ◌≤◌, ◌≡◌, refl, List, [], ◌∷◌, ◌++◌, arith, length, length-append, Bool,
  true, false, ltb, ◌==◌, Bool-cases, inl, inr, if◌then◌else◌,
}
use zenoh_flat_c.Base.Double.{Double}
use zenoh_flat_c.Trace.{Trace}
use zenoh_flat_c.Examples.SubThr.{
  Timespec, Stats, Action, silent, reports, reports_and_exits, on_sample, z_stats_make,
}
use zenoh_flat_c.Examples.SubThr.Rounds.{
  Fate, running, stopped, samples, Limits, IsAt, Next, on_sample-Next,
}
use zenoh_flat_c.Examples.SubThr.Ending.{start-IsAt, samples_stop}
use zenoh_flat_c.Examples.SubThr.Report.{printed}

-- The counters at the end, whether the process runs on or has ended.
abbrev pub stats_of : Fate → Stats
stats_of (running s) = s
stats_of (stopped n s) = s

module _ {W : Type 0} (d : Double W) where
  abbrev continued : Action → Trace → Trace
  continued silent rest = rest
  continued reports rest = rest
  continued reports_and_exits rest = []

  -- What the samples make the process print; `later` is the clock when a rate is printed.
  unfoldable pub output : (Timespec → Timespec) → List Timespec → Stats → Trace
  output later [] stats = []
  output later (now ∷ times) stats =
      printed d (later now) stats (on_sample now stats).1
      ++ continued (on_sample now stats).1 (output later times (on_sample now stats).0)

  one_line :
      (r m n : ℕ) (t now : Timespec) (s : Stats)
      → Limits r m
      → IsAt r m n s
      → length (printed d t s (on_sample now s).1) + s.finished_rounds
        ≡ (on_sample now s).0.finished_rounds
  unfolding printed on_sample
  one_line r m n t now s limits at = elim (Bool-cases (s.count == 0)) [
    | inl e ↦ rw (e, on_sample) (omega arith)
    | inr e ↦ elim (Bool-cases (ltb s.count s.messages_per_round)) [
      | inl f ↦ rw (e, on_sample, f) (omega arith)
      | inr f ↦ rw (e, on_sample, f, wrap) (ended (ltb s.max_rounds (s.finished_rounds + 1)))
    ]
  ]
    where
      wrap : (s.finished_rounds + 1) % 2 ^ 64 ≡ s.finished_rounds + 1
      wrap = let h = limits.no_wrap in let k = at.rounds_le in omega arith

      ended :
          (b : Bool)
          → length (printed d t s (if b then reports_and_exits else reports)) + s.finished_rounds
            ≡ s.finished_rounds + 1
      ended true = omega arith
      ended false = omega arith

  length-output :
      (r m n : ℕ) (later : Timespec → Timespec) (times : List Timespec) (s : Stats)
      → Limits r m
      → IsAt r m n s
      → length (output later times s) + s.finished_rounds
        ≡ (stats_of (samples n times s)).finished_rounds
  unfolding output samples
  length-output r m n later [] s limits at = omega arith
  length-output r m n later (now ∷ times) s limits at =
      go (on_sample now s) refl (on_sample-Next r m limits n now s at)
        (one_line r m n (later now) now s limits at)
        (λ q h. length-output r m (n + 1) later times q limits h)
    where
      go :
          (p : Stats × Action)
          → on_sample now s ≡ p
          → Next r m (n + 1) p
          → length (printed d (later now) s (on_sample now s).1) + s.finished_rounds
            ≡ (on_sample now s).0.finished_rounds
          → ((q : Stats)
              → IsAt r m (n + 1) q
              → length (output later times q) + q.finished_rounds
                ≡ (stats_of (samples (n + 1) times q)).finished_rounds)
          → length (output later (now ∷ times) s) + s.finished_rounds
            ≡ (stats_of (samples n (now ∷ times) s)).finished_rounds
      go (q, silent) e h line rec =
          let one = rw e at line in
          rw (output, samples, e)
            (omega (
              arith,
              rec q h,
              one,
              length-append (printed d (later now) s silent) (output later times q),
            ))
      go (q, reports) e h line rec =
          let one = rw e at line in
          rw (output, samples, e)
            (omega (
              arith,
              rec q h,
              one,
              length-append (printed d (later now) s reports) (output later times q),
            ))
      go (q, reports_and_exits) e h line rec =
          let one = rw e at line in
          rw (output, samples, e)
            (omega (arith, one, length-append (printed d (later now) s reports_and_exits) []))

  -- With at least one message in a round and a limit `r` on the rounds such that r + 1 does not wrap,
  -- z_sub_thr ends exactly with the sample (r + 1) * (m + 1), if that many arrive, in round r + 1, and it
  -- has printed exactly r + 1 rates by then and prints none later, whatever the clock reads.
  pub measurements_printed :
      (r m : ℕ) (limits : Limits r m) (old old_first : Timespec) (later : Timespec → Timespec)
      (times : List Timespec)
      → (r + 1) * (m + 1) ≤ length times
      → ((s : Stats) × (samples 0 times (z_stats_make old old_first r m)
            ≡ stopped ((r + 1) * (m + 1)) s)
          × (s.finished_rounds ≡ r + 1))
        × (length (output later times (z_stats_make old old_first r m)) ≡ r + 1)
  unfolding z_stats_make
  measurements_printed r m limits old old_first later times enough =
      let end = samples_stop r m limits old old_first times enough in
      let (s, e, done) = end in
      let lines =
        length-output r m 0 later times (z_stats_make old old_first r m) limits
          (start-IsAt r m limits old old_first) in
      let counted = rw e at lines in (end, omega arith)
