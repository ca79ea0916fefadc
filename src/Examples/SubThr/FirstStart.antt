-- ===== src/Examples/SubThr/FirstStart.antt =====
-- The time from which examples/z_sub_thr.c measures.
use zenoh_flat_c.Base.{ℕ, ◌+◌, ◌≡◌, refl, inl, inr, true, List, [], ◌∷◌, ltb, ◌==◌, Bool-cases}
use zenoh_flat_c.Examples.SubThr.{
  Timespec, Stats, Action, silent, reports, reports_and_exits, on_sample, z_stats_make,
  first_of_round,
}
use zenoh_flat_c.Examples.SubThr.Rounds.{Fate, running, stopped, samples}

-- The counters have started, at the given time.
pub record Since (first : Timespec) (s : Stats) : Type 0 where
  pub has_started : s.started ≡ true
  pub start_is : s.first_start ≡ first

abbrev SinceFate : Timespec → Fate → Type 0
SinceFate first (running s) = Since first s
SinceFate first (stopped n s) = Since first s

on_sample-Since :
    (first now : Timespec) (s : Stats) → Since first s → Since first (on_sample now s).0
unfolding on_sample
on_sample-Since first now s h = elim (Bool-cases (s.count == 0)) [
  | inl e ↦
      let st = h.has_started in
      rw (e, on_sample, st) (record { has_started = refl; start_is = h.start_is })
  | inr e ↦ elim (Bool-cases (ltb s.count s.messages_per_round)) [
    | inl f ↦ rw (e, on_sample, f) (record { has_started = h.has_started; start_is = h.start_is })
    | inr f ↦ rw (e, on_sample, f) (record { has_started = h.has_started; start_is = h.start_is })
  ]
]

samples-SinceFate :
    (first : Timespec) (n : ℕ) (times : List Timespec) (s : Stats)
    → Since first s
    → SinceFate first (samples n times s)
unfolding samples
samples-SinceFate first n [] s h = h
samples-SinceFate first n (now ∷ times) s h =
    go (on_sample now s) refl (on_sample-Since first now s h)
      (samples-SinceFate first (n + 1) times)
  where
    go :
        (p : Stats × Action)
        → on_sample now s ≡ p
        → Since first p.0
        → ((q : Stats) → Since first q → SinceFate first (samples (n + 1) times q))
        → SinceFate first (samples n (now ∷ times) s)
    go (q, silent) e k rec = rw (e, samples) (rec q k)
    go (q, reports) e k rec = rw (e, samples) (rec q k)
    go (q, reports_and_exits) e k rec = rw (e, samples) k

-- Whatever the memory held before, while z_sub_thr runs, the time from which `drop_stats` measures is
-- the time of the very first sample, however many rounds have started since.
pub first_start_kept :
    (old old_first now : Timespec) (times : List Timespec) (r m : ℕ) (s : Stats)
    → samples 0 (now ∷ times) (z_stats_make old old_first r m) ≡ running s
    → (s.started ≡ true) × (s.first_start ≡ now)
unfolding samples on_sample z_stats_make
first_start_kept old old_first now times r m s e =
    let since =
      samples-SinceFate now 1 times (first_of_round (z_stats_make old old_first r m) now)
        (record { has_started = refl; start_is = refl }) in
    let h = rw e at since in (h.has_started, h.start_is)
