-- ===== src/Examples/SubThr/Report/Dropped.antt =====
-- What `drop_stats` of examples/z_sub_thr.c reports.
use zenoh_flat_c.Base.{ℕ, suc, ◌-◌, ◌^◌, ◌<◌, ◌≡◌, refl, List, [], ◌∷◌, arith, length, some}
use zenoh_flat_c.Base.Double.{Double}
use zenoh_flat_c.Trace.{calls, prints, context, free}
use zenoh_flat_c.Trace.Ledger.{ledger}
use zenoh_flat_c.Examples.SubThr.{Timespec, Stats, z_stats_make, received}
use zenoh_flat_c.Examples.SubThr.Rounds.{samples, running, Limits}
use zenoh_flat_c.Examples.SubThr.Ending.{received_short}
use zenoh_flat_c.Examples.SubThr.FirstStart.{first_start_kept}
use zenoh_flat_c.Examples.SubThr.Report.{elapsed_s, report, drop_stats}

received-minus :
    (r m : ℕ) (limits : Limits r m) (old old_first : Timespec) (times : List Timespec) (s : Stats)
    → samples 0 times (z_stats_make old old_first r m) ≡ running s
    → length times < 2 ^ 64
    → received s ≡ length times - s.finished_rounds
received-minus r m limits old old_first times s run small =
    let short = received_short r m limits old old_first times s run small in omega arith

-- While z_sub_thr runs, with at least one message in a round, limits that do not wrap, and at least one
-- and fewer than 2 ^ 64 samples received: whatever the memory held before, `drop_stats` prints the
-- number of samples less one for each finished round, over the seconds since the very first sample,
-- and frees the counters, which then are not owned any more.
pub drop_stats_reports :
    {W : Type 0} (d : Double W) (r m : ℕ) (limits : Limits r m) (old old_first first now : Timespec)
    (times : List Timespec) (s : Stats)
    → samples 0 (first ∷ times) (z_stats_make old old_first r m) ≡ running s
    → suc (length times) < 2 ^ 64
    → (drop_stats d now s ≡ (
        prints (report d (suc (length times) - s.finished_rounds) (elapsed_s d first now))
        ∷ calls (free context)
        ∷ []))
      × (ledger (drop_stats d now s) (context ∷ []) ≡ some [])
unfolding drop_stats ledger
drop_stats_reports d r m limits old old_first first now times s run small =
    let count = received-minus r m limits old old_first (first ∷ times) s run small in
    let (_, kept) = first_start_kept old old_first first times r m s run in
    (rw (count, kept) refl, refl)
