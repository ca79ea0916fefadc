-- ===== src/Examples/SubThr/Report.antt =====
-- examples/z_sub_thr.c: the times that it measures, the rates that it prints, and `drop_stats`.
pub mod Elapsed
pub mod Dropped
pub mod Measured
use zenoh_flat_c.Base.{ℕ, suc, ◌*◌, List, [], ◌∷◌, ◌++◌, if◌then◌else◌}
use zenoh_flat_c.Base.Int.{ℤ, pos, negsuc, difference, to_signed}
use zenoh_flat_c.Base.Text.{Str, codes}
use zenoh_flat_c.Base.Decimal.{decimal}
use zenoh_flat_c.Base.Double.{Double, number}
use zenoh_flat_c.Trace.{Trace, calls, prints, context, free}
use zenoh_flat_c.Examples.SubThr.{
  Timespec, Stats, Action, silent, reports, reports_and_exits, received,
}

-- `%ld`
abbrev pub signed_decimal : ℤ → Str
signed_decimal (pos n) = decimal n
signed_decimal (negsuc n) = b'-' ∷ decimal (suc n)

module _ {W : Type 0} (d : Double W) where
  -- `now` is what the clock reads.
  unfoldable pub elapsed_ms : Timespec → Timespec → W
  elapsed_ms from now =
      d.sum (d.product (d.of_integer (difference now.tv_sec from.tv_sec)) (number d 1000))
        (d.quotient (d.of_integer (difference now.tv_nsec from.tv_nsec)) (number d 1000000))

  unfoldable pub elapsed_s : Timespec → Timespec → W
  elapsed_s from now =
      d.sum (d.of_integer (difference now.tv_sec from.tv_sec))
        (d.quotient (d.of_integer (difference now.tv_nsec from.tv_nsec)) (number d 1000000000))

  -- What `on_sample` prints at the end of a round.
  unfoldable pub round_rate : Timespec → Stats → Str
  round_rate now stats =
      d.format (
        d.quotient (d.product (number d 1000) (number d stats.messages_per_round))
          (elapsed_ms stats.start now))
      ++ codes " msg/s\n"

  -- What `on_sample` prints with its action; `now` is the clock at the printing.
  unfoldable pub printed : Timespec → Stats → Action → Trace
  printed now stats silent = []
  printed now stats reports = prints (round_rate now stats) ∷ []
  printed now stats reports_and_exits = prints (round_rate now stats) ∷ []

  unfoldable pub average : ℕ → W → W
  average n secs = if d.gt secs (number d 0) then d.quotient (number d n) secs else number d 0

  unfoldable pub report : ℕ → W → Str
  report n secs =
      codes "Stats being dropped after unsubscribing: received "
      ++ (signed_decimal (to_signed 64 n)
          ++ (codes " messages over "
              ++ (d.format secs
                  ++ (codes " seconds (" ++ (d.format (average n secs) ++ codes " msg/s)\n")))))

  -- The closure's context is freed with it.
  unfoldable pub drop_stats : Timespec → Stats → Trace
  drop_stats now stats =
      prints (report (received stats) (elapsed_s stats.first_start now)) ∷ calls (free context) ∷ []
