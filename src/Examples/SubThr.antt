-- ===== src/Examples/SubThr.antt =====
-- examples/z_sub_thr.c
pub mod Rounds
pub mod Ending
pub mod FirstStart
pub mod Report
pub mod Ownership
use zenoh_flat_c.Base.{
  ℕ, zero, suc, ◌+◌, ◌*◌, ◌%◌, ◌^◌, Bool, true, false, List, [], ◌∷◌, ltb, ◌==◌, if◌then◌else◌,
}
use zenoh_flat_c.Base.Int.{to_unsigned}
use zenoh_flat_c.Base.Text.{Str, codes, atoi}
use zenoh_flat_c.Process.{Cmd, pure, ◌>>=◌, ◌>>◌}
use zenoh_flat_c.Args.{check_help, parse_arg}
use zenoh_flat_c.Config.{ConfigApi, parse_zenoh_common_args}
use zenoh_flat_c.Trace.{
  Trace, calls, prints, returns, config, session, ke, subscriber, context, malloc, z_open,
  z_keyexpr_try_from, z_session_declare_subscriber, z_session_drop,
}
use zenoh_flat_c.Examples.{reject_unknown, reject_positional, Answers, failed}
use zenoh_flat_c.Examples.Sub.{idle}

pub record SubThrArgs : Type 0 where
  pub samples : ℕ
  pub num_messages : ℕ

abbrev pub default_measurements : ℕ
default_measurements = 10

abbrev pub default_messages : ℕ
default_messages = 1000000

-- An `int` from `atoi` is stored in an `unsigned long` of 64 bits.
unfoldable pub parse_args : (api : ConfigApi) → Cmd (SubThrArgs × api.Config)
parse_args api = do
  check_help
  samples ←
      parse_arg (codes "s") (codes "samples") (λ v. pure (to_unsigned 64 (atoi v)))
        default_measurements
  num_messages ←
      parse_arg (codes "n") (codes "number") (λ v. pure (to_unsigned 64 (atoi v))) default_messages
  config ← parse_zenoh_common_args api
  reject_unknown
  reject_positional
  pure (record { samples = samples; num_messages = num_messages }, config)

-- A reading of the monotonic clock: seconds and nanoseconds.
pub record Timespec : Type 0 where
  pub tv_sec : ℕ
  pub tv_nsec : ℕ

-- Before the first sample `start` and `first_start` are whatever the memory held.
pub record Stats : Type 0 where
  pub count : ℕ
  pub finished_rounds : ℕ
  pub start : Timespec
  pub first_start : Timespec
  pub started : Bool
  pub max_rounds : ℕ
  pub messages_per_round : ℕ

unfoldable pub z_stats_make : Timespec → Timespec → ℕ → ℕ → Stats
z_stats_make old_start old_first_start max_rounds messages_per_round = record {
  count = 0;
  finished_rounds = 0;
  start = old_start;
  first_start = old_first_start;
  started = false;
  max_rounds = max_rounds;
  messages_per_round = messages_per_round;
}

-- What a call of `on_sample` does besides: nothing, or the printing of a rate, and then perhaps the
-- end of the process.
pub data Action : Type 0 where
  silent : Action
  reports : Action
  reports_and_exits : Action

abbrev pub first_of_round : Stats → Timespec → Stats
first_of_round stats now = record stats {
  start = now;
  first_start = if stats.started then stats.first_start else now;
  started = true;
  count = stats.count + 1;
}

abbrev pub end_of_round : Stats → Stats
end_of_round stats = record stats {
  finished_rounds = (stats.finished_rounds + 1) % 2 ^ 64;
  count = 0;
}

-- `now` is what the clock reads, if it is read.
unfoldable pub on_sample : Timespec → Stats → Stats × Action
on_sample now stats =
    if stats.count == 0
    then (first_of_round stats now, silent)
    else if ltb stats.count stats.messages_per_round
    then (record stats { count = stats.count + 1 }, silent)
    else (
      end_of_round stats,
      if ltb stats.max_rounds ((stats.finished_rounds + 1) % 2 ^ 64)
          then reports_and_exits
          else reports,
    )

-- The number that `drop_stats` prints as received.
unfoldable pub received : Stats → ℕ
received stats = (stats.messages_per_round * stats.finished_rounds + stats.count) % 2 ^ 64

abbrev subscribe : Answers → ℕ → Trace
subscribe answers rounds =
    calls (z_session_declare_subscriber session ke (context ∷ []) subscriber answers.declares)
    ∷ (if answers.declares
        then prints (codes "Press CTRL-C to quit...\n") ∷ idle rounds
        else prints (codes "Unable to create subscriber.\n")
          ∷ calls (z_session_drop session)
          ∷ returns failed
          ∷ [])

-- `main` after `parse_args`, up to the given number of rounds of its loop. The key expression is not
-- tested for NULL, and `z_stats_make` allocates the context.
unfoldable pub main : Answers → SubThrArgs → ℕ → Trace
main answers args rounds =
    calls (z_open config session answers.opens)
    ∷ (if answers.opens
        then calls
            (z_keyexpr_try_from (codes "test/thr") ke (answers.is_keyexpr (codes "test/thr")))
          ∷ calls (malloc context)
          ∷ subscribe answers rounds
        else prints (codes "Unable to open session!\n") ∷ returns failed ∷ [])
