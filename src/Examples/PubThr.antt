-- ===== src/Examples/PubThr.antt =====
-- examples/z_pub_thr.c
pub mod Effect
pub mod Fill
pub mod Ownership
pub mod Size
use zenoh_flat_c.Base.{
  ℕ, zero, suc, ◌+◌, ◌%◌, Bool, true, false, Option, none, some, List, [], ◌∷◌, ◌++◌, if◌then◌else◌,
}
use zenoh_flat_c.Base.Int.{to_unsigned}
use zenoh_flat_c.Base.Text.{Str, codes, atoi}
use zenoh_flat_c.Enums.{Priority, data_normal, block}
use zenoh_flat_c.Process.{
  Block, Argv, complaint, Cmd, pure, exit_with, ◌>>=◌, ◌>>◌, free as free_block,
}
use zenoh_flat_c.Args.{check_help, check_flag, parse_arg, parse_pos_args}
use zenoh_flat_c.Config.{ConfigApi, parse_zenoh_common_args, parse_priority}
use zenoh_flat_c.Trace.{
  Trace, calls, prints, returns, config, session, ke, payload, to_send, publisher, value_buffer,
  malloc, free, z_open, z_keyexpr_try_from, z_session_declare_publisher, z_session_drop,
  z_zbytes_from_slice, z_zbytes_clone, z_publisher_put,
}
use zenoh_flat_c.Examples.{reject_unknown, Answers, failed}

pub record PubThrArgs : Type 0 where
  pub size : ℕ
  pub priority : Priority
  pub express : Bool

-- The payload size from the positional arguments: an `int` from `atoi`, stored in an `unsigned int`.
unfoldable pub size_argument : Option (Block × Argv) → Cmd ℕ
size_argument none = exit_with (complaint (codes "Unexpected additional positional arguments\n"))
size_argument (some (b, [])) = do
  free_block b
  exit_with (complaint (codes "<PAYLOAD_SIZE> argument is required\n"))
size_argument (some (b, none ∷ _)) = do
  free_block b
  exit_with (complaint (codes "<PAYLOAD_SIZE> argument is required\n"))
size_argument (some (b, some text ∷ _)) = do free_block b; pure (to_unsigned 32 (atoi text))

abbrev pub default_priority : Priority
default_priority = data_normal

unfoldable pub parse_args : (api : ConfigApi) → Cmd (PubThrArgs × api.Config)
parse_args api = do
  check_help
  priority ← parse_arg (codes "p") (codes "priority") parse_priority default_priority
  express ← check_flag (codes "express")
  config ← parse_zenoh_common_args api
  reject_unknown
  pos_args ← parse_pos_args 1
  size ← size_argument pos_args
  pure (record { size = size; priority = priority; express = express }, config)

-- `value[i] = i % 10`, for the rounds that are left.
unfoldable pub fill : ℕ → ℕ → List ℕ
fill i zero = []
fill i (suc rounds) = (i % 10) ∷ fill (i + 1) rounds

-- The first rounds of the loop, which has no end.
unfoldable pub put_rounds : ℕ → Trace
put_rounds zero = []
put_rounds (suc rounds) =
    calls (z_zbytes_clone payload to_send)
    ∷ calls (z_publisher_put publisher to_send none)
    ∷ put_rounds rounds

abbrev publish : Answers → PubThrArgs → ℕ → Trace
publish answers args rounds =
    calls (
      z_session_declare_publisher session ke (some (block, args.priority, args.express)) publisher
        answers.declares)
    ∷ (if answers.declares
        then calls (z_zbytes_from_slice (fill 0 args.size) payload)
          ∷ prints (codes "Press CTRL-C to quit...\n")
          ∷ put_rounds rounds
        else prints (codes "Unable to declare publisher for key expression!\n")
          ∷ calls (z_session_drop session)
          ∷ calls (free value_buffer)
          ∷ returns failed
          ∷ [])

-- `main` after `parse_args`, up to the given number of rounds of its loop. The key expression is not
-- tested for NULL.
unfoldable pub main : Answers → PubThrArgs → ℕ → Trace
main answers args rounds =
    calls (malloc value_buffer)
    ∷ calls (z_open config session answers.opens)
    ∷ (if answers.opens
        then calls
            (z_keyexpr_try_from (codes "test/thr") ke (answers.is_keyexpr (codes "test/thr")))
          ∷ publish answers args rounds
        else prints (codes "Unable to open session!\n")
          ∷ calls (free value_buffer)
          ∷ returns failed
          ∷ [])
