-- ===== src/Examples/Pub.antt =====
-- examples/z_pub.c
pub mod Effect
pub mod Ownership
pub mod Payload
use zenoh_flat_c.Base.{
  ◌%◌, ◌^◌, ℕ, zero, suc, ◌+◌, Bool, true, false, Option, none, some, List, [], ◌∷◌, ◌++◌,
  if◌then◌else◌,
}
use zenoh_flat_c.Base.Text.{Str, codes, snprintf}
use zenoh_flat_c.Base.Decimal.{decimal4_int}
use zenoh_flat_c.Base.Int.{to_signed}
use zenoh_flat_c.Process.{Cmd, pure, ◌>>=◌, ◌>>◌}
use zenoh_flat_c.Args.{check_help, check_flag}
use zenoh_flat_c.Config.{ConfigApi, parse_zenoh_common_args}
use zenoh_flat_c.Trace.{
  Handle, Trace, calls, prints, sleeps, returns, session, ke, payload, attachment, publisher,
  z_zbytes_from_slice, z_session_declare_publisher, z_publisher_put, z_session_drop,
}
use zenoh_flat_c.Examples.{
  text_arg, optional_arg, reject_unknown, reject_positional, Answers, failed, open_session,
  make_keyexpr,
}

pub record PubArgs : Type 0 where
  pub keyexpr : Str
  pub value : Str
  pub attachment_text : Option Str
  pub add_matching_listener : Bool

abbrev pub default_keyexpr : Str
default_keyexpr = codes "demo/example/zenoh-c-pub"

abbrev pub default_value : Str
default_value = codes "Pub from C!"

unfoldable pub parse_args : (api : ConfigApi) → Cmd (PubArgs × api.Config)
parse_args api = do
  check_help
  keyexpr ← text_arg (codes "k") (codes "key") default_keyexpr
  value ← text_arg (codes "p") (codes "payload") default_value
  attachment_text ← optional_arg (codes "a") (codes "attach")
  add_matching_listener ← check_flag (codes "add-matching-listener")
  config ← parse_zenoh_common_args api
  reject_unknown
  reject_positional
  pure (
    record {
      keyexpr = keyexpr;
      value = value;
      attachment_text = attachment_text;
      add_matching_listener = add_matching_listener;
    },
    config,
  )

-- `snprintf(buf, sizeof(buf), "[%4d] %s", idx, args.value)`, where `idx` is given by its 32 bits.
unfoldable pub message : ℕ → Str → Str
message idx value = snprintf 256 (b'[' ∷ (decimal4_int (to_signed 32 idx) ++ (b']' ∷ b' ' ∷ value)))

abbrev attach : Option Str → Trace → Trace
attach none rest = rest
attach (some text) rest = calls (z_zbytes_from_slice text attachment) ∷ rest

abbrev given : Option Str → Option Handle
given none = none
given (some _) = some attachment

-- One round of the loop, in front of the rounds that follow.
unfoldable pub put_round : PubArgs → ℕ → Trace → Trace
put_round args idx rest =
    sleeps
    ∷ prints (
        codes "Putting Data ('"
        ++ (args.keyexpr ++ (codes "': '" ++ (message idx args.value ++ codes "')...\n"))))
    ∷ calls (z_zbytes_from_slice (message idx args.value) payload)
    ∷ attach args.attachment_text
        (calls (z_publisher_put publisher payload (given args.attachment_text)) ∷ rest)

-- The first rounds of the loop, which has no end; `idx` is an `int` that wraps around.
unfoldable pub put_rounds : PubArgs → ℕ → ℕ → Trace
put_rounds args idx zero = []
put_rounds args idx (suc rounds) = put_round args idx (put_rounds args ((idx + 1) % 2 ^ 32) rounds)

abbrev publish : Answers → PubArgs → ℕ → Trace
publish answers args rounds =
    calls (z_session_declare_publisher session ke none publisher answers.declares)
    ∷ (if answers.declares
        then (if args.add_matching_listener
            then prints (
                codes
                  "Warning: --add-matching-listener is not supported by zenoh-flat-c yet and will be ignored.\n")
              ∷ prints (codes "Press CTRL-C to quit...\n")
              ∷ put_rounds args 0 rounds
            else prints (codes "Press CTRL-C to quit...\n") ∷ put_rounds args 0 rounds)
        else prints (codes "Unable to declare Publisher for key expression!\n")
          ∷ calls (z_session_drop session)
          ∷ returns failed
          ∷ [])

-- `main` after `parse_args`, up to the given number of rounds of its loop.
unfoldable pub main : Answers → PubArgs → ℕ → Trace
main answers args rounds =
    prints (codes "Opening session...\n")
    ∷ open_session answers (
        prints (codes "Declaring Publisher on '" ++ (args.keyexpr ++ codes "'...\n"))
        ∷ make_keyexpr answers args.keyexpr (publish answers args rounds))
