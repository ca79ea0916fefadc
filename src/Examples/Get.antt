-- ===== src/Examples/Get.antt =====
-- examples/z_get.c; the wait for the end of the replies is in Get/Completion.antt.
pub mod Effect
pub mod Ownership
pub mod Completion
pub mod Selector
pub mod CommandLine
use zenoh_flat_c.Base.{ℕ, Option, none, some, List, [], ◌∷◌, ◌++◌, if◌then◌else◌}
use zenoh_flat_c.Base.Int.{pos, to_unsigned, to_signed}
use zenoh_flat_c.Base.Text.{Str, codes, atoi, split_char}
use zenoh_flat_c.Enums.{QueryTarget, best_matching}
use zenoh_flat_c.Process.{Cmd, pure, ◌>>=◌, ◌>>◌}
use zenoh_flat_c.Args.{check_help, parse_arg}
use zenoh_flat_c.Config.{ConfigApi, parse_zenoh_common_args, parse_query_target}
use zenoh_flat_c.Api.Sample.{z_sample_key_expr, z_sample_payload}
use zenoh_flat_c.Api.Reply.{z_reply_sample}
use zenoh_flat_c.Trace.{
  whole, part, Handle, Trace, calls, prints, sleeps, returns, session, ke, payload, argument,
  keyexpr_text, payload_bytes, z_keyexpr_to_string, z_zbytes_to_bytes, z_zbytes_from_slice,
  z_session_get, z_keyexpr_drop, z_session_drop, z_free,
}
use zenoh_flat_c.Examples.{
  text_arg, optional_arg, reject_unknown, reject_positional, Answers, open_session, make_keyexpr,
}
use zenoh_flat_c.Examples.Sub.{printed_bytes}

pub record GetArgs : Type 0 where
  pub selector : Str
  pub value : Option Str
  pub target : QueryTarget
  pub timeout_ms : ℕ

abbrev pub default_selector : Str
default_selector = codes "demo/example/**"

abbrev pub default_timeout_ms : ℕ
default_timeout_ms = 10000

-- An `int` from `atoi` is stored in a `uint64_t`.
unfoldable pub parse_args : (api : ConfigApi) → Cmd (GetArgs × api.Config)
parse_args api = do
  check_help
  selector ← text_arg (codes "s") (codes "selector") default_selector
  value ← optional_arg (codes "p") (codes "payload")
  timeout_ms ←
      parse_arg (codes "o") (codes "timeout") (λ v. pure (to_unsigned 64 (atoi v)))
        default_timeout_ms
  target ← parse_arg (codes "t") (codes "target") parse_query_target best_matching
  config ← parse_zenoh_common_args api
  reject_unknown
  reject_positional
  pure (
    record { selector = selector; value = value; target = target; timeout_ms = timeout_ms },
    config,
  )

pub data Reply : Type 0 where
  reply_ok : Str → List ℕ → Reply
  reply_error : Reply

-- The handler of a reply, which stays owned by the caller.
unfoldable pub reply_handler : Reply → Trace
reply_handler (reply_ok keyexpr bytes) =
    calls (
      z_keyexpr_to_string (part z_sample_key_expr (part z_reply_sample (whole argument)))
        keyexpr_text)
    ∷ calls (
        z_zbytes_to_bytes (part z_sample_payload (part z_reply_sample (whole argument)))
          payload_bytes)
    ∷ prints (
        codes ">> Received ('"
        ++ (keyexpr ++ (codes "': '" ++ (printed_bytes bytes ++ codes "')\n"))))
    ∷ calls (z_free keyexpr_text)
    ∷ calls (z_free payload_bytes)
    ∷ []
reply_handler reply_error = prints (codes ">> Received an error\n") ∷ []

-- The selector is cut in place at its first `?`: what `args.selector` and `ke_str` read after that,
-- and the parameters behind it.
unfoldable pub split_selector : Str → Str × Option Str
split_selector selector = elim (split_char b'?' selector) [
  | none ↦ (selector, none)
  | some (key, params) ↦ (key, some params)
]

abbrev make_payload : Option Str → Trace → Trace
make_payload none rest = rest
make_payload (some text) rest = calls (z_zbytes_from_slice text payload) ∷ rest

abbrev payload_handle : Option Str → Option Handle
payload_handle none = none
payload_handle (some _) = some payload

abbrev query : Answers → GetArgs → Str → Option Str → Trace
query answers args ke_str params = make_payload args.value (
    prints (codes "Sending Query '" ++ (ke_str ++ codes "'...\n"))
    ∷ calls (
        z_session_get session ke params (to_signed 64 args.timeout_ms) args.target
          (payload_handle args.value) answers.succeeds)
    ∷ calls (z_keyexpr_drop ke)
    ∷ (if answers.succeeds then sleeps else prints (codes "Get failed...\n"))
    ∷ calls (z_session_drop session)
    ∷ returns (pos 0)
    ∷ [])

-- `main` after `parse_args`. The wait is one event.
unfoldable pub main : Answers → GetArgs → Trace
main answers args =
    let (ke_str, params) = split_selector args.selector in
    prints (codes "Opening session...\n")
    ∷ open_session answers (make_keyexpr answers ke_str (query answers args ke_str params))
