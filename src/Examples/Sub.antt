-- ===== src/Examples/Sub.antt =====
-- examples/z_sub.c
pub mod Ownership
use zenoh_flat_c.Base.{ℕ, zero, suc, Option, none, some, List, [], ◌∷◌, ◌++◌, ◌==◌, if◌then◌else◌}
use zenoh_flat_c.Base.Text.{Str, codes}
use zenoh_flat_c.Enums.{put, delete, sample_kind_value}
use zenoh_flat_c.Process.{Cmd, pure, ◌>>=◌, ◌>>◌}
use zenoh_flat_c.Args.{check_help}
use zenoh_flat_c.Config.{ConfigApi, parse_zenoh_common_args}
use zenoh_flat_c.Api.Sample.{z_sample_key_expr, z_sample_payload, z_sample_attachment}
use zenoh_flat_c.Trace.{
  whole, part, Trace, calls, prints, sleeps, returns, session, ke, subscriber, argument,
  keyexpr_text, payload_bytes, attachment_bytes, z_keyexpr_to_string, z_zbytes_to_bytes, z_free,
  z_session_declare_subscriber, z_session_drop,
}
use zenoh_flat_c.Examples.{
  text_arg, reject_unknown, reject_positional, Answers, failed, open_session, make_keyexpr,
}

pub record SubArgs : Type 0 where
  pub keyexpr : Str

abbrev pub default_keyexpr : Str
default_keyexpr = codes "demo/example/**"

unfoldable pub parse_args : (api : ConfigApi) → Cmd (SubArgs × api.Config)
parse_args api = do
  check_help
  keyexpr ← text_arg (codes "k") (codes "key") default_keyexpr
  config ← parse_zenoh_common_args api
  reject_unknown
  reject_positional
  pure (record { keyexpr = keyexpr }, config)

-- The kind is any number that the library may give.
unfoldable pub kind_to_str : ℕ → Str
kind_to_str kind =
    if kind == sample_kind_value put
    then codes "PUT"
    else if kind == sample_kind_value delete
    then codes "DELETE"
    else codes "UNKNOWN"

-- `%.*s` of a buffer and its length, below 2 ^ 31: the bytes in front of the first null byte.
unfoldable pub printed_bytes : List ℕ → Str
printed_bytes [] = []
printed_bytes (b ∷ bytes) = let rest = b ∷ printed_bytes bytes in if b == 0 then [] else rest

-- What the accessors give of a sample.
pub record Sample : Type 0 where
  pub key_expr : Str
  pub kind : ℕ
  pub payload : List ℕ
  pub attachment : Option (List ℕ)

abbrev print_attachment : Option (List ℕ) → Trace → Trace
print_attachment none rest = rest
print_attachment (some bytes) rest =
    calls (z_zbytes_to_bytes (part z_sample_attachment (whole argument)) attachment_bytes)
    ∷ prints (codes " (" ++ (printed_bytes bytes ++ codes ")"))
    ∷ calls (z_free attachment_bytes)
    ∷ rest

-- The handler of a sample, which stays owned by the caller.
unfoldable pub data_handler : Sample → Trace
data_handler sample =
    calls (z_keyexpr_to_string (part z_sample_key_expr (whole argument)) keyexpr_text)
    ∷ calls (z_zbytes_to_bytes (part z_sample_payload (whole argument)) payload_bytes)
    ∷ prints (
        codes ">> [Subscriber] Received "
        ++ (kind_to_str sample.kind
            ++ (codes " ('"
                ++ (sample.key_expr
                    ++ (codes "': '" ++ (printed_bytes sample.payload ++ codes "')"))))))
    ∷ print_attachment sample.attachment
        (prints (codes "\n") ∷ calls (z_free keyexpr_text) ∷ calls (z_free payload_bytes) ∷ [])

-- `while (1) sleep(1)`, for some rounds.
unfoldable pub idle : ℕ → Trace
idle zero = []
idle (suc rounds) = sleeps ∷ idle rounds

abbrev subscribe : Answers → ℕ → Trace
subscribe answers rounds =
    calls (z_session_declare_subscriber session ke [] subscriber answers.declares)
    ∷ (if answers.declares
        then prints (codes "Press CTRL-C to quit...\n") ∷ idle rounds
        else prints (codes "Unable to declare subscriber.\n")
          ∷ calls (z_session_drop session)
          ∷ returns failed
          ∷ [])

-- `main` after `parse_args`, up to the given number of rounds of its loop.
unfoldable pub main : Answers → SubArgs → ℕ → Trace
main answers args rounds =
    prints (codes "Opening session...\n")
    ∷ open_session answers (
        make_keyexpr answers args.keyexpr (
          prints (codes "Declaring Subscriber on '" ++ (args.keyexpr ++ codes "'...\n"))
          ∷ subscribe answers rounds))
