-- ===== src/Examples/Put.antt =====
-- examples/z_put.c
pub mod CommandLine
pub mod Effect
pub mod Ownership
use zenoh_flat_c.Base.{Bool, [], ◌∷◌, ◌++◌, if◌then◌else◌}
use zenoh_flat_c.Base.Int.{pos}
use zenoh_flat_c.Base.Text.{Str, codes}
use zenoh_flat_c.Process.{Cmd, pure, ◌>>=◌, ◌>>◌}
use zenoh_flat_c.Args.{check_help}
use zenoh_flat_c.Config.{ConfigApi, parse_zenoh_common_args}
use zenoh_flat_c.Trace.{
  Trace, calls, prints, returns, session, ke, payload, z_zbytes_from_slice, z_session_put,
  z_keyexpr_drop, z_session_drop,
}
use zenoh_flat_c.Examples.{
  text_arg, reject_unknown, reject_positional, Answers, open_session, make_keyexpr,
}

pub record PutArgs : Type 0 where
  pub keyexpr : Str
  pub value : Str

abbrev pub default_keyexpr : Str
default_keyexpr = codes "demo/example/zenoh-c-put"

abbrev pub default_value : Str
default_value = codes "Put from C!"

unfoldable pub parse_args : (api : ConfigApi) → Cmd (PutArgs × api.Config)
parse_args api = do
  check_help
  keyexpr ← text_arg (codes "k") (codes "key") default_keyexpr
  value ← text_arg (codes "p") (codes "payload") default_value
  config ← parse_zenoh_common_args api
  reject_unknown
  reject_positional
  pure (record { keyexpr = keyexpr; value = value }, config)

abbrev put_value : Answers → PutArgs → Trace
put_value answers args =
    calls (z_zbytes_from_slice args.value payload)
    ∷ calls (z_session_put session ke payload answers.succeeds)
    ∷ ((if answers.succeeds then [] else prints (codes "Put failed...\n") ∷ [])
        ++ (calls (z_keyexpr_drop ke) ∷ calls (z_session_drop session) ∷ returns (pos 0) ∷ []))

-- `main` after `parse_args`.
unfoldable pub main : Answers → PutArgs → Trace
main answers args =
    prints (codes "Opening session...\n")
    ∷ open_session answers (
        prints (
          codes "Putting Data ('"
          ++ (args.keyexpr ++ (codes "': '" ++ (args.value ++ codes "')...\n"))))
        ∷ make_keyexpr answers args.keyexpr (put_value answers args))
