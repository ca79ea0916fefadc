-- ===== src/Examples/Delete.antt =====
-- examples/z_delete.c
pub mod Ownership
use zenoh_flat_c.Base.{[], ◌∷◌, ◌++◌, if◌then◌else◌}
use zenoh_flat_c.Base.Int.{pos}
use zenoh_flat_c.Base.Text.{Str, codes}
use zenoh_flat_c.Process.{Cmd, pure, ◌>>=◌, ◌>>◌}
use zenoh_flat_c.Args.{check_help}
use zenoh_flat_c.Config.{ConfigApi, parse_zenoh_common_args}
use zenoh_flat_c.Trace.{
  Trace, calls, prints, returns, session, ke, z_session_delete, z_keyexpr_drop, z_session_drop,
}
use zenoh_flat_c.Examples.{
  text_arg, reject_unknown, reject_positional, Answers, open_session, make_keyexpr,
}

pub record DeleteArgs : Type 0 where
  pub keyexpr : Str

abbrev pub default_keyexpr : Str
default_keyexpr = codes "demo/example/zenoh-c-put"

unfoldable pub parse_args : (api : ConfigApi) → Cmd (DeleteArgs × api.Config)
parse_args api = do
  check_help
  keyexpr ← text_arg (codes "k") (codes "key") default_keyexpr
  config ← parse_zenoh_common_args api
  reject_unknown
  reject_positional
  pure (record { keyexpr = keyexpr }, config)

abbrev delete_matching : Answers → Trace
delete_matching answers =
    calls (z_session_delete session ke answers.succeeds)
    ∷ ((if answers.succeeds then [] else prints (codes "Delete failed...\n") ∷ [])
        ++ (calls (z_keyexpr_drop ke) ∷ calls (z_session_drop session) ∷ returns (pos 0) ∷ []))

-- `main` after `parse_args`.
unfoldable pub main : Answers → DeleteArgs → Trace
main answers args =
    prints (codes "Opening session...\n")
    ∷ open_session answers (
        prints (codes "Deleting resources matching '" ++ (args.keyexpr ++ codes "'...\n"))
        ∷ make_keyexpr answers args.keyexpr (delete_matching answers))
