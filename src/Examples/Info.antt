-- ===== src/Examples/Info.antt =====
-- examples/z_info.c
pub mod Ownership
use zenoh_flat_c.Base.{List, [], ◌∷◌, ◌++◌}
use zenoh_flat_c.Base.Int.{pos}
use zenoh_flat_c.Base.Text.{Str, codes}
use zenoh_flat_c.Process.{Cmd, pure, ◌>>=◌, ◌>>◌}
use zenoh_flat_c.Args.{check_help}
use zenoh_flat_c.Config.{ConfigApi, parse_zenoh_common_args}
use zenoh_flat_c.Trace.{
  Handle, Trace, calls, prints, returns, session, zid_text, zid_array, z_session_zid,
  z_zenoh_id_to_string, z_session_routers_zid, z_session_peers_zid, z_free, z_session_drop,
}
use zenoh_flat_c.Examples.{reject_unknown, reject_positional, Answers, open_session}

unfoldable pub parse_args : (api : ConfigApi) → Cmd api.Config
parse_args api = do
  check_help
  config ← parse_zenoh_common_args api
  reject_unknown
  reject_positional
  pure config

-- An identifier is given by the text that `z_zenoh_id_to_string` makes of it.
unfoldable pub print_zid : Str → Trace → Trace
print_zid zid rest =
    calls (z_zenoh_id_to_string zid_text)
    ∷ prints (zid ++ codes "\n")
    ∷ calls (z_free zid_text)
    ∷ rest

-- The loop of `print_zid_array`.
unfoldable pub print_zids : List Str → Trace → Trace
print_zids [] rest = rest
print_zids (zid ∷ zids) rest = prints (codes "  ") ∷ print_zid zid (print_zids zids rest)

unfoldable pub print_zid_array : Str → List Str → Trace → Trace
print_zid_array label zids rest =
    prints (label ++ codes ":\n") ∷ print_zids zids (calls (z_free zid_array) ∷ rest)

-- `main` after `parse_args`, for the identifiers that the session gives.
unfoldable pub main : Answers → Str → List Str → List Str → Trace
main answers own routers peers =
    prints (codes "Opening session...\n")
    ∷ open_session answers (
        calls (z_session_zid session)
        ∷ prints (codes "own id: ")
        ∷ print_zid own (
            calls (z_session_routers_zid session zid_array)
            ∷ print_zid_array (codes "routers ids") routers (
                calls (z_session_peers_zid session zid_array)
                ∷ print_zid_array (codes "peers ids") peers
                    (calls (z_session_drop session) ∷ returns (pos 0) ∷ []))))
