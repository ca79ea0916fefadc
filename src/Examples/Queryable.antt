-- ===== src/Examples/Queryable.antt =====
-- examples/z_queryable.c
pub mod Ownership
use zenoh_flat_c.Base.{ℕ, Bool, Option, none, some, List, [], ◌∷◌, ◌++◌, if◌then◌else◌}
use zenoh_flat_c.Base.Text.{Str, codes}
use zenoh_flat_c.Process.{Cmd, pure, ◌>>=◌, ◌>>◌}
use zenoh_flat_c.Args.{check_help, check_flag}
use zenoh_flat_c.Config.{ConfigApi, parse_zenoh_common_args}
use zenoh_flat_c.Api.Query.{z_query_keyexpr, z_query_payload}
use zenoh_flat_c.Trace.{
  whole, part, Trace, calls, prints, returns, session, ke, queryable, argument, keyexpr_text,
  params_text, payload_bytes, payload, z_keyexpr_to_string, z_query_parameters, z_zbytes_to_bytes,
  z_zbytes_from_slice, z_query_reply_success, z_free, z_session_declare_queryable, z_session_drop,
}
use zenoh_flat_c.Examples.{
  text_arg, reject_unknown, reject_positional, Answers, failed, open_session, make_keyexpr,
}
use zenoh_flat_c.Examples.Sub.{printed_bytes, idle}

pub record QueryableArgs : Type 0 where
  pub keyexpr : Str
  pub value : Str
  pub complete : Bool

abbrev pub default_keyexpr : Str
default_keyexpr = codes "demo/example/zenoh-c-queryable"

abbrev pub default_value : Str
default_value = codes "Queryable from C!"

unfoldable pub parse_args : (api : ConfigApi) → Cmd (QueryableArgs × api.Config)
parse_args api = do
  check_help
  keyexpr ← text_arg (codes "k") (codes "key") default_keyexpr
  value ← text_arg (codes "p") (codes "payload") default_value
  complete ← check_flag (codes "complete")
  config ← parse_zenoh_common_args api
  reject_unknown
  reject_positional
  pure (record { keyexpr = keyexpr; value = value; complete = complete }, config)

-- What the accessors give of a query.
pub record Query : Type 0 where
  pub keyexpr : Str
  pub parameters : Str
  pub payload_given : Option (List ℕ)

abbrev selector_of : Query → Str
selector_of query = query.keyexpr ++ (b'?' ∷ query.parameters)

abbrev print_query : Query → Option (List ℕ) → Trace → Trace
print_query query none rest =
    prints (codes ">> [Queryable] Received Query '" ++ (selector_of query ++ codes "'\n")) ∷ rest
print_query query (some bytes) rest =
    calls (z_zbytes_to_bytes (part z_query_payload (whole argument)) payload_bytes)
    ∷ prints (
        codes ">> [Queryable] Received Query '"
        ++ (selector_of query ++ (codes "' with value '" ++ (printed_bytes bytes ++ codes "'\n"))))
    ∷ calls (z_free payload_bytes)
    ∷ rest

-- The handler of a query, which stays owned by the caller; `value` is the context.
unfoldable pub query_handler : Query → Str → Trace
query_handler query value =
    calls (z_keyexpr_to_string (part z_query_keyexpr (whole argument)) keyexpr_text)
    ∷ calls (z_query_parameters argument params_text)
    ∷ print_query query query.payload_given (
        prints (
          codes ">> [Queryable] Responding ('"
          ++ (query.keyexpr ++ (codes "': '" ++ (value ++ codes "')\n"))))
        ∷ calls (z_zbytes_from_slice value payload)
        ∷ calls (z_query_reply_success argument (part z_query_keyexpr (whole argument)) payload)
        ∷ calls (z_free keyexpr_text)
        ∷ calls (z_free params_text)
        ∷ [])

abbrev serve : Answers → Bool → ℕ → Trace
serve answers complete rounds =
    calls (z_session_declare_queryable session ke complete queryable answers.declares)
    ∷ (if answers.declares
        then prints (codes "Press CTRL-C to quit...\n") ∷ idle rounds
        else prints (codes "Unable to create queryable.\n")
          ∷ calls (z_session_drop session)
          ∷ returns failed
          ∷ [])

-- `main` after `parse_args`, up to the given number of rounds of its loop.
unfoldable pub main : Answers → QueryableArgs → ℕ → Trace
main answers args rounds =
    prints (codes "Opening session...\n")
    ∷ open_session answers (
        make_keyexpr answers args.keyexpr (
          prints (codes "Declaring Queryable on '" ++ (args.keyexpr ++ codes "'...\n"))
          ∷ serve answers args.complete rounds))
