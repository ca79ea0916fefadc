-- ===== src/Examples/Queryable/Ownership.antt =====
-- What examples/z_queryable.c owns, followed through a run.
use zenoh_flat_c.Base.{ℕ, ◌≡◌, ◌&&◌, some, [], ◌∷◌, arith, if◌then◌else◌}
use zenoh_flat_c.Base.Text.{Str}
use zenoh_flat_c.Trace.{config, session, queryable, argument}
use zenoh_flat_c.Trace.Ledger.{ledger}
use zenoh_flat_c.Examples.{Answers, open_session, make_keyexpr}
use zenoh_flat_c.Examples.Sub.Ownership.{idle-ledger}
use zenoh_flat_c.Examples.Queryable.{QueryableArgs, Query, query_handler, main}

-- The handler frees the texts that it makes of the query, with or without a payload, hands the reply's
-- payload over, and leaves the query itself to its caller.
pub query_handler_ownership :
    (query : Query) (value : Str)
    → ledger (query_handler query value) (argument ∷ []) ≡ some (argument ∷ [])
unfolding ledger query_handler
query_handler_ownership query value = ground arith

-- After any number of rounds of its loop z_queryable has used no object that it does not own. It owns
-- the queryable and the session where all its calls succeeded, and nothing where one failed and it
-- returned.
pub queryable_ownership :
    (answers : Answers) (args : QueryableArgs) (rounds : ℕ)
    → ledger (main answers args rounds) (config ∷ [])
      ≡ some (
          if answers.opens && (answers.is_keyexpr args.keyexpr && answers.declares)
          then queryable ∷ session ∷ []
          else [])
unfolding ledger main open_session make_keyexpr
queryable_ownership answers args rounds =
    ground (arith, idle-ledger rounds (queryable ∷ session ∷ []))
