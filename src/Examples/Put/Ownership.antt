-- ===== src/Examples/Put/Ownership.antt =====
-- What examples/z_put.c owns, followed through a run.
use zenoh_flat_c.Base.{◌≡◌, some, [], ◌∷◌, arith}
use zenoh_flat_c.Trace.{config}
use zenoh_flat_c.Trace.Ledger.{ledger}
use zenoh_flat_c.Examples.{Answers, open_session, make_keyexpr}
use zenoh_flat_c.Examples.Put.{PutArgs, main}

-- Whatever the library answers, z_put uses no object that it does not own, drops each exactly once,
-- and owns none when it returns.
pub put_ownership :
    (answers : Answers) (args : PutArgs) → ledger (main answers args) (config ∷ []) ≡ some []
unfolding ledger main open_session make_keyexpr
put_ownership answers args = ground arith
