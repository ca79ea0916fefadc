-- ===== src/Examples/Delete/Ownership.antt =====
-- What examples/z_delete.c owns, followed through a run.
use zenoh_flat_c.Base.{◌≡◌, some, [], ◌∷◌, arith}
use zenoh_flat_c.Trace.{config}
use zenoh_flat_c.Trace.Ledger.{ledger}
use zenoh_flat_c.Examples.{Answers, open_session, make_keyexpr}
use zenoh_flat_c.Examples.Delete.{DeleteArgs, main}

-- Whatever the library answers, z_delete uses no object that it does not own, drops each exactly
-- once, and owns none when it returns.
pub delete_ownership :
    (answers : Answers) (args : DeleteArgs) → ledger (main answers args) (config ∷ []) ≡ some []
unfolding ledger main open_session make_keyexpr
delete_ownership answers args = ground arith
