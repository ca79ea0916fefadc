-- ===== src/Examples/Get/Ownership.antt =====
-- What examples/z_get.c owns, followed through a run.
use zenoh_flat_c.Base.{◌≡◌, some, [], ◌∷◌, arith}
use zenoh_flat_c.Trace.{config, argument}
use zenoh_flat_c.Trace.Ledger.{ledger}
use zenoh_flat_c.Examples.{Answers, open_session, make_keyexpr}
use zenoh_flat_c.Examples.Get.{GetArgs, Reply, reply_handler, main}

-- The handler frees the texts that it makes of a reply and leaves the reply to its caller, and it
-- makes none of an error.
pub reply_handler_ownership :
    (reply : Reply) → ledger (reply_handler reply) (argument ∷ []) ≡ some (argument ∷ [])
unfolding ledger reply_handler
reply_handler_ownership reply = ground arith

-- Whatever the library answers, with or without a payload, z_get uses no object that it does not own,
-- gives up each exactly once, and owns nothing when it returns.
pub get_ownership :
    (answers : Answers) (args : GetArgs) → ledger (main answers args) (config ∷ []) ≡ some []
unfolding ledger main open_session make_keyexpr
get_ownership answers args = ground arith
