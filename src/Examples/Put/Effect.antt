-- ===== src/Examples/Put/Effect.antt =====
-- What examples/z_put.c publishes.
use zenoh_flat_c.Base.{◌≡◌, ◌&&◌, [], ◌∷◌, arith, if◌then◌else◌}
use zenoh_flat_c.Trace.Published.{empty, published}
use zenoh_flat_c.Examples.{Answers, open_session, make_keyexpr}
use zenoh_flat_c.Examples.Put.{PutArgs, main}

-- z_put publishes its value under its key exactly once, and that only if the session opened, the key
-- is a key expression, and the put succeeded; otherwise it publishes nothing.
pub put_publishes :
    (answers : Answers) (args : PutArgs)
    → published empty (main answers args) ≡ (
        if answers.opens && (answers.is_keyexpr args.keyexpr && answers.succeeds)
        then (args.keyexpr, args.value) ∷ []
        else [])
unfolding published main open_session make_keyexpr
put_publishes answers args = ground arith
