-- ===== src/Examples/SubThr/Ownership.antt =====
-- What examples/z_sub_thr.c owns, followed through a run.
use zenoh_flat_c.Base.{ℕ, ◌≡◌, true, ◌&&◌, some, [], ◌∷◌, arith, if◌then◌else◌}
use zenoh_flat_c.Base.Text.{codes}
use zenoh_flat_c.Trace.{config, session, subscriber}
use zenoh_flat_c.Trace.Ledger.{ledger}
use zenoh_flat_c.Examples.{Answers}
use zenoh_flat_c.Examples.Sub.Ownership.{idle-ledger}
use zenoh_flat_c.Examples.SubThr.{SubThrArgs, main}

-- If `test/thr` is a key expression, z_sub_thr uses no object that it does not own in any number of
-- rounds, and hands the counters over to the closure. It owns the subscriber and the session where
-- its declaration succeeded, and nothing where a call failed and it returned.
pub sub_thr_ownership :
    (answers : Answers) (args : SubThrArgs) (rounds : ℕ)
    → answers.is_keyexpr (codes "test/thr") ≡ true
    → ledger (main answers args rounds) (config ∷ [])
      ≡ some (if answers.opens && answers.declares then subscriber ∷ session ∷ [] else [])
unfolding ledger main
sub_thr_ownership answers args rounds h =
    rw h (ground (arith, idle-ledger rounds (subscriber ∷ session ∷ [])))
