-- ===== src/Examples/PubThr/Ownership.antt =====
-- What examples/z_pub_thr.c owns, followed through a run.
use zenoh_flat_c.Base.{ℕ, zero, suc, ◌≡◌, refl, true, ◌&&◌, some, [], ◌∷◌, arith, if◌then◌else◌}
use zenoh_flat_c.Base.Text.{codes}
use zenoh_flat_c.Trace.{config, session, publisher, payload, value_buffer}
use zenoh_flat_c.Trace.Ledger.{ledger}
use zenoh_flat_c.Examples.{Answers}
use zenoh_flat_c.Examples.PubThr.{PubThrArgs, put_rounds, main}

put_rounds-ledger :
    (rounds : ℕ)
    → ledger (put_rounds rounds) (payload ∷ publisher ∷ session ∷ value_buffer ∷ [])
      ≡ some (payload ∷ publisher ∷ session ∷ value_buffer ∷ [])
unfolding put_rounds ledger
put_rounds-ledger zero = refl
put_rounds-ledger (suc rounds) = put_rounds-ledger rounds

-- If `test/thr` is a key expression, z_pub_thr uses no object that it does not own in any number of
-- rounds: each clone of the payload goes to the publisher. It owns the payload, the publisher, the
-- session and its buffer where its declaration succeeded, and nothing where a call failed and it
-- returned.
pub pub_thr_ownership :
    (answers : Answers) (args : PubThrArgs) (rounds : ℕ)
    → answers.is_keyexpr (codes "test/thr") ≡ true
    → ledger (main answers args rounds) (config ∷ [])
      ≡ some (
          if answers.opens && answers.declares
          then payload ∷ publisher ∷ session ∷ value_buffer ∷ []
          else [])
unfolding ledger main
pub_thr_ownership answers args rounds h = rw h (ground (arith, put_rounds-ledger rounds))
