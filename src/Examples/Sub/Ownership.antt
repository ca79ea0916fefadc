-- ===== src/Examples/Sub/Ownership.antt =====
-- What examples/z_sub.c owns, followed through a run.
use zenoh_flat_c.Base.{ℕ, zero, suc, ◌≡◌, refl, ◌&&◌, some, [], ◌∷◌, arith, if◌then◌else◌}
use zenoh_flat_c.Trace.{config, session, subscriber, argument}
use zenoh_flat_c.Trace.Ledger.{Owned, ledger}
use zenoh_flat_c.Examples.{Answers, open_session, make_keyexpr}
use zenoh_flat_c.Examples.Sub.{SubArgs, Sample, data_handler, idle, main}

pub idle-ledger : (rounds : ℕ) (owned : Owned) → ledger (idle rounds) owned ≡ some owned
unfolding idle ledger
idle-ledger zero owned = refl
idle-ledger (suc rounds) owned = idle-ledger rounds owned

-- The handler frees the texts that it makes of the sample, with or without an attachment, and leaves
-- the sample itself to its caller.
pub data_handler_ownership :
    (sample : Sample) → ledger (data_handler sample) (argument ∷ []) ≡ some (argument ∷ [])
unfolding ledger data_handler
data_handler_ownership sample = ground arith

-- After any number of rounds of its loop z_sub has used no object that it does not own. It owns the
-- subscriber and the session where all its calls succeeded, and nothing where one failed and it
-- returned.
pub sub_ownership :
    (answers : Answers) (args : SubArgs) (rounds : ℕ)
    → ledger (main answers args rounds) (config ∷ [])
      ≡ some (
          if answers.opens && (answers.is_keyexpr args.keyexpr && answers.declares)
          then subscriber ∷ session ∷ []
          else [])
unfolding ledger main open_session make_keyexpr
sub_ownership answers args rounds = ground (arith, idle-ledger rounds (subscriber ∷ session ∷ []))
