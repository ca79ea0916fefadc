-- ===== src/Examples/Pub/Ownership.antt =====
-- What examples/z_pub.c owns, followed through a run.
use zenoh_flat_c.Base.{
  ℕ, zero, suc, ◌+◌, ◌%◌, ◌^◌, ◌≡◌, refl, ◌∙◌, ◌&&◌, some, [], ◌∷◌, arith, if◌then◌else◌,
}
use zenoh_flat_c.Trace.{Trace, config, session, publisher}
use zenoh_flat_c.Trace.Ledger.{ledger}
use zenoh_flat_c.Examples.{Answers, open_session, make_keyexpr}
use zenoh_flat_c.Examples.Pub.{PubArgs, put_round, put_rounds, main}

put_round-ledger :
    (args : PubArgs) (idx : ℕ) (rest : Trace)
    → ledger (put_round args idx rest) (publisher ∷ session ∷ [])
      ≡ ledger rest (publisher ∷ session ∷ [])
unfolding ledger put_round
put_round-ledger args idx rest = ground arith

-- However many rounds are made, each gives up its payload and its attachment.
put_rounds-ledger :
    (args : PubArgs) (idx rounds : ℕ)
    → ledger (put_rounds args idx rounds) (publisher ∷ session ∷ [])
      ≡ some (publisher ∷ session ∷ [])
unfolding put_rounds ledger
put_rounds-ledger args idx zero = refl
put_rounds-ledger args idx (suc rounds) =
    put_round-ledger args idx (put_rounds args ((idx + 1) % 2 ^ 32) rounds)
    ∙ put_rounds-ledger args ((idx + 1) % 2 ^ 32) rounds

-- After any number of rounds z_pub has used no object that it does not own. It owns the publisher
-- and the session where all its declarations succeeded, and nothing where one failed and it returned.
pub pub_ownership :
    (answers : Answers) (args : PubArgs) (rounds : ℕ)
    → ledger (main answers args rounds) (config ∷ [])
      ≡ some (
          if answers.opens && (answers.is_keyexpr args.keyexpr && answers.declares)
          then publisher ∷ session ∷ []
          else [])
unfolding ledger main open_session make_keyexpr
pub_ownership answers args rounds = ground (arith, put_rounds-ledger args 0 rounds)
