-- ===== src/Examples/Owned.antt =====
-- Ownership in the programs of examples/ that run for ever, and in the handlers, together.
use zenoh_flat_c.Base.{ℕ, Bool, List, ◌≡◌, ◌&&◌, true, some, [], ◌∷◌, if◌then◌else◌}
use zenoh_flat_c.Base.Text.{Str, codes}
use zenoh_flat_c.Trace.{
  config, session, publisher, subscriber, queryable, argument, payload, value_buffer,
}
use zenoh_flat_c.Trace.Ledger.{ledger}
use zenoh_flat_c.Examples.{Answers}
use zenoh_flat_c.Examples.Pub
use zenoh_flat_c.Examples.Pub.Ownership.{pub_ownership}
use zenoh_flat_c.Examples.Sub
use zenoh_flat_c.Examples.Sub.{Sample, data_handler}
use zenoh_flat_c.Examples.Sub.Ownership.{data_handler_ownership, sub_ownership}
use zenoh_flat_c.Examples.Queryable
use zenoh_flat_c.Examples.Queryable.{Query, query_handler}
use zenoh_flat_c.Examples.Queryable.Ownership.{query_handler_ownership, queryable_ownership}
use zenoh_flat_c.Examples.Get.{Reply, reply_handler}
use zenoh_flat_c.Examples.Get.Ownership.{reply_handler_ownership}
use zenoh_flat_c.Examples.Scout
use zenoh_flat_c.Examples.Scout.{Hello}
use zenoh_flat_c.Examples.Scout.Ownership.{scout_ownership}
use zenoh_flat_c.Examples.PubThr
use zenoh_flat_c.Examples.PubThr.Ownership.{pub_thr_ownership}
use zenoh_flat_c.Examples.SubThr
use zenoh_flat_c.Examples.SubThr.Ownership.{sub_thr_ownership}

-- The handlers of samples, queries and replies free each text and each block of bytes that they make,
-- hand a reply's payload over, use nothing that they do not own, and leave the object that they are
-- given to their caller. z_scout, with any hellos that have any locators, frees every text, array and
-- element exactly once, and leaves each hello to its caller.
pub handlers_ownership :
    (sample : Sample) (query : Query) (value : Str) (reply : Reply) (starts : Bool)
    (hellos : List Hello)
    → (ledger (data_handler sample) (argument ∷ []) ≡ some (argument ∷ []))
      × (ledger (query_handler query value) (argument ∷ []) ≡ some (argument ∷ []))
      × (ledger (reply_handler reply) (argument ∷ []) ≡ some (argument ∷ []))
      × (ledger (Scout.main starts hellos) (argument ∷ []) ≡ some (argument ∷ []))
handlers_ownership sample query value reply starts hellos = (
  data_handler_ownership sample,
  query_handler_ownership query value,
  reply_handler_ownership reply,
  scout_ownership starts hellos,
)

-- If `test/thr` is a key expression, then after any number of rounds of their loops z_pub, z_sub,
-- z_queryable, z_pub_thr and z_sub_thr have used no object that they do not own, and they own exactly what they declared and made for the loop, with the
-- session, where all their calls succeeded, and nothing where one failed and they returned.
pub endless_ownership :
    (answers : Answers) (pub_args : Pub.PubArgs) (sub : Sub.SubArgs)
    (serve : Queryable.QueryableArgs) (send : PubThr.PubThrArgs) (receive : SubThr.SubThrArgs)
    (rounds : ℕ)
    → answers.is_keyexpr (codes "test/thr") ≡ true
    → (ledger (Pub.main answers pub_args rounds) (config ∷ [])
        ≡ some (
            if answers.opens && (answers.is_keyexpr pub_args.keyexpr && answers.declares)
            then publisher ∷ session ∷ []
            else []))
      × (ledger (Sub.main answers sub rounds) (config ∷ [])
          ≡ some (
              if answers.opens && (answers.is_keyexpr sub.keyexpr && answers.declares)
              then subscriber ∷ session ∷ []
              else []))
      × (ledger (Queryable.main answers serve rounds) (config ∷ [])
          ≡ some (
              if answers.opens && (answers.is_keyexpr serve.keyexpr && answers.declares)
              then queryable ∷ session ∷ []
              else []))
      × (ledger (PubThr.main answers send rounds) (config ∷ [])
          ≡ some (
              if answers.opens && answers.declares
              then payload ∷ publisher ∷ session ∷ value_buffer ∷ []
              else []))
      × (ledger (SubThr.main answers receive rounds) (config ∷ [])
          ≡ some (if answers.opens && answers.declares then subscriber ∷ session ∷ [] else []))
endless_ownership answers pub_args sub serve send receive rounds h = (
  pub_ownership answers pub_args rounds,
  sub_ownership answers sub rounds,
  queryable_ownership answers serve rounds,
  pub_thr_ownership answers send rounds h,
  sub_thr_ownership answers receive rounds h,
)
