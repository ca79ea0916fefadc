-- ===== src/Examples/Typed.antt =====
-- The calls that the programs of examples/ make have the types of include/zenoh_flat.h.
pub mod Arrays
pub mod Programs
use zenoh_flat_c.Base.{
  ℕ, zero, suc, ◌+◌, ◌%◌, ◌^◌, ◌≡◌, refl, Bool, true, false, Option, none, some, List, [], ◌∷◌,
  arith, ◌&&◌, if◌then◌else◌,
}
use zenoh_flat_c.Base.Text.{Str, codes}
use zenoh_flat_c.Api.{
  keyexpr_t, subscriber_t, queryable_t, config_t, session_t, publisher_t, sample_t, query_t,
  reply_t, zbytes_t,
}
use zenoh_flat_c.Trace.{
  Trace, ke, subscriber, queryable, to_send, config, session, publisher, argument, payload,
}
use zenoh_flat_c.Trace.Typing.{Types, no_types, storing, an, well_typed}
use zenoh_flat_c.Examples.{Answers, open_session, make_keyexpr}
use zenoh_flat_c.Examples.Put
use zenoh_flat_c.Examples.Delete
use zenoh_flat_c.Examples.Get
use zenoh_flat_c.Examples.Pub
use zenoh_flat_c.Examples.Sub
use zenoh_flat_c.Examples.Sub.{idle}
use zenoh_flat_c.Examples.PubThr
use zenoh_flat_c.Examples.SubThr
use zenoh_flat_c.Examples.Queryable

-- `main` starts with its configuration.
abbrev pub start_types : Types
start_types = storing config (an config_t) no_types

abbrev opened : Types
opened = storing ke (an keyexpr_t) (storing session (an session_t) start_types)

abbrev after_declaring : Types
after_declaring = storing publisher (an publisher_t) opened

idle_typed : (types : Types) (rounds : ℕ) → well_typed types (idle rounds) ≡ true
unfolding well_typed idle
idle_typed types zero = refl
idle_typed types (suc rounds) = idle_typed types rounds

pub_rounds_typed :
    (args : Pub.PubArgs) (types : Types) (idx rounds : ℕ)
    → types publisher ≡ an publisher_t
    → well_typed types (Pub.put_rounds args idx rounds) ≡ true
unfolding well_typed Pub.put_rounds Pub.put_round
pub_rounds_typed args types idx zero e = refl
pub_rounds_typed args types idx (suc rounds) e =
    go args.attachment_text refl (λ t h. pub_rounds_typed args t ((idx + 1) % 2 ^ 32) rounds h)
  where
    go :
        (o : Option Str)
        → args.attachment_text ≡ o
        → ((t : Types)
            → t publisher ≡ an publisher_t
            → well_typed t (Pub.put_rounds args ((idx + 1) % 2 ^ 32) rounds) ≡ true)
        → well_typed types (Pub.put_rounds args idx (suc rounds)) ≡ true
    go none a rec = rw (a, e) (rec _ e)
    go (some text) a rec = rw (a, e) (rec _ e)

clones_typed :
    (types : Types) (rounds : ℕ)
    → types publisher ≡ an publisher_t
    → types payload ≡ an zbytes_t
    → well_typed types (PubThr.put_rounds rounds) ≡ true
unfolding well_typed PubThr.put_rounds
clones_typed types zero e f = refl
clones_typed types (suc rounds) e f =
    rw (e, f) (clones_typed (storing to_send (an zbytes_t) types) rounds e f)

module _ (answers : Answers) where
  pub put_typed : (args : Put.PutArgs) → well_typed start_types (Put.main answers args) ≡ true
  unfolding well_typed Put.main open_session make_keyexpr
  put_typed args = ground arith

  pub delete_typed :
      (args : Delete.DeleteArgs) → well_typed start_types (Delete.main answers args) ≡ true
  unfolding well_typed Delete.main open_session make_keyexpr
  delete_typed args = ground arith

  pub get_typed : (args : Get.GetArgs) → well_typed start_types (Get.main answers args) ≡ true
  unfolding well_typed Get.main open_session make_keyexpr
  get_typed args = ground arith

  pub pub_main_typed :
      (args : Pub.PubArgs) (rounds : ℕ)
      → well_typed start_types (Pub.main answers args rounds) ≡ true
  unfolding well_typed Pub.main open_session make_keyexpr
  pub_main_typed args rounds = ground (arith, pub_rounds_typed args after_declaring 0 rounds refl)

  pub sub_main_typed :
      (args : Sub.SubArgs) (rounds : ℕ)
      → well_typed start_types (Sub.main answers args rounds) ≡ true
  unfolding well_typed Sub.main open_session make_keyexpr
  sub_main_typed args rounds =
      ground (arith, idle_typed (storing subscriber (an subscriber_t) opened) rounds)

  pub queryable_main_typed :
      (args : Queryable.QueryableArgs) (rounds : ℕ)
      → well_typed start_types (Queryable.main answers args rounds) ≡ true
  unfolding well_typed Queryable.main open_session make_keyexpr
  queryable_main_typed args rounds =
      ground (arith, idle_typed (storing queryable (an queryable_t) opened) rounds)

  pub sub_thr_main_typed :
      (args : SubThr.SubThrArgs) (rounds : ℕ)
      → well_typed start_types (SubThr.main answers args rounds) ≡ true
  unfolding well_typed SubThr.main
  sub_thr_main_typed args rounds =
      ground (arith, idle_typed (storing subscriber (an subscriber_t) opened) rounds)

  pub pub_thr_main_typed :
      (args : PubThr.PubThrArgs) (rounds : ℕ)
      → well_typed start_types (PubThr.main answers args rounds) ≡ true
  unfolding well_typed PubThr.main
  pub_thr_main_typed args rounds =
      ground (arith, clones_typed (storing payload (an zbytes_t) after_declaring) rounds refl refl)
