-- ===== src/Examples/Typed/Programs.antt =====
-- The same for the handlers of examples/, and for all programs together.
use zenoh_flat_c.Base.{ℕ, ◌≡◌, refl, true, Bool, List, arith}
use zenoh_flat_c.Base.Text.{Str}
use zenoh_flat_c.Api.{sample_t, query_t, reply_t, hello_t}
use zenoh_flat_c.Trace.{argument}
use zenoh_flat_c.Trace.Typing.{no_types, storing, an, well_typed}
use zenoh_flat_c.Examples.{Answers}
use zenoh_flat_c.Examples.Put
use zenoh_flat_c.Examples.Delete
use zenoh_flat_c.Examples.Get
use zenoh_flat_c.Examples.Get.{Reply, reply_ok, reply_error, reply_handler}
use zenoh_flat_c.Examples.Pub
use zenoh_flat_c.Examples.Sub
use zenoh_flat_c.Examples.Sub.{Sample, data_handler}
use zenoh_flat_c.Examples.Queryable
use zenoh_flat_c.Examples.Queryable.{Query, query_handler}
use zenoh_flat_c.Examples.Info
use zenoh_flat_c.Examples.Scout
use zenoh_flat_c.Examples.Scout.{Hello}
use zenoh_flat_c.Examples.PubThr
use zenoh_flat_c.Examples.SubThr
use zenoh_flat_c.Examples.Typed.{
  start_types, put_typed, delete_typed, get_typed, pub_main_typed, sub_main_typed,
  queryable_main_typed, sub_thr_main_typed, pub_thr_main_typed,
}
use zenoh_flat_c.Examples.Typed.Arrays.{info_typed, scout_typed}

data_handler_typed :
    (sample : Sample)
    → well_typed (storing argument (an sample_t) no_types) (data_handler sample) ≡ true
unfolding well_typed data_handler
data_handler_typed sample = ground arith

query_handler_typed :
    (query : Query) (value : Str)
    → well_typed (storing argument (an query_t) no_types) (query_handler query value) ≡ true
unfolding well_typed query_handler
query_handler_typed query value = ground arith

reply_handler_typed :
    (reply : Reply)
    → well_typed (storing argument (an reply_t) no_types) (reply_handler reply) ≡ true
unfolding well_typed reply_handler
reply_handler_typed (reply_ok key bytes) = refl
reply_handler_typed reply_error = refl

module _ (answers : Answers) (rounds : ℕ) where
  -- Whatever the library answers and however many rounds a loop makes, every call of the API that
  -- z_put, z_delete, z_get, z_pub, z_sub, z_queryable, z_pub_thr and z_sub_thr make in `main` has as
  -- many arguments as its prototype has parameters, and each object among them has the type that the
  -- prototype asks for.
  pub programs_typed :
      (put : Put.PutArgs) (delete : Delete.DeleteArgs) (get : Get.GetArgs) (pub_args : Pub.PubArgs)
      (sub : Sub.SubArgs) (serve : Queryable.QueryableArgs) (pub_thr : PubThr.PubThrArgs)
      (sub_thr : SubThr.SubThrArgs)
      → (well_typed start_types (Put.main answers put) ≡ true)
        × (well_typed start_types (Delete.main answers delete) ≡ true)
        × (well_typed start_types (Get.main answers get) ≡ true)
        × (well_typed start_types (Pub.main answers pub_args rounds) ≡ true)
        × (well_typed start_types (Sub.main answers sub rounds) ≡ true)
        × (well_typed start_types (Queryable.main answers serve rounds) ≡ true)
        × (well_typed start_types (PubThr.main answers pub_thr rounds) ≡ true)
        × (well_typed start_types (SubThr.main answers sub_thr rounds) ≡ true)
  programs_typed put delete get pub_args sub serve pub_thr sub_thr = (
    put_typed answers put,
    delete_typed answers delete,
    get_typed answers get,
    pub_main_typed answers pub_args rounds,
    sub_main_typed answers sub rounds,
    queryable_main_typed answers serve rounds,
    pub_thr_main_typed answers pub_thr rounds,
    sub_thr_main_typed answers sub_thr rounds,
  )

-- The same holds of z_info and z_scout with any arrays of identifiers, hellos and locators, and of the
-- handlers of samples, queries and replies, which are given an object of that type.
pub handlers_typed :
    (answers : Answers) (own : Str) (routers peers : List Str) (starts : Bool) (hellos : List Hello)
    (sample : Sample) (query : Query) (value : Str) (reply : Reply)
    → (well_typed start_types (Info.main answers own routers peers) ≡ true)
      × (well_typed (storing argument (an hello_t) no_types) (Scout.main starts hellos) ≡ true)
      × (well_typed (storing argument (an sample_t) no_types) (data_handler sample) ≡ true)
      × (well_typed (storing argument (an query_t) no_types) (query_handler query value) ≡ true)
      × (well_typed (storing argument (an reply_t) no_types) (reply_handler reply) ≡ true)
handlers_typed answers own routers peers starts hellos sample query value reply = (
  info_typed answers own routers peers,
  scout_typed starts hellos,
  data_handler_typed sample,
  query_handler_typed query value,
  reply_handler_typed reply,
)
