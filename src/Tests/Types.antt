-- ===== src/Tests/Types.antt =====
-- The types of the calls that the programs make, at concrete data.
use zenoh_flat_c.Base.{◌≡◌, true, [], ◌∷◌}
use zenoh_flat_c.Base.Text.{codes}
use zenoh_flat_c.Api.{hello_t, sample_t, query_t, reply_t}
use zenoh_flat_c.Trace.{argument}
use zenoh_flat_c.Trace.Typing.{no_types, storing, an, well_typed}
use zenoh_flat_c.Examples.Get.{reply_ok, reply_handler}
use zenoh_flat_c.Examples.Put
use zenoh_flat_c.Examples.Delete
use zenoh_flat_c.Examples.Get
use zenoh_flat_c.Examples.Pub
use zenoh_flat_c.Examples.Sub
use zenoh_flat_c.Examples.Sub.{data_handler}
use zenoh_flat_c.Examples.Queryable
use zenoh_flat_c.Examples.Queryable.{query_handler}
use zenoh_flat_c.Examples.Info
use zenoh_flat_c.Examples.Scout
use zenoh_flat_c.Examples.PubThr
use zenoh_flat_c.Examples.SubThr
use zenoh_flat_c.Examples.Typed.{start_types}
use zenoh_flat_c.Examples.Typed.Programs.{programs_typed, handlers_typed}
use zenoh_flat_c.Tests.Programs.{
  answers, put_args, get_args, pub_args, sub_args, queryable_args, pub_thr_args, sub_thr_args,
  sample, query, hellos,
}

programs_typed_example :
    (well_typed start_types (Put.main answers put_args) ≡ true)
    × (well_typed start_types (Delete.main answers (record { keyexpr = codes "k" })) ≡ true)
    × (well_typed start_types (Get.main answers get_args) ≡ true)
    × (well_typed start_types (Pub.main answers pub_args 2) ≡ true)
    × (well_typed start_types (Sub.main answers sub_args 2) ≡ true)
    × (well_typed start_types (Queryable.main answers queryable_args 2) ≡ true)
    × (well_typed start_types (PubThr.main answers pub_thr_args 2) ≡ true)
    × (well_typed start_types (SubThr.main answers sub_thr_args 2) ≡ true)
programs_typed_example =
    programs_typed answers 2 put_args (record { keyexpr = codes "k" }) get_args pub_args sub_args
      queryable_args pub_thr_args sub_thr_args

handlers_typed_example :
    (well_typed start_types (Info.main answers (codes "1") (codes "2" ∷ []) []) ≡ true)
    × (well_typed (storing argument (an hello_t) no_types) (Scout.main true hellos) ≡ true)
    × (well_typed (storing argument (an sample_t) no_types) (data_handler sample) ≡ true)
    × (well_typed (storing argument (an query_t) no_types) (query_handler query (codes "v")) ≡ true)
    × (well_typed
          (storing argument (an reply_t) no_types)
          (reply_handler (reply_ok (codes "k") (1 ∷ [])))
        ≡ true)
handlers_typed_example =
    handlers_typed answers (codes "1") (codes "2" ∷ []) [] true hellos sample query (codes "v")
      (reply_ok (codes "k") (1 ∷ []))
