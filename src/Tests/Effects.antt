-- ===== src/Tests/Effects.antt =====
-- What the example programs publish and ask for, at concrete data.
use zenoh_flat_c.Examples.PubThr.Fill.{byte_at}
use zenoh_flat_c.Base.{
  ℕ, ltb, none, List, ◌%◌, ◌++◌, ◌≡◌, refl, ◌&&◌, true, some, [], ◌∷◌, arith, if◌then◌else◌,
}
use zenoh_flat_c.Base.Int.{pos}
use zenoh_flat_c.Base.Text.{Str, codes}
use zenoh_flat_c.Enums.{all}
use zenoh_flat_c.Trace.Published.{empty, published}
use zenoh_flat_c.Examples.{Answers}
use zenoh_flat_c.Examples.Pub
use zenoh_flat_c.Examples.Pub.{message}
use zenoh_flat_c.Examples.Pub.Effect.{Numbered, pub_publishes}
use zenoh_flat_c.Examples.PubThr
use zenoh_flat_c.Examples.PubThr.Effect.{repeated, pub_thr_publishes}
use zenoh_flat_c.Examples.Get
use zenoh_flat_c.Examples.Get.Selector.{with_parameters}
use zenoh_flat_c.Examples.Get.Effect.{asked, get_asks}
use zenoh_flat_c.Trace.{config}
use zenoh_flat_c.Trace.Ledger.{ledger}
use zenoh_flat_c.Examples.Sub
use zenoh_flat_c.Examples.Queryable
use zenoh_flat_c.Examples.SubThr
use zenoh_flat_c.Examples.ShutDown.{
  pub_shut_down, sub_shut_down, queryable_shut_down, pub_thr_shut_down, sub_thr_shut_down,
  shut_down_complete,
}
use zenoh_flat_c.Tests.Programs.{
  sub_args, queryable_args, sub_thr_args, pub_args, pub_thr_args, get_args,
}

-- A library that accepts everything.
abbrev pub willing : Answers
willing = record { opens = true; is_keyexpr = λ text. true; declares = true; succeeds = true }

pub_publishes_example :
    (texts : List (Str × Str)) × Numbered pub_args.keyexpr pub_args.value 0 2 texts
    × (published empty (Pub.main willing pub_args 2) ≡ (
        if willing.opens && (willing.is_keyexpr pub_args.keyexpr && willing.declares)
        then texts
        else []))
pub_publishes_example = pub_publishes willing pub_args 2 (omega arith)

pub_thr_publishes_example :
    (bytes : List ℕ) × (published empty (PubThr.main willing pub_thr_args 3)
      ≡ (if willing.opens && willing.declares then repeated (codes "test/thr") bytes 3 else []))
    × ((k : ℕ) → byte_at k bytes ≡ (if ltb k pub_thr_args.size then some (k % 10) else none))
pub_thr_publishes_example = pub_thr_publishes willing pub_thr_args 3

get_asks_example : asked empty (Get.main willing get_args) ≡ (
    if willing.opens && willing.is_keyexpr (codes "d")
    then record {
      key = codes "d";
      parameters = some (codes "x=1");
      timeout = pos get_args.timeout_ms;
      target = all;
      payload_text = get_args.value;
    }
      ∷ []
    else [])
get_asks_example =
    get_asks willing get_args (codes "d") (some (codes "x=1"))
      (with_parameters (codes "x=1") ((λ e. cc), tt) refl) (omega arith)

shut_down_complete_example :
    (ledger (Pub.main willing pub_args 2 ++ pub_shut_down) (config ∷ []) ≡ some [])
    × (ledger (Sub.main willing sub_args 2 ++ sub_shut_down) (config ∷ []) ≡ some [])
    × (ledger (Queryable.main willing queryable_args 2 ++ queryable_shut_down) (config ∷ [])
        ≡ some [])
    × (ledger (PubThr.main willing pub_thr_args 2 ++ pub_thr_shut_down) (config ∷ []) ≡ some [])
    × (ledger (SubThr.main willing sub_thr_args 2 ++ sub_thr_shut_down) (config ∷ []) ≡ some [])
shut_down_complete_example =
    shut_down_complete willing refl refl (λ text. refl) pub_args sub_args queryable_args
      pub_thr_args sub_thr_args 2
