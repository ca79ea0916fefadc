-- ===== src/Examples/Help/Known.antt =====
-- The options that the help texts document are options of the programs.
use zenoh_flat_c.Base.{
  ◌||◌, ◌&&◌, not, ◌==◌, Bool, true, false, Option, some, List, [], ◌∷◌, length, if◌then◌else◌,
}
use zenoh_flat_c.Base.Text.{Str, codes, str_eq}
use zenoh_flat_c.Process.{Heap, Process, Run, exits, complaint}
use zenoh_flat_c.Config.{ConfigApi}
use zenoh_flat_c.Config.Values.{process}
use zenoh_flat_c.Examples.{unknown_option}
use zenoh_flat_c.Examples.Help.Rejected.{
  Program, z_put, z_delete, z_pub, z_sub, z_queryable, z_get, z_info, z_pub_thr, z_sub_thr,
}
use zenoh_flat_c.Examples.Put
use zenoh_flat_c.Examples.Delete
use zenoh_flat_c.Examples.Pub
use zenoh_flat_c.Examples.Sub
use zenoh_flat_c.Examples.Queryable
use zenoh_flat_c.Examples.Get
use zenoh_flat_c.Examples.Info
use zenoh_flat_c.Examples.PubThr
use zenoh_flat_c.Examples.SubThr

-- The option as an argument.
abbrev pub dashed : Str → Str
dashed opt = if length opt == 1 then b'-' ∷ opt else b'-' ∷ b'-' ∷ opt

-- The process exits because it does not know the argument.
abbrev refuses : {A : Type 0} → Run A → Str → Bool
refuses (exits (complaint m)) a = str_eq m (unknown_option a)
refuses _ a = false

abbrev no_scouting : Str
no_scouting = codes "no-multicast-scouting"

module _ (api : ConfigApi) (name : Option Str) (n : Heap) where
  scouting : Process
  scouting = process (name ∷ some (codes "--no-multicast-scouting") ∷ []) n

  abbrev refused : Program → Process → Str → Bool
  refused z_put line a = refuses (Put.parse_args api line) a
  refused z_delete line a = refuses (Delete.parse_args api line) a
  refused z_pub line a = refuses (Pub.parse_args api line) a
  refused z_sub line a = refuses (Sub.parse_args api line) a
  refused z_queryable line a = refuses (Queryable.parse_args api line) a
  refused z_get line a = refuses (Get.parse_args api line) a
  refused z_info line a = refuses (Info.parse_args api line) a
  refused z_pub_thr line a = refuses (PubThr.parse_args api line) a
  refused z_sub_thr line a = refuses (SubThr.parse_args api line) a

  -- The option alone on the command line.
  abbrev alone : Program → Str → Bool
  alone program opt = refused program (process (name ∷ some (dashed opt) ∷ []) n) (dashed opt)

  -- None of the options, but perhaps this flag, is refused.
  abbrev all_known : Program → List Str → Bool
  all_known program [] = true
  all_known program (opt ∷ opts) =
      (str_eq opt no_scouting || not (alone program opt)) && all_known program opts
