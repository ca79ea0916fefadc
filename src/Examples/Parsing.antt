-- ===== src/Examples/Parsing.antt =====
-- How the `parse_args` of each program of examples/ ends, and what it leaves.
use zenoh_flat_c.Base.{◌+◌, ◌≡◌, refl, none, some, arith, length}
use zenoh_flat_c.Base.Text.{Str}
use zenoh_flat_c.Process.{Process, pure, ◌>>=◌, ◌>>◌}
use zenoh_flat_c.Process.Ensures.{Ensures, returns, bind}
use zenoh_flat_c.Args.{arguments}
use zenoh_flat_c.Args.Steps.{
  Leads, Leads-step, parse_arg-Ensures, check_flag-Ensures, check_help-Ensures,
}
use zenoh_flat_c.Config.{ConfigApi, parse_zenoh_common_args}
use zenoh_flat_c.Config.Steps.{parse_zenoh_common_args-Ensures}
use zenoh_flat_c.Config.Choices.{parse_query_target-Ensures}
use zenoh_flat_c.Examples.{text_arg, optional_arg, reject_unknown, reject_positional}
use zenoh_flat_c.Examples.Leftovers.{NoneLeft, reject_unknown-Ensures, reject_positional-Ensures}
use zenoh_flat_c.Examples.Put
use zenoh_flat_c.Examples.Delete
use zenoh_flat_c.Examples.Pub
use zenoh_flat_c.Examples.Sub
use zenoh_flat_c.Examples.Queryable
use zenoh_flat_c.Examples.Get
use zenoh_flat_c.Examples.Info
use zenoh_flat_c.Examples.SubThr

-- From `p`, one block more, and all arguments consumed.
pub record AllParsed (p q : Process) : Type 0 where
  pub blocks_are : length q.blocks ≡ length p.blocks + 1
  pub as_long : length q.argv ≡ length p.argv
  pub none_left : NoneLeft (arguments q.argv)

module _ (p : Process) where
  text_arg-Ensures :
      (s l default_value : Str) → Ensures (λ _ q. Leads 0 p q) (text_arg s l default_value p)
  unfolding text_arg
  text_arg-Ensures s l d = parse_arg-Ensures s l pure d p (λ v q. returns refl)

  optional_arg-Ensures : (s l : Str) → Ensures (λ _ q. Leads 0 p q) (optional_arg s l p)
  unfolding optional_arg
  optional_arg-Ensures s l = parse_arg-Ensures s l (λ v. pure (some v)) none p (λ v q. returns refl)

module _ (api : ConfigApi) where
  open api use {Config}

  -- The end that the programs share.
  tail-Ensures :
      {A : Type 0} (result : Config → A) (p q : Process)
      → Leads 0 p q
      → Ensures
          (λ _ r. AllParsed p r)
          ((do
            config ← parse_zenoh_common_args api
            reject_unknown
            reject_positional
            pure (result config))
            q)
  tail-Ensures result p q h = bind (parse_zenoh_common_args-Ensures api q) λ c q1 h1.
      bind (reject_unknown-Ensures q1) λ _ q2 (e2, plain).
        bind (reject_positional-Ensures q2)
          λ _ q3 (e3, left). returns (parsed q1 q2 q3 h1 e2 e3 left)
    where
      parsed :
          (q1 q2 q3 : Process)
          → Leads 1 q q1
          → q2 ≡ q1
          → q3 ≡ q2
          → NoneLeft (arguments q2.argv)
          → AllParsed p q3
      parsed q1 q2 q3 h1 e2 e3 left = rw e3 (record {
        blocks_are = rw e2 (omega arith);
        as_long = rw e2 (omega arith);
        none_left = left;
      })

  put_parses_all : (p : Process) → Ensures (λ _ q. AllParsed p q) (Put.parse_args api p)
  unfolding Put.parse_args
  put_parses_all p = bind (check_help-Ensures p) λ _ p1 h1.
      bind (text_arg-Ensures p1 _ _ _) λ keyexpr p2 h2.
        bind (text_arg-Ensures p2 _ _ _)
          λ value p3 h3. tail-Ensures _ p p3 (Leads-step h1 (Leads-step h2 h3))

  delete_parses_all : (p : Process) → Ensures (λ _ q. AllParsed p q) (Delete.parse_args api p)
  unfolding Delete.parse_args
  delete_parses_all p = bind (check_help-Ensures p) λ _ p1 h1.
      bind (text_arg-Ensures p1 _ _ _) λ keyexpr p2 h2. tail-Ensures _ p p2 (Leads-step h1 h2)

  pub_parses_all : (p : Process) → Ensures (λ _ q. AllParsed p q) (Pub.parse_args api p)
  unfolding Pub.parse_args
  pub_parses_all p = bind (check_help-Ensures p) λ _ p1 h1.
      bind (text_arg-Ensures p1 _ _ _) λ keyexpr p2 h2.
        bind (text_arg-Ensures p2 _ _ _) λ value p3 h3.
          bind (optional_arg-Ensures p3 _ _) λ attachment p4 h4.
            bind (check_flag-Ensures _ p4) λ listener p5 h5.
              tail-Ensures _ p p5 (Leads-step h1 (Leads-step h2 (Leads-step h3 (Leads-step h4 h5))))

  sub_parses_all : (p : Process) → Ensures (λ _ q. AllParsed p q) (Sub.parse_args api p)
  unfolding Sub.parse_args
  sub_parses_all p = bind (check_help-Ensures p) λ _ p1 h1.
      bind (text_arg-Ensures p1 _ _ _) λ keyexpr p2 h2. tail-Ensures _ p p2 (Leads-step h1 h2)

  queryable_parses_all : (p : Process) → Ensures (λ _ q. AllParsed p q) (Queryable.parse_args api p)
  unfolding Queryable.parse_args
  queryable_parses_all p = bind (check_help-Ensures p) λ _ p1 h1.
      bind (text_arg-Ensures p1 _ _ _) λ keyexpr p2 h2.
        bind (text_arg-Ensures p2 _ _ _) λ value p3 h3.
          bind (check_flag-Ensures _ p3)
            λ complete p4 h4. tail-Ensures _ p p4 (Leads-step h1 (Leads-step h2 (Leads-step h3 h4)))

  get_parses_all : (p : Process) → Ensures (λ _ q. AllParsed p q) (Get.parse_args api p)
  unfolding Get.parse_args
  get_parses_all p = bind (check_help-Ensures p) λ _ p1 h1.
      bind (text_arg-Ensures p1 _ _ _) λ selector p2 h2.
        bind (optional_arg-Ensures p2 _ _) λ value p3 h3.
          bind (parse_arg-Ensures _ _ _ _ p3 (λ v q. returns refl)) λ timeout p4 h4.
            bind (parse_arg-Ensures _ _ _ _ p4 parse_query_target-Ensures) λ target p5 h5.
              tail-Ensures _ p p5 (Leads-step h1 (Leads-step h2 (Leads-step h3 (Leads-step h4 h5))))

  info_parses_all : (p : Process) → Ensures (λ _ q. AllParsed p q) (Info.parse_args api p)
  unfolding Info.parse_args
  info_parses_all p = bind (check_help-Ensures p) λ _ p1 h1. tail-Ensures (λ c. c) p p1 h1

  sub_thr_parses_all : (p : Process) → Ensures (λ _ q. AllParsed p q) (SubThr.parse_args api p)
  unfolding SubThr.parse_args
  sub_thr_parses_all p = bind (check_help-Ensures p) λ _ p1 h1.
      bind (parse_arg-Ensures _ _ _ _ p1 (λ v q. returns refl)) λ samples p2 h2.
        bind (parse_arg-Ensures _ _ _ _ p2 (λ v q. returns refl))
          λ number p3 h3. tail-Ensures _ p p3 (Leads-step h1 (Leads-step h2 h3))

  -- On every command line and for every configuration library, the `parse_args` of z_put, z_delete,
  -- z_pub, z_sub, z_queryable, z_get, z_info and z_sub_thr returns or exits with a message. It returns
  -- only if every argument was consumed, with one block of memory more than before and as many entries
  -- in the array.
  pub programs_parse_all :
      (p : Process)
      → Ensures (λ _ q. AllParsed p q) (Put.parse_args api p)
        × Ensures (λ _ q. AllParsed p q) (Delete.parse_args api p)
        × Ensures (λ _ q. AllParsed p q) (Pub.parse_args api p)
        × Ensures (λ _ q. AllParsed p q) (Sub.parse_args api p)
        × Ensures (λ _ q. AllParsed p q) (Queryable.parse_args api p)
        × Ensures (λ _ q. AllParsed p q) (Get.parse_args api p)
        × Ensures (λ _ q. AllParsed p q) (Info.parse_args api p)
        × Ensures (λ _ q. AllParsed p q) (SubThr.parse_args api p)
  programs_parse_all p = (
    put_parses_all p,
    delete_parses_all p,
    pub_parses_all p,
    sub_parses_all p,
    queryable_parses_all p,
    get_parses_all p,
    info_parses_all p,
    sub_thr_parses_all p,
  )
