-- ===== src/Examples/Programs.antt =====
-- `main` of each program of examples/ from its beginning: `parse_args`, and what follows with what it
-- returned.
use zenoh_flat_c.Base.{ℕ, List}
use zenoh_flat_c.Base.Text.{Str}
use zenoh_flat_c.Process.{Process}
use zenoh_flat_c.Config.{ConfigApi}
use zenoh_flat_c.Examples.{Answers, Ran, run_with}
use zenoh_flat_c.Examples.Put
use zenoh_flat_c.Examples.Delete
use zenoh_flat_c.Examples.Get
use zenoh_flat_c.Examples.Info
use zenoh_flat_c.Examples.Pub
use zenoh_flat_c.Examples.Sub
use zenoh_flat_c.Examples.Queryable
use zenoh_flat_c.Examples.PubThr
use zenoh_flat_c.Examples.SubThr

module _ (api : ConfigApi) (answers : Answers) where
  abbrev pub put_program : Process → Ran
  put_program line = run_with (λ args. Put.main answers args.0) (Put.parse_args api line)

  abbrev pub delete_program : Process → Ran
  delete_program line = run_with (λ args. Delete.main answers args.0) (Delete.parse_args api line)

  abbrev pub get_program : Process → Ran
  get_program line = run_with (λ args. Get.main answers args.0) (Get.parse_args api line)

  abbrev pub info_program : Str → List Str → List Str → Process → Ran
  info_program own routers peers line =
      run_with (λ config. Info.main answers own routers peers) (Info.parse_args api line)

  abbrev pub pub_program : ℕ → Process → Ran
  pub_program rounds line =
      run_with (λ args. Pub.main answers args.0 rounds) (Pub.parse_args api line)

  abbrev pub sub_program : ℕ → Process → Ran
  sub_program rounds line =
      run_with (λ args. Sub.main answers args.0 rounds) (Sub.parse_args api line)

  abbrev pub queryable_program : ℕ → Process → Ran
  queryable_program rounds line =
      run_with (λ args. Queryable.main answers args.0 rounds) (Queryable.parse_args api line)

  abbrev pub pub_thr_program : ℕ → Process → Ran
  pub_thr_program rounds line =
      run_with (λ args. PubThr.main answers args.0 rounds) (PubThr.parse_args api line)

  abbrev pub sub_thr_program : ℕ → Process → Ran
  sub_thr_program rounds line =
      run_with (λ args. SubThr.main answers args.0 rounds) (SubThr.parse_args api line)
