-- ===== src/Examples/Runs.antt =====
-- A whole run of a program: its command line is read, and then `main` goes on, or the process exits.
use zenoh_flat_c.Base.{ℕ, ◌≡◌, true, some, [], ◌∷◌, List}
use zenoh_flat_c.Base.Text.{Str, codes}
use zenoh_flat_c.Process.{Process, Run, Exit}
use zenoh_flat_c.Process.Ensures.{Ensures, returns, quits}
use zenoh_flat_c.Config.{ConfigApi}
use zenoh_flat_c.Trace.{Trace, config}
use zenoh_flat_c.Trace.Ledger.{Owned, ledger}
use zenoh_flat_c.Examples.{Answers, Ran, ran, exited, run_with}
use zenoh_flat_c.Examples.Parsing.{programs_parse_all}
use zenoh_flat_c.Examples.Put.Ownership.{put_ownership}
use zenoh_flat_c.Examples.Delete.Ownership.{delete_ownership}
use zenoh_flat_c.Examples.Get.Ownership.{get_ownership}
use zenoh_flat_c.Examples.Info.Ownership.{info_ownership}
use zenoh_flat_c.Examples.Pub.Ownership.{pub_ownership}
use zenoh_flat_c.Examples.Sub.Ownership.{sub_ownership}
use zenoh_flat_c.Examples.Queryable.Ownership.{queryable_ownership}
use zenoh_flat_c.Examples.PubThr.Size.{pub_thr_parses_size}
use zenoh_flat_c.Examples.PubThr.Ownership.{pub_thr_ownership}
use zenoh_flat_c.Examples.SubThr.Ownership.{sub_thr_ownership}
use zenoh_flat_c.Examples.Programs.{
  put_program, delete_program, get_program, info_program, pub_program, sub_program,
  queryable_program, pub_thr_program, sub_thr_program,
}

-- The run exited within `parse_args`, or it returned from `main` with nothing owned.
pub data Clean : Ran → Type 0 where
  left_early : {e : Exit} → Clean (exited e)
  returned : {trace : Trace} → ledger trace (config ∷ []) ≡ some [] → Clean (ran trace)

run_with-Clean :
    {A : Type 0} {Q : A → Process → Type 0} (main : A → Trace) (r : Run A)
    → Ensures Q r
    → ((a : A) → ledger (main a) (config ∷ []) ≡ some [])
    → Clean (run_with main r)
run_with-Clean main r (returns {a = a} q) owns_none = returned (owns_none a)
run_with-Clean main r quits owns_none = left_early

-- The run exited within `parse_args`, or it goes on and has used only what it owned.
pub data Safe : Ran → Type 0 where
  exits_early : {e : Exit} → Safe (exited e)
  goes_on :
      {trace : Trace} (owned : Owned) → ledger trace (config ∷ []) ≡ some owned → Safe (ran trace)

run_with-Safe :
    {A : Type 0} {Q : A → Process → Type 0} (main : A → Trace) (r : Run A)
    → Ensures Q r
    → ((a : A) → (owned : Owned) × (ledger (main a) (config ∷ []) ≡ some owned))
    → Safe (run_with main r)
run_with-Safe main r (returns {a = a} q) owns = let (owned, e) = owns a in goes_on owned e
run_with-Safe main r quits owns = exits_early

-- On every command line, for every configuration library, and whatever the flat API answers, if
-- `test/thr` is a key expression: z_put, z_delete, z_get and z_info exit with a message while they read
-- their arguments, or run to the end of `main`, use only what they own, and own nothing when they
-- return. z_pub, z_sub, z_queryable, z_pub_thr and z_sub_thr exit with a message while they read their
-- arguments, or have used only what they own after any number of rounds.
pub runs_clean :
    (api : ConfigApi) (answers : Answers) (own : Str) (routers peers : List Str) (rounds : ℕ)
    (line : Process)
    → answers.is_keyexpr (codes "test/thr") ≡ true
    → Clean (put_program api answers line)
      × Clean (delete_program api answers line)
      × Clean (get_program api answers line)
      × Clean (info_program api answers own routers peers line)
      × Safe (pub_program api answers rounds line)
      × Safe (sub_program api answers rounds line)
      × Safe (queryable_program api answers rounds line)
      × Safe (pub_thr_program api answers rounds line)
      × Safe (sub_thr_program api answers rounds line)
runs_clean api answers own routers peers rounds line valid =
    let (put, delete, pub_, sub, queryable, get, info, sub_thr) = programs_parse_all api line in
    (
      run_with-Clean _ _ put (λ args. put_ownership answers args.0),
      run_with-Clean _ _ delete (λ args. delete_ownership answers args.0),
      run_with-Clean _ _ get (λ args. get_ownership answers args.0),
      run_with-Clean _ _ info (λ config. info_ownership answers own routers peers),
      run_with-Safe _ _ pub_ (λ args. (_, pub_ownership answers args.0 rounds)),
      run_with-Safe _ _ sub (λ args. (_, sub_ownership answers args.0 rounds)),
      run_with-Safe _ _ queryable (λ args. (_, queryable_ownership answers args.0 rounds)),
      run_with-Safe _ _ (pub_thr_parses_size api line)
          (λ args. (_, pub_thr_ownership answers args.0 rounds valid)),
      run_with-Safe _ _ sub_thr (λ args. (_, sub_thr_ownership answers args.0 rounds valid)),
    )
