-- ===== src/Config/Steps.antt =====
-- How the functions of examples/parse_args.h that build the configuration end.
use zenoh_flat_c.Base.{ℕ, zero, suc, ◌+◌, ◌<◌, ◌≡◌, refl, ◌⊎◌, inl, inr, true, List, arith, length}
use zenoh_flat_c.Base.Text.{Str, split_char}
use zenoh_flat_c.Process.{Heap, grown, Argv, Process, Run, exits, Exit, complaint, Cmd, and_then}
use zenoh_flat_c.Process.Ensures.{Ensures, returns, quits, bind}
use zenoh_flat_c.Args.{Scan, found}
use zenoh_flat_c.Args.Pull.{
  live, pull, scan_argv, from_scan, Shrinks, parse_opt-scan_argv, scan_argv-Shrinks, pull-Shrinks,
}
use zenoh_flat_c.Args.Steps.{Leads, Leads-step, parse_arg_text-Ensures, check_flag-Ensures}
use zenoh_flat_c.Config.{
  ConfigApi, cfg_loop, parse_zenoh_json_list_cfg, parse_zenoh_json_list_config,
  parse_zenoh_common_args, connect_key, listen_key,
}
use zenoh_flat_c.Config.Drain.{Drains, done, more, Stops, now, later, live-le-length, Ends-total}
use zenoh_flat_c.Config.Values.{process}
use zenoh_flat_c.Config.JsonList.{
  Configured, configured, rejected, finish, stored, parse_zenoh_json_list_config-Drains,
  parse_zenoh_json_list_config-Stops,
}
use zenoh_flat_c.Config.Pairs.{
  pairs_stored, pair_stored, insert_pair_lem, parse_zenoh_json_list_cfg-Drains,
}
use zenoh_flat_c.Config.Common.{
  file_loaded, mode_stored, scouting_stored, initial_config_lem, insert_mode_lem,
  insert_no_scouting_lem,
}

Drains-Leads :
    {take : Argv → Scan} {a b : Argv} {vs : List Str} (k : ℕ) (n m : Heap)
    → length m ≡ length n + k
    → ((xs : Argv) (v : Str) (r : Argv) → take xs ≡ found v r → Shrinks xs r)
    → Drains take a vs b
    → Leads k (process a n) (process b m)
Drains-Leads k n m h shrinks (done e) = omega arith
Drains-Leads k n m h shrinks (more {xs = xs} {ys = ys} {v = v} e d) =
    let first = shrinks xs v ys e in let rest = Drains-Leads k n m h shrinks d in omega arith

finish-Ensures :
    {C : Type 0} (o : Configured C) (p q : Process) (k : ℕ)
    → Leads k p q
    → Ensures (λ _ r. Leads k p r) (finish o q)
finish-Ensures (configured c) p q k h = returns h
finish-Ensures (rejected m) p q k h = quits

module _ (api : ConfigApi) where
  open api use {Config}

  list_config-Ensures :
      (s l key : Str) (config : Config) (p : Process)
      → Ensures (λ _ q. Leads 0 p q) (parse_zenoh_json_list_config api s l key config p)
  list_config-Ensures s l key config p = go (Ends-total (pull s l) (pull-Shrinks s l) p.argv)
    where
      go :
          ((vs : List Str) × (ys : Argv) × Drains (pull s l) p.argv vs ys)
            ⊎ ((m : Str) × Stops (pull s l) m p.argv)
          → Ensures (λ _ q. Leads 0 p q) (parse_zenoh_json_list_config api s l key config p)
      go (inl (vs, ys, d)) =
          let lead = Drains-Leads 0 p.blocks p.blocks (omega arith) (pull-Shrinks s l) d in
          rw (parse_zenoh_json_list_config-Drains api s l key config p.argv ys p.blocks vs d)
            (finish-Ensures (stored api key config vs) p (process ys p.blocks) 0 (omega arith))
      go (inr (m, st)) =
          rw (parse_zenoh_json_list_config-Stops api s l key config p.argv p.blocks m st) quits

  abbrev Quits : {A : Type 0} → Run A → Type 0
  Quits r = (e : Exit) × (r ≡ exits e)

  finish-Quits :
      {C D : Type 0} (o : Configured C) (k : C → Cmd D) (p : Process)
      → ((c : C) → Quits (k c p))
      → Quits (and_then (finish o p) k)
  finish-Quits (configured c) k p h = h c
  finish-Quits (rejected m) k p h = (complaint m, refl)

  module _ (l : Str) where
    cfg_loop-Stops :
        (fuel : ℕ) (n : Heap) {a : Argv} {m : Str} (config : Config)
        → live a < fuel
        → Stops (scan_argv l true) m a
        → Quits
            (and_then (from_scan (process a n) (scan_argv l true a)) (cfg_loop api fuel l config))
    unfolding cfg_loop
    cfg_loop-Stops zero n config h d = absurd (omega arith)
    cfg_loop-Stops (suc fuel) n {m = m} config h (now e) = rw e (complaint m, refl)
    cfg_loop-Stops (suc fuel) n {a} config h (later {ys = ys} {v = v} e d) =
        let fewer = scan_argv-Shrinks l true a v ys e in
        rw (e, insert_pair_lem api config v (process ys n))
          (finish-Quits (pair_stored api config (split_char b':' v) v) _ (process ys n) (λ c.
            rw (parse_opt-scan_argv l true (process ys n))
              (cfg_loop-Stops fuel n c (omega arith) d)))

    cfg-Stops :
        (n : Heap) {a : Argv} {m : Str} (config : Config)
        → Stops (scan_argv l true) m a
        → Quits (parse_zenoh_json_list_cfg api l config (process a n))
    unfolding parse_zenoh_json_list_cfg cfg_loop
    cfg-Stops n {a} {m} config (now e) =
        rw (parse_opt-scan_argv l true (process a (grown n)), e) (complaint m, refl)
    cfg-Stops n {a} config (later {ys = ys} {v = v} e d) =
        rw
          (
            parse_opt-scan_argv l true (process a (grown n)),
            e,
            insert_pair_lem api config v (process ys (grown n)),
          )
          (finish-Quits (pair_stored api config (split_char b':' v) v) _ (process ys (grown n))
            (λ c.
              rw (parse_opt-scan_argv l true (process ys (grown n))) (
                cfg_loop-Stops (suc (length ys)) (grown n) c (omega (arith, live-le-length ys)) d)))

    cfg-Ensures :
        (config : Config) (p : Process)
        → Ensures (λ _ q. Leads 1 p q) (parse_zenoh_json_list_cfg api l config p)
    cfg-Ensures config p = go (Ends-total (scan_argv l true) (scan_argv-Shrinks l true) p.argv)
      where
        go :
            ((vs : List Str) × (ys : Argv) × Drains (scan_argv l true) p.argv vs ys)
              ⊎ ((m : Str) × Stops (scan_argv l true) m p.argv)
            → Ensures (λ _ q. Leads 1 p q) (parse_zenoh_json_list_cfg api l config p)
        go (inl (vs, ys, d)) =
            let lead =
              Drains-Leads 1 p.blocks (grown p.blocks) (omega arith) (scan_argv-Shrinks l true) d in
            rw (parse_zenoh_json_list_cfg-Drains api l config p.argv ys p.blocks vs d) (
              finish-Ensures (pairs_stored api config vs) p (process ys (grown p.blocks)) 1
                (omega arith))
        go (inr (m, st)) = let (e, q) = cfg-Stops p.blocks config st in rw q quits

  -- On every command line, whatever the configuration library answers, the function returns or exits
  -- with a message: its loops end, and it frees no block that is not allocated. When it returns, one
  -- block more is allocated than before, and no argument was added.
  pub parse_zenoh_common_args-Ensures :
      (p : Process) → Ensures (λ _ q. Leads 1 p q) (parse_zenoh_common_args api p)
  unfolding parse_zenoh_common_args
  parse_zenoh_common_args-Ensures p = bind (parse_arg_text-Ensures _ _ p) λ file p1 h1.
      rw (initial_config_lem api file p1) (
        bind (finish-Ensures (file_loaded api file) p p1 0 h1) λ c0 p2 h2.
          bind (parse_arg_text-Ensures _ _ p2) λ mode p3 h3.
            rw (insert_mode_lem api c0 mode p3.argv p3.blocks) (
              bind (finish-Ensures (mode_stored api c0 mode) p p3 0 (Leads-step h2 h3)) λ c1 p4 h4.
                bind (list_config-Ensures _ _ connect_key c1 p4) λ c2 p5 h5.
                  bind (list_config-Ensures _ _ listen_key c2 p5) λ c3 p6 h6.
                    bind (cfg-Ensures _ c3 p6) λ c4 p7 h7. bind (check_flag-Ensures _ p7) λ b p8 h8.
                      rw (insert_no_scouting_lem api c4 b p8)
                        (finish-Ensures (scouting_stored api c4 b) p p8 1 (omega arith))))
