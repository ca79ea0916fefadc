-- ===== src/Config/Pairs.antt =====
-- `parse_zenoh_json_list_cfg` of examples/parse_args.h: the pairs KEY:VALUE, and the memory.
use zenoh_flat_c.Base.{
  ℕ, zero, suc, ◌<◌, ◌≡◌, refl, true, Option, none, some, List, [], ◌∷◌, arith, length,
}
use zenoh_flat_c.Base.Text.{Str, split_char}
use zenoh_flat_c.Process.{Heap, grown, Argv, Process, and_then, Cmd, pure}
use zenoh_flat_c.Args.Pull.{live, scan_argv, from_scan, parse_opt-scan_argv, scan_argv-Shrinks}
use zenoh_flat_c.Config.{
  ConfigApi, insert_or_exit, insert_pair, cfg_loop, parse_zenoh_json_list_cfg, not_inserted,
  no_pair,
}
use zenoh_flat_c.Config.Drain.{Drains, done, more, live-le-length}
use zenoh_flat_c.Config.Values.{process}
use zenoh_flat_c.Config.JsonList.{Configured, configured, rejected, finish, insertion}

abbrev pub and_configure : {C D : Type 0} → Configured C → (C → Configured D) → Configured D
and_configure (configured c) f = f c
and_configure (rejected message) f = rejected message

-- What follows a step that only changes the configuration.
pub finish_then :
    {C D : Type 0} (o : Configured C) (k : C → Cmd D) (f : C → Configured D) (p q : Process)
    → ((c : C) → k c p ≡ finish (f c) q)
    → and_then (finish o p) k ≡ finish (and_configure o f) q
finish_then (configured c) k f p q h = h c
finish_then (rejected message) k f p q h = refl

module _ (api : ConfigApi) where
  open api use {Config, insert_json5}

  -- One KEY:VALUE, split at its first colon.
  abbrev pub pair_stored : Config → Option (Str × Str) → Str → Configured Config
  pair_stored config none value = rejected (no_pair value)
  pair_stored config (some (key, val)) value =
      insertion api (insert_json5 config key val) (not_inserted val key)

  abbrev pub pairs_stored : Config → List Str → Configured Config
  pairs_stored config [] = configured config
  pairs_stored config (v ∷ vs) =
      and_configure (pair_stored config (split_char b':' v) v) (λ c. pairs_stored c vs)

  pub insert_or_exit-pure :
      (config : Config) (key value message : Str) (p : Process)
      → insert_or_exit api config key value message (pure tt) p
        ≡ finish (insertion api (insert_json5 config key value) message) p
  unfolding insert_or_exit
  insert_or_exit-pure config key value message p = go (insert_json5 config key value) refl
    where
      go :
          (o : Option Config)
          → insert_json5 config key value ≡ o
          → insert_or_exit api config key value message (pure tt) p
            ≡ finish (insertion api (insert_json5 config key value) message) p
      go none e = rw (e, insert_or_exit)
      go (some c) e = rw (e, insert_or_exit)

  pub insert_pair_lem :
      (config : Config) (v : Str) (p : Process)
      → insert_pair api config v p ≡ finish (pair_stored config (split_char b':' v) v) p
  unfolding insert_pair
  insert_pair_lem config v p = go (split_char b':' v) refl
    where
      go :
          (o : Option (Str × Str))
          → split_char b':' v ≡ o
          → insert_pair api config v p ≡ finish (pair_stored config (split_char b':' v) v) p
      go none e = rw (e, insert_pair)
      go (some (key, val)) e = rw (e, insert_pair) (insert_or_exit-pure config key val _ p)

  module _ (opt_long : Str) where
    cfg_loop_drained :
        (fuel : ℕ) (n : Heap) {a b : Argv} {vs : List Str} (config : Config)
        → live a < fuel
        → Drains (scan_argv opt_long true) a vs b
        → and_then
            (from_scan (process a n) (scan_argv opt_long true a))
            (cfg_loop api fuel opt_long config)
          ≡ finish (pairs_stored config vs) (process b n)
    unfolding cfg_loop
    cfg_loop_drained zero n config h d = absurd (omega arith)
    cfg_loop_drained (suc fuel) n config h (done e) = rw e
    cfg_loop_drained (suc fuel) n {a} {b} config h (more {ys = ys} {v = v} {vs = vs} e d) =
        let fewer = scan_argv-Shrinks opt_long true a v ys e in
        rw (e, insert_pair_lem config v (process ys n))
          (finish_then (pair_stored config (split_char b':' v) v) _ (λ c. pairs_stored c vs) _
            (process b n)
            (λ c.
              rw (parse_opt-scan_argv opt_long true (process ys n))
                (cfg_loop_drained fuel n c (omega arith) d)))

    -- The values `KEY:VALUE` are inserted in the order in which they are taken out of `argv`, up to
    -- the first that is refused. One block of memory stays allocated.
    pub parse_zenoh_json_list_cfg-Drains :
        (config : Config) (a b : Argv) (n : Heap) (vs : List Str)
        → Drains (scan_argv opt_long true) a vs b
        → parse_zenoh_json_list_cfg api opt_long config (process a n)
          ≡ finish (pairs_stored config vs) (process b (grown n))
    unfolding parse_zenoh_json_list_cfg cfg_loop
    parse_zenoh_json_list_cfg-Drains config a b n vs (done e) =
        rw (parse_opt-scan_argv opt_long true (process a (grown n)), e)
    parse_zenoh_json_list_cfg-Drains config a b n _ (more {ys = ys} {v = v} {vs = vs} e d) =
        rw
          (
            parse_opt-scan_argv opt_long true (process a (grown n)),
            e,
            insert_pair_lem config v (process ys (grown n)),
          )
          (finish_then (pair_stored config (split_char b':' v) v) _ (λ c. pairs_stored c vs) _
            (process b (grown n))
            (λ c. rw (parse_opt-scan_argv opt_long true (process ys (grown n))) (
              cfg_loop_drained (suc (length ys)) (grown n) c (omega (arith, live-le-length ys)) d)))
