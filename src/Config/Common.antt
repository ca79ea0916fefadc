-- ===== src/Config/Common.antt =====
-- `parse_zenoh_common_args`: the command line is read into settings, and the settings make the
-- configuration.
use zenoh_flat_c.Base.{
  ◌+◌, ◌≡◌, refl, Bool, true, false, Option, none, some, List, [], ◌∷◌, arith, length,
  length-append,
}
use zenoh_flat_c.Base.Text.{Str, codes, snprintf_fits}
use zenoh_flat_c.Process.{
  Block, Heap, fresh, grown, without-first, Argv, Process, ok, and_then, free, ◌>>◌,
}
use zenoh_flat_c.Args.{Scan, not_found, found, parse_arg_text, check_flag}
use zenoh_flat_c.Args.Pull.{pull, scan_argv, parse_arg_text-pull, parse_opt-scan_argv}
use zenoh_flat_c.Config.{
  ConfigApi, initial_config, insert_mode, insert_no_scouting, parse_zenoh_common_args, mode_key,
  connect_key, listen_key, multicast_scouting_key, wrong_mode, no_file,
}
use zenoh_flat_c.Config.Drain.{Drains}
use zenoh_flat_c.Config.Values.{process}
use zenoh_flat_c.Config.JsonList.{
  Configured, configured, rejected, finish, insertion, stored, quote, insert_or_exit-free,
  parse_zenoh_json_list_config-Drains,
}
use zenoh_flat_c.Config.Pairs.{
  and_configure, finish_then, pairs_stored, insert_or_exit-pure, parse_zenoh_json_list_cfg-Drains,
}

-- What the common options say.
pub record Settings : Type 0 where
  pub file : Option Str
  pub mode : Option Str
  pub connect : List Str
  pub listen : List Str
  pub cfg : List Str
  pub no_multicast_scouting : Bool

-- An option that is taken once.
pub data Takes (take : Argv → Scan) : Argv → Option Str → Argv → Type 0 where
  nothing : {xs : Argv} → take xs ≡ not_found → Takes take xs none xs
  value : {xs ys : Argv} {v : Str} → take xs ≡ found v ys → Takes take xs (some v) ys

pub data TakesFlag (take : Argv → Scan) : Argv → Bool → Argv → Type 0 where
  unset : {xs : Argv} → take xs ≡ not_found → TakesFlag take xs false xs
  set : {xs ys : Argv} {v : Str} → take xs ≡ found v ys → TakesFlag take xs true ys

-- The settings stand in the array `a`, and `b` is left without them. A later option of the same name
-- is left for the check for unknown options.
pub record Reads (a : Argv) (s : Settings) (b : Argv) : Type 0 where
  pub after_file : Argv
  pub after_mode : Argv
  pub after_connect : Argv
  pub after_listen : Argv
  pub after_cfg : Argv
  pub reads_file : Takes (pull (codes "c") (codes "config")) a s.file after_file
  pub reads_mode : Takes (pull (codes "m") (codes "mode")) after_file s.mode after_mode
  pub reads_connect : Drains (pull (codes "e") (codes "connect")) after_mode s.connect after_connect
  pub reads_listen : Drains (pull (codes "l") (codes "listen")) after_connect s.listen after_listen
  pub reads_cfg : Drains (scan_argv (codes "cfg") true) after_listen s.cfg after_cfg
  pub reads_scouting :
      TakesFlag
        (scan_argv (codes "no-multicast-scouting") false)
        after_cfg
        s.no_multicast_scouting
        b

pub parse_arg_text-Takes :
    (s l : Str) {a b : Argv} {o : Option Str} (n : Heap)
    → Takes (pull s l) a o b
    → parse_arg_text s l (process a n) ≡ ok o (process b n)
parse_arg_text-Takes s l {a} n (nothing e) = rw (parse_arg_text-pull s l (process a n), e)
parse_arg_text-Takes s l {a} n (value e) = rw (parse_arg_text-pull s l (process a n), e)

check_flag-TakesFlag :
    (l : Str) {a b : Argv} {o : Bool} (n : Heap)
    → TakesFlag (scan_argv l false) a o b
    → check_flag l (process a n) ≡ ok o (process b n)
unfolding check_flag
check_flag-TakesFlag l {a} n (unset e) = rw (parse_opt-scan_argv l false (process a n), e)
check_flag-TakesFlag l {a} n (set e) = rw (parse_opt-scan_argv l false (process a n), e)

module _ (api : ConfigApi) where
  open api use {Config, default, from_file, insert_json5}

  abbrev pub loaded : Option Config → Str → Configured Config
  loaded none file = rejected (no_file file)
  loaded (some config) file = configured config

  abbrev pub file_loaded : Option Str → Configured Config
  file_loaded none = configured default
  file_loaded (some file) = loaded (from_file file) file

  abbrev pub mode_stored : Config → Option Str → Configured Config
  mode_stored config none = configured config
  mode_stored config (some mode) =
      insertion api (insert_json5 config mode_key (quote mode)) (wrong_mode mode)

  abbrev pub scouting_stored : Config → Bool → Configured Config
  scouting_stored config false = configured config
  scouting_stored config true =
      insertion api (insert_json5 config multicast_scouting_key (codes "false"))
        (codes "Couldn't disable multicast-scouting.\n")

  -- The configuration that the settings make.
  unfoldable pub configure : Settings → Configured Config
  configure s = and_configure (file_loaded s.file) λ c0. and_configure (mode_stored c0 s.mode) λ c1.
      and_configure (stored api connect_key c1 s.connect) λ c2.
        and_configure (stored api listen_key c2 s.listen) λ c3.
          and_configure (pairs_stored api c3 s.cfg) λ c4. scouting_stored c4 s.no_multicast_scouting

  pub initial_config_lem :
      (file : Option Str) (p : Process) → initial_config api file p ≡ finish (file_loaded file) p
  unfolding initial_config
  initial_config_lem none p = refl
  initial_config_lem (some file) p = go (from_file file) refl
    where
      go :
          (o : Option Config)
          → from_file file ≡ o
          → initial_config api (some file) p ≡ finish (file_loaded (some file)) p
      go none e = rw (e, initial_config)
      go (some c) e = rw (e, initial_config)

  free_once :
      (o : Option Config) (message : Str) (a : Argv) (b : Block) (n : Heap)
      → and_then
          (finish (insertion api o message) (process a (b ∷ n)))
          (λ config. free b >> ok config)
        ≡ finish (insertion api o message) (process a n)
  free_once none message a b n = refl
  free_once (some c) message a b n = rw (without-first b n) refl

  pub insert_mode_lem :
      (config : Config) (mode : Option Str) (a : Argv) (n : Heap)
      → insert_mode api config mode (process a n) ≡ finish (mode_stored config mode) (process a n)
  unfolding insert_mode
  insert_mode_lem config none a n = refl
  insert_mode_lem config (some mode) a n =
      rw
        (
          snprintf_fits (length mode + 3) (quote mode)
              (omega (arith, length-append mode (b'\'' ∷ []))),
          insert_or_exit-free api config mode_key (quote mode) (wrong_mode mode) a (fresh n) n,
        )
        (free_once _ _ a (fresh n) n)

  pub insert_no_scouting_lem :
      (config : Config) (no_scouting : Bool) (p : Process)
      → insert_no_scouting api config no_scouting p ≡ finish (scouting_stored config no_scouting) p
  unfolding insert_no_scouting
  insert_no_scouting_lem config false p = refl
  insert_no_scouting_lem config true p = insert_or_exit-pure api config _ _ _ p

  -- From a command line that reads as the settings `s`, with the arguments `b` left over, the
  -- function makes the configuration of `s`, or exits with the complaint of the first step that is
  -- refused. The block that `parse_zenoh_json_list_cfg` allocates is the only one that stays.
  pub parse_zenoh_common_args-Reads :
      (a b : Argv) (s : Settings) (n : Heap)
      → Reads a s b
      → parse_zenoh_common_args api (process a n) ≡ finish (configure s) (process b (grown n))
  unfolding parse_zenoh_common_args configure
  parse_zenoh_common_args-Reads a b s n r =
      rw
        (
          parse_arg_text-Takes _ _ n r.reads_file,
          initial_config_lem s.file (process r.after_file n),
        )
        (finish_then (file_loaded s.file) _ _ _ _ λ c0.
          rw (parse_arg_text-Takes _ _ n r.reads_mode, insert_mode_lem c0 s.mode r.after_mode n)
            (finish_then (mode_stored c0 s.mode) _ _ _ _ λ c1.
              rw
                (parse_zenoh_json_list_config-Drains api _ _ connect_key c1 _ _ n _ r.reads_connect)
                (finish_then (stored api connect_key c1 s.connect) _ _ _ _ λ c2.
                  rw
                    (parse_zenoh_json_list_config-Drains api _ _ listen_key c2 _ _ n _
                      r.reads_listen)
                    (finish_then (stored api listen_key c2 s.listen) _ _ _ _ λ c3.
                      rw (parse_zenoh_json_list_cfg-Drains api _ c3 _ _ n _ r.reads_cfg) (
                        finish_then (pairs_stored api c3 s.cfg) _ _ _ _ λ c4.
                          rw (check_flag-TakesFlag _ (grown n) r.reads_scouting)
                            (insert_no_scouting_lem c4 s.no_multicast_scouting _))))))
