-- ===== src/Tests.antt =====
-- Runs on concrete command lines and answers of the library, and the theorems at concrete data.
pub mod Options
pub mod Configurations
pub mod CommandLines
pub mod Effects
pub mod EndToEnd
pub mod Programs
pub mod Threads
pub mod Types
pub mod Doubles
pub mod Deliveries
use zenoh_flat_c.Base.{
  ℕ, zero, suc, ◌+◌, ◌*◌, ◌^◌, ◌≡◌, refl, ◌↔◌, Bool, true, false, not, ◌&&◌, Option, none, some,
  List, [], ◌∷◌, ◌++◌, ltb, ◌==◌, if◌then◌else◌, length, arith,
}
use zenoh_flat_c.Base.Int.{pos}
use zenoh_flat_c.Base.Text.{
  Str, codes, str_eq, split_char, starts_with, atoi, is_space, is_digit, digits_value, signed_value,
}
use zenoh_flat_c.Base.Decimal.{decimal}
use zenoh_flat_c.Enums.{
  all, Priority, data_high, interactive_high, priority_value, best_matching, all, put, client,
}
use zenoh_flat_c.Process.{Argv, Process, Run, ok, exits, complaint, help_shown, Cmd}
use zenoh_flat_c.Process.Ensures.{Ensures}
use zenoh_flat_c.Args.{
  Scan, not_found, found, no_value, scan, form, is_short, is_long, short_without_value, parse_opt,
}
use zenoh_flat_c.Args.Names.{other_form}
use zenoh_flat_c.Args.Outcome.{Outcome}
use zenoh_flat_c.Args.Outcome.Complete.{scan-Outcome_iff}
use zenoh_flat_c.Args.Pull.{pull, scan_argv}
use zenoh_flat_c.Args.Steps.{Leads}
use zenoh_flat_c.Config.{
  ConfigApi, parse_zenoh_json_list_config, parse_zenoh_json_list_cfg, parse_zenoh_common_args,
  parse_priority, parse_query_target, connect_key,
}
use zenoh_flat_c.Config.Drain.{Drains, done, more, Stops, now, later}
use zenoh_flat_c.Config.Values.{process}
use zenoh_flat_c.Config.JsonList.{
  configured, finish, stored, parse_zenoh_json_list_config-Drains,
  parse_zenoh_json_list_config-Stops,
}
use zenoh_flat_c.Config.Repeated.{Foreign, pairs, pairs_taken, parse_zenoh_json_list_config-pairs}
use zenoh_flat_c.Config.Pairs.{pairs_stored, parse_zenoh_json_list_cfg-Drains}
use zenoh_flat_c.Config.Common.{
  Settings, Takes, nothing, value, TakesFlag, unset, set, Reads, configure,
  parse_zenoh_common_args-Reads,
}
use zenoh_flat_c.Config.Steps.{parse_zenoh_common_args-Ensures}
use zenoh_flat_c.Config.Choices.{
  target_name, parse_query_target_iff, parse_priority_iff, parse_priority-decimal,
}

-- A configuration library that keeps what is inserted, and refuses an empty key.
unfoldable pub keep_pair : List (Str × Str) → Str → Str → Option (List (Str × Str))
keep_pair config [] text = none
keep_pair config (c ∷ key) text = some (config ++ (c ∷ key, text) ∷ [])

abbrev pub list_api : ConfigApi
list_api = record {
  Config = List (Str × Str);
  default = [];
  from_file = λ file. some ((codes "file", file) ∷ []);
  insert_json5 = keep_pair;
}

abbrev pub arg : List ℕ → Option Str
arg text = some text
