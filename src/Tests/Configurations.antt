-- ===== src/Tests/Configurations.antt =====
-- Command lines that give a configuration, a priority and a query target.
use zenoh_flat_c.Base.{◌≡◌, refl, ◌↔◌, true, none, some, List, [], ◌∷◌}
use zenoh_flat_c.Base.Int.{pos, negsuc}
use zenoh_flat_c.Base.Text.{
  Str, codes, split_char, starts_with, atoi, strtol, leading_number, is_space, is_digit,
  digits_value, signed_value,
}
use zenoh_flat_c.Enums.{interactive_high, priority_value}
use zenoh_flat_c.Process.{fresh, Argv, ok}
use zenoh_flat_c.Process.Ensures.{Ensures}
use zenoh_flat_c.Args.{scan, form, is_short, is_long}
use zenoh_flat_c.Args.Pull.{scan_argv}
use zenoh_flat_c.Args.Steps.{Leads}
use zenoh_flat_c.Config.{parse_zenoh_json_list_cfg, parse_zenoh_common_args, parse_priority}
use zenoh_flat_c.Config.Drain.{Drains, done, more}
use zenoh_flat_c.Config.Values.{process}
use zenoh_flat_c.Config.JsonList.{configured, finish}
use zenoh_flat_c.Config.Pairs.{pairs_stored, parse_zenoh_json_list_cfg-Drains}
use zenoh_flat_c.Config.Common.{
  Settings, value, set, Reads, configure, parse_zenoh_common_args-Reads,
}
use zenoh_flat_c.Config.Steps.{parse_zenoh_common_args-Ensures}
use zenoh_flat_c.Config.Choices.{parse_priority_iff}
use zenoh_flat_c.Tests.{list_api, arg, keep_pair}

abbrev cfg_words : Argv
cfg_words =
    arg (codes "z_get")
    ∷ arg (codes "--cfg")
    ∷ arg (codes "mode:'peer'")
    ∷ arg (codes "--cfg=a/b:{c:1}")
    ∷ []

abbrev cfg_left : Argv
cfg_left = arg (codes "z_get") ∷ none ∷ none ∷ none ∷ []

abbrev cfg_values : List Str
cfg_values = codes "mode:'peer'" ∷ codes "a/b:{c:1}" ∷ []

cfg-Drains : Drains (scan_argv (codes "cfg") true) cfg_words cfg_values cfg_left
unfolding scan form is_short is_long starts_with split_char
cfg-Drains = more refl (more refl (done refl))

parse_zenoh_json_list_cfg-Drains_example :
    parse_zenoh_json_list_cfg list_api (codes "cfg") [] (process cfg_words [])
    ≡ finish (pairs_stored list_api [] cfg_values) (process cfg_left (0 ∷ []))
unfolding fresh
parse_zenoh_json_list_cfg-Drains_example =
    parse_zenoh_json_list_cfg-Drains list_api (codes "cfg") [] cfg_words cfg_left [] cfg_values
      cfg-Drains

-- A value is split at its first colon.
pairs_run :
    pairs_stored list_api [] cfg_values
    ≡ configured ((codes "mode", codes "'peer'") ∷ (codes "a/b", codes "{c:1}") ∷ [])
unfolding split_char keep_pair
pairs_run = refl

abbrev common_words : Argv
common_words =
    arg (codes "z_sub")
    ∷ arg (codes "-l")
    ∷ arg (codes "tcp/c:3")
    ∷ arg (codes "-m")
    ∷ arg (codes "client")
    ∷ arg (codes "--no-multicast-scouting")
    ∷ arg (codes "--config=f.json5")
    ∷ []

abbrev common_left : Argv
common_left = arg (codes "z_sub") ∷ none ∷ none ∷ none ∷ none ∷ none ∷ none ∷ []

abbrev settings : Settings
settings = record {
  file = some (codes "f.json5");
  mode = some (codes "client");
  connect = [];
  listen = codes "tcp/c:3" ∷ [];
  cfg = [];
  no_multicast_scouting = true;
}

common-Reads : Reads common_words settings common_left
unfolding scan form is_short is_long starts_with split_char
common-Reads = record {
  after_file = _;
  after_mode = _;
  after_connect = _;
  after_listen = _;
  after_cfg = _;
  reads_file = value refl;
  reads_mode = value refl;
  reads_connect = done refl;
  reads_listen = more refl (done refl);
  reads_cfg = done refl;
  reads_scouting = set refl;
}

parse_zenoh_common_args-Reads_example :
    parse_zenoh_common_args list_api (process common_words [])
    ≡ finish (configure list_api settings) (process common_left (0 ∷ []))
unfolding fresh
parse_zenoh_common_args-Reads_example =
    parse_zenoh_common_args-Reads list_api common_words common_left settings [] common-Reads

-- The keys are set in this order, the file first.
configure_run :
    configure list_api settings
    ≡ configured (
        (codes "file", codes "f.json5")
        ∷ (codes "mode", codes "'client'")
        ∷ (codes "listen/endpoints", codes "['tcp/c:3']")
        ∷ (codes "scouting/multicast/enabled", codes "false")
        ∷ [])
unfolding configure keep_pair
configure_run = refl

parse_zenoh_common_args-Ensures_example :
    Ensures
      (λ _ q. Leads 1 (process cfg_words (1 ∷ 0 ∷ [])) q)
      (parse_zenoh_common_args list_api (process cfg_words (1 ∷ 0 ∷ [])))
parse_zenoh_common_args-Ensures_example =
    parse_zenoh_common_args-Ensures list_api (process cfg_words (1 ∷ 0 ∷ []))

parse_priority_iff_example :
    (parse_priority (codes " +2x") (process [] []) ≡ ok interactive_high (process [] []))
    ↔ (atoi (codes " +2x") ≡ pos (priority_value interactive_high))
parse_priority_iff_example = parse_priority_iff (codes " +2x") interactive_high (process [] [])

two_run : atoi (codes " +2x") ≡ pos (priority_value interactive_high)
unfolding atoi is_space is_digit digits_value signed_value priority_value
two_run = refl

-- `atoi` keeps 32 bits.
wrapped_run : (atoi (codes "3000000000") ≡ negsuc 1294967295) × (atoi (codes "4294967297") ≡ pos 1)
unfolding atoi strtol leading_number is_space is_digit digits_value signed_value
wrapped_run = (refl, refl)
