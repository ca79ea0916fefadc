-- ===== src/Config.antt =====
-- examples/parse_args.h, the functions that build the session's configuration, and those that read
-- the query target and the priority. The configuration library is a parameter.
pub mod Drain
pub mod Values
pub mod JsonList
pub mod Repeated
pub mod Quoted
pub mod Pairs
pub mod Common
pub mod Choices
pub mod Steps
use zenoh_flat_c.Base.{
  ℕ, zero, suc, ◌+◌, ◌-◌, ◌||◌, Bool, true, false, Option, none, some, [], ◌∷◌, ◌++◌, ltb, ◌==◌,
  if◌then◌else◌, length, take,
}
use zenoh_flat_c.Base.Int.{ℤ, pos, negsuc}
use zenoh_flat_c.Base.Text.{Str, codes, str_eq, split_char, snprintf, atoi}
use zenoh_flat_c.Process.{
  Process, complaint, Run, fault, out_of_fuel, Cmd, pure, exit_with, ◌>>=◌, ◌>>◌, allocate, free,
  Block,
}
use zenoh_flat_c.Args.{parse_opt, parse_arg_text, check_flag}
use zenoh_flat_c.Enums.{
  QueryTarget, best_matching, all, all_complete, Priority, priority_value, priority_of, real_time,
  background,
}

-- `z_config_default`, `z_config_from_file` and `z_config_insert_json5`; `none` is a failure.
pub record ConfigApi : Type 1 where
  pub Config : Type 0
  pub default : Config
  pub from_file : Str → Option Config
  pub insert_json5 : Config → Str → Str → Option Config

abbrev pub mode_key : Str
mode_key = codes "mode"

abbrev pub connect_key : Str
connect_key = codes "connect/endpoints"

abbrev pub listen_key : Str
listen_key = codes "listen/endpoints"

abbrev pub multicast_scouting_key : Str
multicast_scouting_key = codes "scouting/multicast/enabled"

abbrev pub not_inserted : Str → Str → Str
not_inserted value key =
    codes "Couldn't insert value `"
    ++ (value ++ (codes "` in configuration at `" ++ (key ++ codes "`\n")))

-- One round of the loop of `parse_zenoh_json_list_config`: a larger buffer with one more value.
unfoldable pub append_value : Block × Str → Str → Cmd (Block × Str)
append_value (block, buf) value = do
  new_block ← allocate
  let newbuf =
      snprintf (length buf + length value + 4) (buf ++ (b'\'' ∷ (value ++ (b'\'' ∷ b',' ∷ []))))
  free block
  pure (new_block, newbuf)

unfoldable pub values_loop : ℕ → Str → Str → Block × Str → Option Str → Cmd (Block × Str)
values_loop zero opt_short opt_long buf value = λ _. out_of_fuel
values_loop (suc fuel) opt_short opt_long buf none = pure buf
values_loop (suc fuel) opt_short opt_long buf (some value) = do
  newbuf ← append_value buf value
  next ← parse_arg_text opt_short opt_long
  values_loop fuel opt_short opt_long newbuf next

abbrev pub no_pair : Str → Str
no_pair value = codes "--cfg` argument: expected KEY:VALUE pair, got " ++ (value ++ codes " ")

abbrev pub wrong_mode : Str → Str
wrong_mode mode =
    codes "Couldn't insert value `"
    ++ (mode
        ++ (codes "` at `"
            ++ (mode_key ++ codes "`. Value must be one of: 'client', 'peer' or 'router'\n")))

abbrev pub no_file : Str → Str
no_file file = codes "Couldn't read configuration from file `" ++ (file ++ codes "`\n")

-- The values of a repeated option, each between quotes and with a comma behind it; `block` is the
-- buffer that is there at first.
unfoldable pub collect_values : Str → Str → Block → Cmd (Block × Str)
collect_values opt_short opt_long block = do
  value ← parse_arg_text opt_short opt_long
  λ p. values_loop (suc (suc (length p.argv))) opt_short opt_long (block, []) value p

module _ (api : ConfigApi) where
  open api use {Config, default, from_file, insert_json5}

  -- `z_config_insert_json5`, with what is done before `exit` where it fails.
  unfoldable pub insert_or_exit : Config → Str → Str → Str → Cmd (Unit {0}) → Cmd Config
  insert_or_exit config key value message cleanup = elim (insert_json5 config key value) [
    | none ↦ do cleanup; exit_with (complaint message)
    | some config' ↦ pure config'
  ]

  -- The end of `parse_zenoh_json_list_config`, from `buflen = strlen(buf)`.
  unfoldable pub insert_list : Str → Config → Block × Str → Cmd Config
  insert_list key config (block, []) = do free block; pure config
  insert_list key config (block, c ∷ text) = do
    let buf = take (length (c ∷ text) - 1) (c ∷ text)
    json_block ← allocate
    let json_list = snprintf (length (c ∷ text) - 1 + 3) (b'[' ∷ (buf ++ (b']' ∷ [])))
    config' ← insert_or_exit config key json_list (not_inserted json_list key) (free json_block)
    free json_block
    free block
    pure config'

  unfoldable pub parse_zenoh_json_list_config : Str → Str → Str → Config → Cmd Config
  parse_zenoh_json_list_config opt_short opt_long config_key config = do
    block ← allocate
    buf ← collect_values opt_short opt_long block
    insert_list config_key config buf

  -- The body of the loop of `parse_zenoh_json_list_cfg`, up to the next value.
  unfoldable pub insert_pair : Config → Str → Cmd Config
  insert_pair config value = elim (split_char b':' value) [
    | none ↦ exit_with (complaint (no_pair value))
    | some (key, val) ↦ insert_or_exit config key val (not_inserted val key) (pure tt)
  ]

  unfoldable pub cfg_loop : ℕ → Str → Config → Option Str → Cmd Config
  cfg_loop zero opt_long config value = λ _. out_of_fuel
  cfg_loop (suc fuel) opt_long config none = pure config
  cfg_loop (suc fuel) opt_long config (some value) = do
    config' ← insert_pair config value
    next ← parse_opt opt_long true
    cfg_loop fuel opt_long config' next

  -- The buffer that is allocated first is never used and never freed.
  unfoldable pub parse_zenoh_json_list_cfg : Str → Config → Cmd Config
  parse_zenoh_json_list_cfg opt_long config = do
    allocate
    value ← parse_opt opt_long true
    λ p. cfg_loop (suc (suc (length p.argv))) opt_long config value p

  unfoldable pub initial_config : Option Str → Cmd Config
  initial_config none = pure default
  initial_config (some file) = elim (from_file file) [
    | none ↦ exit_with (complaint (no_file file))
    | some config ↦ pure config
  ]

  unfoldable pub insert_mode : Config → Option Str → Cmd Config
  insert_mode config none = pure config
  insert_mode config (some mode) = do
    block ← allocate
    let buf = snprintf (length mode + 3) (b'\'' ∷ (mode ++ (b'\'' ∷ [])))
    config' ← insert_or_exit config mode_key buf (wrong_mode mode) (free block)
    free block
    pure config'

  unfoldable pub insert_no_scouting : Config → Bool → Cmd Config
  insert_no_scouting config false = pure config
  insert_no_scouting config true =
      insert_or_exit config multicast_scouting_key (codes "false")
        (codes "Couldn't disable multicast-scouting.\n") (pure tt)

  unfoldable pub parse_zenoh_common_args : Cmd Config
  parse_zenoh_common_args = do
    config_file ← parse_arg_text (codes "c") (codes "config")
    config ← initial_config config_file
    mode ← parse_arg_text (codes "m") (codes "mode")
    with_mode ← insert_mode config mode
    with_connect ← parse_zenoh_json_list_config (codes "e") (codes "connect") connect_key with_mode
    with_listen ← parse_zenoh_json_list_config (codes "l") (codes "listen") listen_key with_connect
    with_cfg ← parse_zenoh_json_list_cfg (codes "cfg") with_listen
    no_multicast_scouting ← check_flag (codes "no-multicast-scouting")
    insert_no_scouting with_cfg no_multicast_scouting

unfoldable pub parse_query_target : Str → Cmd QueryTarget
parse_query_target arg =
    if str_eq arg (codes "BEST_MATCHING")
    then pure best_matching
    else if str_eq arg (codes "ALL")
    then pure all
    else if str_eq arg (codes "ALL_COMPLETE")
    then pure all_complete
    else exit_with (complaint (codes "Unsupported query target value [" ++ (arg ++ codes "]\n")))

-- `p < RealTime || p > Background`
unfoldable pub is_no_priority : ℤ → Bool
is_no_priority (negsuc n) = true
is_no_priority (pos n) = ltb n (priority_value real_time) || ltb (priority_value background) n

abbrev pub unsupported_priority : Str → Str
unsupported_priority arg = codes "Unsupported priority value [" ++ (arg ++ codes "]\n")

-- A number that is no value of the enumeration would be a fault.
abbrev pub as_priority : ℤ → Cmd Priority
as_priority (negsuc n) = λ _. fault
as_priority (pos n) = elim (priority_of n) [ none ↦ λ _. fault | some q ↦ pure q ]

unfoldable pub parse_priority : Str → Cmd Priority
parse_priority arg =
    if is_no_priority (atoi arg)
    then exit_with (complaint (unsupported_priority arg))
    else as_priority (atoi arg)
