-- ===== src/Tests/Options.antt =====
-- Command lines that `parse_opt` and the functions for repeated options read.
use zenoh_flat_c.Base.{◌≡◌, refl, ◌↔◌, true, none, List, [], ◌∷◌, ◌++◌, All, arith}
use zenoh_flat_c.Base.Text.{Str, codes, split_char, starts_with}
use zenoh_flat_c.Process.{Argv, exits, complaint}
use zenoh_flat_c.Args.{found, scan, form, is_short, is_long}
use zenoh_flat_c.Args.Names.{other_form}
use zenoh_flat_c.Args.Outcome.{Outcome}
use zenoh_flat_c.Args.Outcome.Complete.{scan-Outcome_iff}
use zenoh_flat_c.Args.Pull.{pull}
use zenoh_flat_c.Config.{parse_zenoh_json_list_config, connect_key, not_inserted}
use zenoh_flat_c.Config.Quoted.{quoted_texts, Unquoted, parse_zenoh_json_list_config-quoted_texts}
use zenoh_flat_c.Config.Drain.{Drains, done, more}
use zenoh_flat_c.Config.Values.{process}
use zenoh_flat_c.Config.JsonList.{
  configured, finish, insertion, stored, parse_zenoh_json_list_config-Drains,
}
use zenoh_flat_c.Config.Repeated.{
  Foreign, pairs, pairs_taken, parse_zenoh_json_list_config-pairs,
  parse_zenoh_json_list_config-missing,
}
use zenoh_flat_c.Tests.{list_api, arg, keep_pair}

abbrev words : Argv
words =
    arg (codes "--key=a=b")
    ∷ none
    ∷ arg (codes "-k")
    ∷ arg (codes "demo/key")
    ∷ arg (codes "x")
    ∷ []

abbrev words_left : Argv
words_left = arg (codes "--key=a=b") ∷ none ∷ none ∷ none ∷ arg (codes "x") ∷ []

scan-Outcome_iff_example :
    (scan (codes "k") true words ≡ found (codes "demo/key") words_left)
    ↔ Outcome (codes "k") true words (found (codes "demo/key") words_left)
scan-Outcome_iff_example =
    scan-Outcome_iff (codes "k") true words (found (codes "demo/key") words_left)

-- The first `=` ends the name.
long_run :
    scan (codes "key") true words
    ≡ found
        (codes "a=b")
        (none ∷ none ∷ arg (codes "-k") ∷ arg (codes "demo/key") ∷ arg (codes "x") ∷ [])
unfolding scan form is_short is_long starts_with split_char
long_run = refl

-- A longer option that begins with the name is taken for it.
prefix_run :
    scan (codes "key") true (arg (codes "--keynote") ∷ arg (codes "v") ∷ [])
    ≡ found (codes "v") (none ∷ none ∷ [])
unfolding scan form is_short is_long starts_with split_char
prefix_run = refl

abbrev endpoints : Argv
endpoints =
    arg (codes "z_put")
    ∷ arg (codes "-e")
    ∷ arg (codes "tcp/a:1")
    ∷ arg (codes "x")
    ∷ arg (codes "--connect=tcp/b:2")
    ∷ []

abbrev endpoints_left : Argv
endpoints_left = arg (codes "z_put") ∷ none ∷ none ∷ arg (codes "x") ∷ none ∷ []

abbrev two_endpoints : List Str
two_endpoints = codes "tcp/a:1" ∷ codes "tcp/b:2" ∷ []

endpoints-Drains :
    Drains (pull (codes "e") (codes "connect")) endpoints two_endpoints endpoints_left
unfolding scan form is_short is_long starts_with split_char
endpoints-Drains = more refl (more refl (done refl))

parse_zenoh_json_list_config-Drains_example :
    parse_zenoh_json_list_config list_api
      (codes "e")
      (codes "connect")
      connect_key
      []
      (process endpoints [])
    ≡ finish (stored list_api connect_key [] two_endpoints) (process endpoints_left [])
parse_zenoh_json_list_config-Drains_example =
    parse_zenoh_json_list_config-Drains list_api (codes "e") (codes "connect") connect_key []
      endpoints endpoints_left [] two_endpoints endpoints-Drains

-- What is stored is the JSON list of the two values.
stored_run :
    stored list_api connect_key [] two_endpoints
    ≡ configured ((connect_key, codes "['tcp/a:1','tcp/b:2']") ∷ [])
unfolding keep_pair
stored_run = refl

dash-Foreign : Foreign (codes "e") (codes "connect") (arg (codes "-"))
unfolding form is_short is_long
dash-Foreign =
    (other_form (codes "e") (codes "-") refl, other_form (codes "connect") (codes "-") refl)

parse_zenoh_json_list_config-pairs_example :
    parse_zenoh_json_list_config list_api (codes "e") (codes "connect") connect_key [] (
      process
        (arg (codes "z_put") ∷ none ∷ (pairs (codes "e") two_endpoints ++ arg (codes "-") ∷ []))
        [])
    ≡ finish (stored list_api connect_key [] two_endpoints) (
        process
          (arg (codes "z_put") ∷ none ∷ (pairs_taken two_endpoints ++ arg (codes "-") ∷ []))
          [])
parse_zenoh_json_list_config-pairs_example =
    parse_zenoh_json_list_config-pairs list_api (codes "e") (codes "connect") refl connect_key []
      (arg (codes "z_put")) (none ∷ []) (arg (codes "-") ∷ []) two_endpoints [] ((tt, tt), tt)
      (dash-Foreign, tt)

-- `-e tcp/a:1 -e tcp/b:2 -e`
parse_zenoh_json_list_config-missing_example :
    parse_zenoh_json_list_config list_api (codes "e") (codes "connect") connect_key [] (
      process
        (arg (codes "z_put")
          ∷ arg (codes "-")
          ∷ (pairs (codes "e") two_endpoints ++ arg (codes "-e") ∷ []))
        [])
    ≡ exits (complaint (codes "Option -e given without a value\n"))
parse_zenoh_json_list_config-missing_example =
    parse_zenoh_json_list_config-missing list_api (codes "e") (codes "connect") refl connect_key []
      (arg (codes "z_put")) (arg (codes "-") ∷ []) [] two_endpoints [] (dash-Foreign, tt) tt

two_endpoints-Unquoted : All Unquoted two_endpoints
two_endpoints-Unquoted = ground arith

parse_zenoh_json_list_config-quoted_texts_example :
    (text : Str) × (quoted_texts none text ≡ two_endpoints)
    × (parse_zenoh_json_list_config list_api (codes "e") (codes "connect") connect_key [] (
          process
            (arg (codes "z_put") ∷ none ∷ (pairs (codes "e") two_endpoints ++ arg (codes "-") ∷ []))
            [])
        ≡ finish
            (insertion list_api (keep_pair [] connect_key text) (not_inserted text connect_key))
            (process
              (arg (codes "z_put") ∷ none ∷ (pairs_taken two_endpoints ++ arg (codes "-") ∷ []))
              []))
parse_zenoh_json_list_config-quoted_texts_example =
    parse_zenoh_json_list_config-quoted_texts list_api (codes "e") (codes "connect") refl
      connect_key [] (arg (codes "z_put")) (none ∷ []) (arg (codes "-") ∷ []) (codes "tcp/a:1")
      (codes "tcp/b:2" ∷ []) [] ((tt, tt), tt) (dash-Foreign, tt) two_endpoints-Unquoted
