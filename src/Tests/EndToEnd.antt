-- ===== src/Tests/EndToEnd.antt =====
-- Runs of z_put and z_get from concrete command lines.
use zenoh_flat_c.Base.{◌≡◌, refl, ◌&&◌, some, [], ◌∷◌, List, arith, if◌then◌else◌}
use zenoh_flat_c.Base.Int.{pos}
use zenoh_flat_c.Base.Text.{Str, codes}
use zenoh_flat_c.Enums.{all_complete}
use zenoh_flat_c.Config.Values.{process}
use zenoh_flat_c.Config.Repeated.{pairs}
use zenoh_flat_c.Examples.OptionPairs.{option_pairs}
use zenoh_flat_c.Examples.Get.Selector.{with_parameters}
use zenoh_flat_c.Examples.Get.CommandLine.{get_options}
use zenoh_flat_c.Examples.Put.CommandLine.{key_and_value}
use zenoh_flat_c.Examples.Programs.{put_program, get_program}
use zenoh_flat_c.Examples.EndToEnd.{published_by, asked_by, put_end_to_end, get_end_to_end}
use zenoh_flat_c.Tests.{list_api, arg, keep_pair}
use zenoh_flat_c.Tests.Effects.{willing}

abbrev endpoint : List Str
endpoint = codes "tcp/a:1" ∷ []

put_end_to_end_example :
    published_by (
      put_program list_api willing (
        process
          (arg (codes "z_put") ∷ key_and_value (codes "d") (codes "v") (pairs (codes "e") endpoint))
          []))
    ≡ (if willing.opens && (willing.is_keyexpr (codes "d") && willing.succeeds)
        then (codes "d", codes "v") ∷ []
        else [])
unfolding keep_pair
put_end_to_end_example =
    put_end_to_end (arg (codes "z_put")) endpoint ((λ e. cc), tt) list_api willing []
      ((codes "connect/endpoints", codes "['tcp/a:1']") ∷ []) refl (codes "d") (codes "v") (λ e. cc)
      (λ e. cc)

get_end_to_end_example :
    asked_by (
      get_program list_api willing (
        process
          (arg (codes "z_get")
            ∷ option_pairs
                (get_options (codes "d?x=1") (codes "v") 500 all_complete)
                (pairs (codes "e") endpoint))
          []))
    ≡ (if willing.opens && willing.is_keyexpr (codes "d")
        then record {
          key = codes "d";
          parameters = some (codes "x=1");
          timeout = pos 500;
          target = all_complete;
          payload_text = some (codes "v");
        }
          ∷ []
        else [])
unfolding keep_pair
get_end_to_end_example =
    get_end_to_end (arg (codes "z_get")) endpoint ((λ e. cc), tt) list_api willing []
      ((codes "connect/endpoints", codes "['tcp/a:1']") ∷ []) refl (codes "d?x=1") (codes "v")
      (codes "d") (some (codes "x=1")) 500 all_complete (λ e. cc) (λ e. cc)
      (with_parameters (codes "x=1") ((λ e. cc), tt) refl) (omega arith)
