-- ===== src/Examples/Put/CommandLine.antt =====
-- z_put on the command line `-k KEY -p VALUE -e ENDPOINT …`.
use zenoh_flat_c.Base.{◌≡◌, refl, Option, none, some, List, [], ◌∷◌, ◌++◌, All}
use zenoh_flat_c.Base.Text.{Str, codes}
use zenoh_flat_c.Process.{Heap, grown, Argv, ok}
use zenoh_flat_c.Args.{form, is_short, is_long}
use zenoh_flat_c.Config.{ConfigApi, connect_key}
use zenoh_flat_c.Config.Values.{process}
use zenoh_flat_c.Config.JsonList.{configured, stored}
use zenoh_flat_c.Config.Repeated.{pairs, pairs_taken}
use zenoh_flat_c.Config.Common.{parse_zenoh_common_args-Reads}
use zenoh_flat_c.Examples.{text_arg}
use zenoh_flat_c.Examples.Leftovers.{IsPlain, NoneLeft}
use zenoh_flat_c.Examples.Consumed.{reject_unknown-NoneLeft, reject_positional-NoneLeft}
use zenoh_flat_c.Examples.Endpoints.{
  endpoint_settings, configure-endpoint_settings, all_taken-NoneLeft, endpoints-Reads,
}
use zenoh_flat_c.Examples.OptionPairs.{parse_arg_pair, check_help-pairs}
use zenoh_flat_c.Examples.Put.{parse_args}

abbrev pub key_and_value : Str → Str → Argv → Argv
key_and_value key text rest = some (codes "-k") ∷ some key ∷ some (codes "-p") ∷ some text ∷ rest

abbrev four_taken : Argv
four_taken = none ∷ none ∷ none ∷ none ∷ []

module _ (name : Option Str) (key text : Str) (endpoints : List Str)
    (plain_key : IsPlain (some key)) (plain_text : IsPlain (some text))
    (plain : All (λ v. IsPlain (some v)) endpoints) where
  -- If the key, the value and the endpoints do not begin with `-`, and the configuration library takes
  -- the list of the endpoints, z_put reads this key and this value from `-k KEY -p VALUE -e ENDPOINT …`,
  -- and the configuration with these endpoints. All arguments are consumed.
  pub put_command_line :
      (api : ConfigApi) (n : Heap) (config : api.Config)
      → stored api connect_key api.default endpoints ≡ configured config
      → parse_args api (process (name ∷ key_and_value key text (pairs (codes "e") endpoints)) n)
        ≡ ok
            (record { keyexpr = key; value = text }, config)
            (process (name ∷ (four_taken ++ pairs_taken endpoints)) (grown n))
  unfolding parse_args text_arg form is_short is_long
  put_command_line api n config accepted =
      rw
        (
          check_help-pairs name endpoints plain ((codes "k", key) ∷ (codes "p", text) ∷ []) n
              ((refl, refl), ((refl, refl), tt)) (plain_key, (plain_text, tt)),
          parse_arg_pair (codes "k") (codes "key") _ _ name [] key _ n refl tt,
          parse_arg_pair (codes "p") (codes "payload") _ _ name (none ∷ none ∷ []) text _ n refl
              (refl, (refl, tt)),
          parse_zenoh_common_args-Reads api _ _ (endpoint_settings endpoints) n
              (endpoints-Reads name four_taken (refl, (refl, (refl, (refl, tt)))) endpoints plain),
        )
        (rw (
          configure-endpoint_settings api endpoints config accepted,
          reject_unknown-NoneLeft (process line_taken (grown n)) consumed,
          reject_positional-NoneLeft (process line_taken (grown n)) consumed,
        ))
    where
      line_taken : Argv
      line_taken = name ∷ (four_taken ++ pairs_taken endpoints)

      consumed : NoneLeft (four_taken ++ pairs_taken endpoints)
      consumed =
          all_taken-NoneLeft name four_taken (refl, (refl, (refl, (refl, tt)))) endpoints plain
