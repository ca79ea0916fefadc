-- ===== src/Examples/EndToEnd.antt =====
-- examples/z_put.c and examples/z_get.c from the command line to the calls of the flat API.
use zenoh_flat_c.Base.{
  ℕ, ◌<◌, ◌^◌, ◌≡◌, ◌&&◌, Option, some, List, [], ◌∷◌, All, arith, if◌then◌else◌,
}
use zenoh_flat_c.Base.Int.{pos}
use zenoh_flat_c.Base.Text.{Str, codes}
use zenoh_flat_c.Enums.{QueryTarget}
use zenoh_flat_c.Process.{Heap}
use zenoh_flat_c.Config.{ConfigApi, connect_key}
use zenoh_flat_c.Config.Values.{process}
use zenoh_flat_c.Config.JsonList.{configured, stored}
use zenoh_flat_c.Config.Repeated.{pairs}
use zenoh_flat_c.Trace.Published.{empty, published}
use zenoh_flat_c.Examples.{Answers, Ran, ran, exited, broken}
use zenoh_flat_c.Examples.Leftovers.{IsPlain}
use zenoh_flat_c.Examples.OptionPairs.{option_pairs}
use zenoh_flat_c.Examples.Get.Effect.{Asked, asked, get_asks}
use zenoh_flat_c.Examples.Get.Selector.{SelectorOf}
use zenoh_flat_c.Examples.Get.CommandLine.{get_options, get_command_line}
use zenoh_flat_c.Examples.Put.Effect.{put_publishes}
use zenoh_flat_c.Examples.Put.CommandLine.{key_and_value, put_command_line}
use zenoh_flat_c.Examples.Programs.{put_program, get_program}

-- What a run publishes, and which queries it makes.
abbrev pub published_by : Ran → List (Str × Str)
published_by (ran trace) = published empty trace
published_by (exited e) = []
published_by broken = []

abbrev pub asked_by : Ran → List Asked
asked_by (ran trace) = asked empty trace
asked_by (exited e) = []
asked_by broken = []

module _ (name : Option Str) (endpoints : List Str) (plain : All (λ v. IsPlain (some v)) endpoints)
    (api : ConfigApi) (answers : Answers) (n : Heap) (config : api.Config)
    (accepted : stored api connect_key api.default endpoints ≡ configured config) where
  -- A run of `z_put -k KEY -p VALUE -e ENDPOINT …`, where the key, the value and the endpoints do not begin
  -- with `-` and the configuration library takes the list of the endpoints, publishes VALUE under KEY
  -- exactly once, if the session opens, KEY is a key expression, and the put succeeds; otherwise it
  -- publishes nothing.
  pub put_end_to_end :
      (key text : Str)
      → IsPlain (some key)
      → IsPlain (some text)
      → published_by (
          put_program api answers
            (process (name ∷ key_and_value key text (pairs (codes "e") endpoints)) n))
        ≡ (if answers.opens && (answers.is_keyexpr key && answers.succeeds)
            then (key, text) ∷ []
            else [])
  put_end_to_end key text plain_key plain_text =
      rw (put_command_line name key text endpoints plain_key plain_text plain api n config accepted)
        (put_publishes answers (record { keyexpr = key; value = text }))

  -- A run of `z_get -s SELECTOR -p PAYLOAD -o TIMEOUT_MS -t TARGET -e ENDPOINT …`, where the selector is
  -- made of a key and parameters, the timeout is below 2 ^ 31, the selector, the payload and the
  -- endpoints do not begin with `-`, and the configuration library takes the list of the endpoints,
  -- makes exactly one query, for this key with these parameters, this timeout, target and payload,
  -- if the session opens and the key is a key expression; otherwise none.
  pub get_end_to_end :
      (selector payload key : Str) (params : Option Str) (timeout_ms : ℕ) (target : QueryTarget)
      → IsPlain (some selector)
      → IsPlain (some payload)
      → SelectorOf selector key params
      → timeout_ms < 2 ^ 31
      → asked_by (
          get_program api answers (
            process
              (name
                ∷ option_pairs
                    (get_options selector payload timeout_ms target)
                    (pairs (codes "e") endpoints))
              n))
        ≡ (if answers.opens && answers.is_keyexpr key
            then record {
              key = key;
              parameters = params;
              timeout = pos timeout_ms;
              target = target;
              payload_text = some payload;
            }
              ∷ []
            else [])
  get_end_to_end selector payload key params timeout_ms target plain_selector plain_payload cut
        small =
      rw
        (get_command_line name selector payload timeout_ms target endpoints plain_selector
          plain_payload plain api n config small accepted)
        (get_asks answers
          (record {
            selector = selector;
            value = some payload;
            target = target;
            timeout_ms = timeout_ms;
          })
          key params cut (omega arith))
