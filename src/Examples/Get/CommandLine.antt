-- ===== src/Examples/Get/CommandLine.antt =====
-- z_get on the command line `-s SELECTOR -p PAYLOAD -o TIMEOUT_MS -t TARGET -e ENDPOINT …`.
use zenoh_flat_c.Base.{
  ℕ, ◌<◌, ◌^◌, ◌%◌, ◌≡◌, refl, true, subst, sym, Option, none, some, List, [], ◌∷◌, ◌++◌, All,
  arith,
}
use zenoh_flat_c.Base.Text.{Str, codes, is_digit}
use zenoh_flat_c.Base.Decimal.{decimal, atoi-decimal, decimal_first}
use zenoh_flat_c.Enums.{QueryTarget, best_matching, all, all_complete}
use zenoh_flat_c.Process.{Heap, grown, Argv, ok}
use zenoh_flat_c.Args.{form, is_short, is_long}
use zenoh_flat_c.Config.{ConfigApi, connect_key}
use zenoh_flat_c.Config.Choices.{target_name, target_accepted}
use zenoh_flat_c.Config.Values.{process}
use zenoh_flat_c.Config.JsonList.{configured, stored}
use zenoh_flat_c.Config.Repeated.{pairs, pairs_taken}
use zenoh_flat_c.Config.Common.{parse_zenoh_common_args-Reads}
use zenoh_flat_c.Examples.{text_arg, optional_arg}
use zenoh_flat_c.Examples.Leftovers.{IsPlain, NoneLeft}
use zenoh_flat_c.Examples.Consumed.{reject_unknown-NoneLeft, reject_positional-NoneLeft}
use zenoh_flat_c.Examples.Endpoints.{
  endpoint_settings, configure-endpoint_settings, all_taken-NoneLeft, endpoints-Reads,
}
use zenoh_flat_c.Examples.OptionPairs.{option_pairs, parse_arg_pair, check_help-pairs}
use zenoh_flat_c.Examples.Get.{parse_args}

abbrev pub get_options : Str → Str → ℕ → QueryTarget → List (Str × Str)
get_options selector payload timeout_ms target =
    (codes "s", selector)
    ∷ (codes "p", payload)
    ∷ (codes "o", decimal timeout_ms)
    ∷ (codes "t", target_name target)
    ∷ []

abbrev pub eight_taken : Argv
eight_taken = none ∷ none ∷ none ∷ none ∷ none ∷ none ∷ none ∷ none ∷ []

digit-IsPlain : (c : ℕ) (t : Str) → is_digit c ≡ true → IsPlain (some (c ∷ t))
unfolding is_digit
digit-IsPlain c t h = λ e. ground arith

decimal-IsPlain : (n : ℕ) → IsPlain (some (decimal n))
decimal-IsPlain n =
    let (c, t, e, h) = decimal_first n in
    subst (λ s. IsPlain (some s)) (sym e) (digit-IsPlain c t h)

target_name-IsPlain : (t : QueryTarget) → IsPlain (some (target_name t))
target_name-IsPlain best_matching = λ e. ground arith
target_name-IsPlain all = λ e. ground arith
target_name-IsPlain all_complete = λ e. ground arith

module _ (name : Option Str) (selector payload : Str) (timeout_ms : ℕ) (target : QueryTarget)
    (endpoints : List Str) (plain_selector : IsPlain (some selector))
    (plain_payload : IsPlain (some payload)) (plain : All (λ v. IsPlain (some v)) endpoints) where
  -- If the selector, the payload and the endpoints do not begin with `-`, the timeout is below 2 ^ 31, and the
  -- configuration library takes the list of the endpoints, z_get reads exactly these from `-s SELECTOR
  -- -p PAYLOAD -o TIMEOUT_MS -t TARGET -e ENDPOINT …`, with the timeout in decimal and the target by its
  -- name, and the configuration with these endpoints. All arguments are consumed.
  pub get_command_line :
      (api : ConfigApi) (n : Heap) (config : api.Config)
      → timeout_ms < 2 ^ 31
      → stored api connect_key api.default endpoints ≡ configured config
      → parse_args api (
          process
            (name
              ∷ option_pairs
                  (get_options selector payload timeout_ms target)
                  (pairs (codes "e") endpoints))
            n)
        ≡ ok
            (
              record {
                selector = selector;
                value = some payload;
                target = target;
                timeout_ms = timeout_ms;
              },
              config,
            )
            (process (name ∷ (eight_taken ++ pairs_taken endpoints)) (grown n))
  unfolding parse_args text_arg optional_arg form is_short is_long
  get_command_line api n config fits accepted =
      rw
        (
          check_help-pairs name endpoints plain (get_options selector payload timeout_ms target) n
              ((refl, refl), ((refl, refl), ((refl, refl), ((refl, refl), tt))))
              (
                plain_selector,
                (plain_payload, (decimal-IsPlain timeout_ms, (target_name-IsPlain target, tt))),
              ),
          parse_arg_pair (codes "s") (codes "selector") _ _ name [] selector _ n refl tt,
          parse_arg_pair (codes "p") (codes "payload") _ _ name (none ∷ none ∷ []) payload _ n refl
              (refl, (refl, tt)),
          parse_arg_pair (codes "o") (codes "timeout") _ _ name (none ∷ none ∷ none ∷ none ∷ [])
              (decimal timeout_ms) _ n refl (refl, (refl, (refl, (refl, tt)))),
          atoi-decimal timeout_ms fits,
          parse_arg_pair (codes "t") (codes "target") _ _ name
              (none ∷ none ∷ none ∷ none ∷ none ∷ none ∷ []) (target_name target) _ n refl
              (refl, (refl, (refl, (refl, (refl, (refl, tt)))))),
          target_accepted target _,
          parse_zenoh_common_args-Reads api _ _ (endpoint_settings endpoints) n
              (endpoints-Reads name eight_taken taken endpoints plain),
        )
        (rw
          (
            configure-endpoint_settings api endpoints config accepted,
            reject_unknown-NoneLeft (process line_taken (grown n)) consumed,
            reject_positional-NoneLeft (process line_taken (grown n)) consumed,
            kept,
          )
          refl)
    where
      taken : NoneLeft eight_taken
      taken = (refl, (refl, (refl, (refl, (refl, (refl, (refl, (refl, tt))))))))

      line_taken : Argv
      line_taken = name ∷ (eight_taken ++ pairs_taken endpoints)

      consumed : NoneLeft (eight_taken ++ pairs_taken endpoints)
      consumed = all_taken-NoneLeft name eight_taken taken endpoints plain

      kept : timeout_ms % 2 ^ 64 ≡ timeout_ms
      kept = omega arith
