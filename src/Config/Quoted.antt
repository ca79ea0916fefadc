-- ===== src/Config/Quoted.antt =====
-- The list that `parse_zenoh_json_list_config` of examples/parse_args.h inserts, read back.
use zenoh_flat_c.Base.{
  ◌≡◌, refl, ap, ◌∙◌, Option, none, some, List, [], ◌∷◌, ◌++◌, append_assoc, append-nil, All,
  length, ◌==◌, if◌then◌else◌, arith,
}
use zenoh_flat_c.Base.Text.{Str, Lacks}
use zenoh_flat_c.Process.{Heap, Argv}
use zenoh_flat_c.Config.{ConfigApi, parse_zenoh_json_list_config, not_inserted}
use zenoh_flat_c.Config.Values.{process}
use zenoh_flat_c.Config.JsonList.{finish, insertion, quote, items, json_list}
use zenoh_flat_c.Config.Repeated.{Foreign, pairs, pairs_taken, parse_zenoh_json_list_config-pairs}

-- The texts between one `'` and the next, where nothing is escaped; `some text` is what has been read
-- behind an open `'`.
unfoldable pub quoted_texts : Option Str → Str → List Str
quoted_texts none [] = []
quoted_texts (some text) [] = []
quoted_texts none (c ∷ s) =
    let inside = quoted_texts (some []) s in
    let outside = quoted_texts none s in if c == b'\'' then inside else outside
quoted_texts (some text) (c ∷ s) =
    let inside = quoted_texts (some (text ++ c ∷ [])) s in
    let outside = quoted_texts none s in if c == b'\'' then text ∷ outside else inside

-- No `'`, which would end the text.
abbrev pub Unquoted : Str → Type 0
Unquoted v = Lacks b'\'' v

quoted_texts-inside :
    (text v rest : Str)
    → Unquoted v
    → quoted_texts (some text) (v ++ b'\'' ∷ rest) ≡ (text ++ v) ∷ quoted_texts none rest
unfolding quoted_texts
quoted_texts-inside text [] rest h = simp append-nil
quoted_texts-inside text (c ∷ v) rest h =
    let later = quoted_texts-inside (text ++ c ∷ []) v rest h.1 in
    let more : (text ++ c ∷ []) ++ v ≡ text ++ c ∷ v = simp append_assoc in
    ground (arith, later, more)

quoted_texts-quote :
    (v rest : Str) → Unquoted v → quoted_texts none (quote v ++ rest) ≡ v ∷ quoted_texts none rest
unfolding quoted_texts
quoted_texts-quote v rest h =
    let shape : quote v ++ rest ≡ b'\'' ∷ (v ++ b'\'' ∷ rest) = simp append_assoc in
    ap (λ t. quoted_texts none t) shape ∙ quoted_texts-inside [] v rest h

quoted_texts-separator : (s : Str) → quoted_texts none (b',' ∷ s) ≡ quoted_texts none s
unfolding quoted_texts
quoted_texts-separator s = refl

quoted_texts-items :
    (v : Str) (vs : List Str)
    → Unquoted v
    → All Unquoted vs
    → quoted_texts none (items v vs ++ b']' ∷ []) ≡ v ∷ vs
unfolding quoted_texts
quoted_texts-items v [] h k = quoted_texts-quote v (b']' ∷ []) h
quoted_texts-items v (w ∷ ws) h k =
    let shape : items v (w ∷ ws) ++ b']' ∷ [] ≡ quote v ++ b',' ∷ (items w ws ++ b']' ∷ []) =
      append_assoc (quote v) (b',' ∷ items w ws) (b']' ∷ []) in
    ap (λ t. quoted_texts none t) shape
    ∙ quoted_texts-quote v (b',' ∷ (items w ws ++ b']' ∷ [])) h
    ∙ ap (λ l. v ∷ l)
        (quoted_texts-separator (items w ws ++ b']' ∷ []) ∙ quoted_texts-items w ws k.0 k.1)

-- The values given by `-e V1 -e V2 …`, one at least, none of which has a `'`, for an option of one
-- letter, whatever arguments stand in front and behind that do not name the option, are what is read
-- between the quotes of the text that is inserted, in the same order. The function exits with a
-- complaint where the text is refused; otherwise it consumes exactly the option's arguments.
pub parse_zenoh_json_list_config-quoted_texts :
    (api : ConfigApi) (s l : Str)
    → length s ≡ 1
    → (key : Str) (config : api.Config) (name : Option Str) (before after : Argv) (v : Str)
      (vs : List Str) (n : Heap)
    → All (Foreign s l) before
    → All (Foreign s l) after
    → All Unquoted (v ∷ vs)
    → (text : Str) × (quoted_texts none text ≡ v ∷ vs)
      × (parse_zenoh_json_list_config api s l key config
            (process (name ∷ (before ++ (pairs s (v ∷ vs) ++ after))) n)
          ≡ finish
              (insertion api (api.insert_json5 config key text) (not_inserted text key))
              (process (name ∷ (before ++ (pairs_taken (v ∷ vs) ++ after))) n))
unfolding quoted_texts
parse_zenoh_json_list_config-quoted_texts api s l one key config name before after v vs n h k u = (
  json_list v vs,
  quoted_texts-items v vs u.0 u.1,
  parse_zenoh_json_list_config-pairs api s l one key config name before after (v ∷ vs) n h k,
)
