-- ===== src/Config/JsonList.antt =====
-- `parse_zenoh_json_list_config` of examples/parse_args.h: the list that is inserted, and the memory.
use zenoh_flat_c.Base.{
  ℕ, ◌+◌, ◌-◌, ◌≡◌, refl, ap, ◌∙◌, Option, none, some, List, [], ◌∷◌, ◌++◌, append_assoc, arith,
  length, take, length-append,
}
use zenoh_flat_c.Base.Text.{Str, snprintf, snprintf_fits}
use zenoh_flat_c.Process.{
  Block, Heap, fresh, without-first, Argv, Process, complaint, Run, ok, exits, and_then, free, ◌>>◌,
}
use zenoh_flat_c.Config.{
  ConfigApi, insert_or_exit, insert_list, parse_zenoh_json_list_config, not_inserted,
}
use zenoh_flat_c.Args.Pull.{pull}
use zenoh_flat_c.Config.Drain.{Drains, Stops}
use zenoh_flat_c.Config.Values.{
  process, with_comma, joined, collect_values_drained, collect_values_stopped,
}

abbrev pub quote : Str → Str
quote v = b'\'' ∷ (v ++ b'\'' ∷ [])

-- The values with commas between them.
abbrev pub items : Str → List Str → Str
items v [] = quote v
items v (w ∷ ws) = quote v ++ (b',' ∷ items w ws)

abbrev pub json_list : Str → List Str → Str
json_list v vs = b'[' ∷ (items v vs ++ b']' ∷ [])

-- The buffer after the loop is the list and one comma more.
joined-items :
    (buf v : Str) (vs : List Str) → joined buf (v ∷ vs) ≡ buf ++ (items v vs ++ b',' ∷ [])
joined-items buf v [] = simp append_assoc
joined-items buf v (w ∷ ws) = joined-items (buf ++ with_comma v) w ws ∙ simp append_assoc

take_append : (xs ys : Str) → take (length xs) (xs ++ ys) ≡ xs
take_append [] ys = refl
take_append (x ∷ xs) ys = ap (λ l. x ∷ l) (take_append xs ys)

take_init : (xs : Str) (c : ℕ) → take (length (xs ++ c ∷ []) - 1) (xs ++ c ∷ []) ≡ xs
take_init xs c =
    let same : length (xs ++ c ∷ []) - 1 ≡ length xs = omega (arith, length-append xs (c ∷ [])) in
    rw same (take_append xs (c ∷ []))

-- The brackets fit too.
bracketed :
    (xs : Str)
    → snprintf
        (length (xs ++ b',' ∷ []) - 1 + 3)
        (b'[' ∷ (take (length (xs ++ b',' ∷ []) - 1) (xs ++ b',' ∷ []) ++ b']' ∷ []))
      ≡ b'[' ∷ (xs ++ b']' ∷ [])
bracketed xs =
    rw (take_init xs b',') (
      snprintf_fits _ _ (omega (arith, length-append xs (b']' ∷ []), length-append xs (b',' ∷ []))))

-- A configuration, or the complaint with which the process exits.
pub data Configured (C : Type 0) : Type 0 where
  configured : C → Configured C
  rejected : Str → Configured C

abbrev pub finish : {C : Type 0} → Configured C → Process → Run C
finish (configured c) p = ok c p
finish (rejected message) p = exits (complaint message)

module _ (api : ConfigApi) where
  open api use {Config, insert_json5}

  -- The outcome of `z_config_insert_json5`, with the complaint where it fails.
  abbrev pub insertion : Option Config → Str → Configured Config
  insertion none message = rejected message
  insertion (some config) message = configured config

  abbrev pub stored : Str → Config → List Str → Configured Config
  stored key config [] = configured config
  stored key config (v ∷ vs) =
      insertion (insert_json5 config key (json_list v vs)) (not_inserted (json_list v vs) key)

  -- The block `c` is freed in front of `exit`.
  pub insert_or_exit-free :
      (config : Config) (key value message : Str) (a : Argv) (c : Block) (n : Heap)
      → insert_or_exit api config key value message (free c) (process a (c ∷ n))
        ≡ finish (insertion (insert_json5 config key value) message) (process a (c ∷ n))
  unfolding insert_or_exit
  insert_or_exit-free config key value message a c n = go (insert_json5 config key value) refl
    where
      go :
          (o : Option Config)
          → insert_json5 config key value ≡ o
          → insert_or_exit api config key value message (free c) (process a (c ∷ n))
            ≡ finish (insertion (insert_json5 config key value) message) (process a (c ∷ n))
      go none e = rw (e, insert_or_exit, without-first c n)
      go (some k) e = rw (e, insert_or_exit)

  -- Two blocks are freed, the last one first.
  free_two :
      (o : Option Config) (message : Str) (a : Argv) (d c : Block) (n : Heap)
      → and_then
          (finish (insertion o message) (process a (d ∷ c ∷ n)))
          (λ config. free d >> (free c >> ok config))
        ≡ finish (insertion o message) (process a n)
  free_two none message a d c n = refl
  free_two (some k) message a d c n = rw (without-first d (c ∷ n), without-first c n)

  insert_list_lem :
      (key : Str) (config : Config) (x : ℕ) (xs : Str) (a : Argv) (c : Block) (n : Heap)
      → insert_list api key config (c, x ∷ (xs ++ b',' ∷ [])) (process a (c ∷ n))
        ≡ finish
            (insertion
              (insert_json5 config key (b'[' ∷ (x ∷ xs ++ b']' ∷ [])))
              (not_inserted (b'[' ∷ (x ∷ xs ++ b']' ∷ [])) key))
            (process a n)
  unfolding insert_list insert_or_exit
  insert_list_lem key config x xs a c n =
      rw
        (
          bracketed (x ∷ xs),
          insert_or_exit-free config key (b'[' ∷ (x ∷ xs ++ b']' ∷ [])) _ a (fresh (c ∷ n)) (c ∷ n),
        )
        (free_two _ _ a (fresh (c ∷ n)) c n)

  insert_list-items :
      (key : Str) (config : Config) (v : Str) (vs : List Str) (a : Argv) (c : Block) (n : Heap)
      → insert_list api key config (c, items v vs ++ b',' ∷ []) (process a (c ∷ n))
        ≡ finish (stored key config (v ∷ vs)) (process a n)
  insert_list-items key config v [] a c n = insert_list_lem key config _ _ a c n
  insert_list-items key config v (w ∷ ws) a c n = insert_list_lem key config _ _ a c n

  -- When `-e` (or `-l`) stands on the command line with the values `vs`, in the order in which they
  -- are taken out of `argv`, the function inserts the JSON list of the quoted values under its key,
  -- complains if that fails, and inserts nothing if there are no values. It takes exactly the
  -- option's arguments out of `argv`, frees every block that it allocated, cuts off no text, and its
  -- loop ends.
  pub parse_zenoh_json_list_config-Drains :
      (id_short id_long key : Str) (config : Config) (a b : Argv) (n : Heap) (vs : List Str)
      → Drains (pull id_short id_long) a vs b
      → parse_zenoh_json_list_config api id_short id_long key config (process a n)
        ≡ finish (stored key config vs) (process b n)
  unfolding parse_zenoh_json_list_config insert_list
  parse_zenoh_json_list_config-Drains s l key config a b n [] d =
      rw (collect_values_drained s l n (fresh n) d, without-first (fresh n) n)
  parse_zenoh_json_list_config-Drains s l key config a b n (v ∷ vs) d =
      rw (collect_values_drained s l n (fresh n) d, joined-items [] v vs)
        (insert_list-items key config v vs b _ n)

  -- When `-e` (or `-l`) stands somewhere without a value, after any number of values were taken, the
  -- function exits with the message that names the option.
  pub parse_zenoh_json_list_config-Stops :
      (id_short id_long key : Str) (config : Config) (a : Argv) (n : Heap) (message : Str)
      → Stops (pull id_short id_long) message a
      → parse_zenoh_json_list_config api id_short id_long key config (process a n)
        ≡ exits (complaint message)
  unfolding parse_zenoh_json_list_config
  parse_zenoh_json_list_config-Stops s l key config a n m d =
      rw (collect_values_stopped s l n (fresh n) d)
