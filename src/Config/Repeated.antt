-- ===== src/Config/Repeated.antt =====
-- A repeated option as it is written on the command line: `-e V1 -e V2 …` between other arguments.
use zenoh_flat_c.Base.{
  ◌≡◌, refl, ap, true, Option, none, some, List, [], ◌∷◌, ◌++◌, append_assoc, All, length,
  All-append,
}
use zenoh_flat_c.Base.Text.{Str, codes}
use zenoh_flat_c.Process.{Heap, Argv, exits, complaint}
use zenoh_flat_c.Args.{keep, not_found, found, no_value, short_without_value}
use zenoh_flat_c.Args.Outcome.{Skipped, absent, next, missing, NoArgument, after_short}
use zenoh_flat_c.Args.Outcome.Complete.{Outcome-scan}
use zenoh_flat_c.Args.Pull.{pull, or_scan, scan_argv}
use zenoh_flat_c.Config.{ConfigApi, parse_zenoh_json_list_config}
use zenoh_flat_c.Config.Drain.{Drains, done, more, Stops, now, later}
use zenoh_flat_c.Config.Values.{process}
use zenoh_flat_c.Config.JsonList.{
  stored, finish, parse_zenoh_json_list_config-Drains, parse_zenoh_json_list_config-Stops,
}

-- `-e V1 -e V2 …` for the option `e`.
abbrev pub pairs : Str → List Str → Argv
pairs s [] = []
pairs s (v ∷ vs) = some (b'-' ∷ s) ∷ some v ∷ pairs s vs

-- As many entries, all taken.
abbrev pub pairs_taken : List Str → Argv
pairs_taken [] = []
pairs_taken (v ∷ vs) = none ∷ none ∷ pairs_taken vs

-- Neither name of the option stands in the entry.
abbrev pub Foreign : Str → Str → Option Str → Type 0
Foreign s l slot = Skipped s slot × Skipped l slot

All-left : (s l : Str) (xs : Argv) → All (Foreign s l) xs → All (Skipped s) xs
All-left s l [] h = tt
All-left s l (x ∷ xs) (h, t) = (h.0, All-left s l xs t)

All-right : (s l : Str) (xs : Argv) → All (Foreign s l) xs → All (Skipped l) xs
All-right s l [] h = tt
All-right s l (x ∷ xs) (h, t) = (h.1, All-right s l xs t)

module _ (s l : Str) (one_letter : length s ≡ 1) (name : Option Str) where
  pub pull_absent : (xs : Argv) → All (Foreign s l) xs → pull s l (name ∷ xs) ≡ not_found
  pull_absent xs h =
      rw (Outcome-scan s true xs not_found (absent (All-left s l xs h) refl))
        (ap (keep name) (Outcome-scan l true xs not_found (absent (All-right s l xs h) refl)))

  pub pull_pair :
      (before after : Argv) (v : Str)
      → All (Foreign s l) before
      → pull s l (name ∷ (before ++ some (b'-' ∷ s) ∷ some v ∷ after))
        ≡ found v (name ∷ (before ++ none ∷ none ∷ after))
  pull_pair before after v h =
      ap
        (λ r.
          or_scan (keep name r)
            (scan_argv l true (name ∷ (before ++ some (b'-' ∷ s) ∷ some v ∷ after))))
        (Outcome-scan s true _ _ (
          next before after (b'-' ∷ s) v (short_without_value s) (All-left s l before h)
            (after_short (one_letter, refl) refl) refl refl refl))

  pub Drains-pairs :
      (before after : Argv) (vs : List Str)
      → All (Foreign s l) before
      → All (Foreign s l) after
      → Drains
          (pull s l)
          (name ∷ (before ++ (pairs s vs ++ after)))
          vs
          (name ∷ (before ++ (pairs_taken vs ++ after)))
  Drains-pairs before after [] h k = done (pull_absent _ (All-append _ before after h k))
  Drains-pairs before after (v ∷ vs) h k = more (pull_pair before (pairs s vs ++ after) v h) (
      simp append_assoc at (
        Drains-pairs (before ++ none ∷ none ∷ []) after vs
          (All-append _ before _ h ((tt, tt), ((tt, tt), tt))) k))

  pull_missing :
      (before after : Argv)
      → All (Foreign s l) before
      → NoArgument after
      → pull s l (name ∷ (before ++ some (b'-' ∷ s) ∷ after)) ≡ no_value (short_without_value s)
  pull_missing before after h last =
      ap
        (λ r. or_scan (keep name r) (scan_argv l true (name ∷ (before ++ some (b'-' ∷ s) ∷ after))))
        (Outcome-scan s true _ _ (
          missing before after (b'-' ∷ s) (short_without_value s) (All-left s l before h)
            (after_short (one_letter, refl) refl) refl last refl refl))

  Stops-pairs :
      (before after : Argv) (vs : List Str)
      → All (Foreign s l) before
      → NoArgument after
      → Stops
          (pull s l)
          (short_without_value s)
          (name ∷ (before ++ (pairs s vs ++ some (b'-' ∷ s) ∷ after)))
  Stops-pairs before after [] h last = now (pull_missing before after h last)
  Stops-pairs before after (v ∷ vs) h last =
      later (pull_pair before (pairs s vs ++ some (b'-' ∷ s) ∷ after) v h) (
        simp append_assoc at (
          Stops-pairs (before ++ none ∷ none ∷ []) after vs
            (All-append _ before _ h ((tt, tt), ((tt, tt), tt))) last))

-- The values given by `-e V1 -e V2 …` for an option of one letter, whatever arguments stand in front and
-- behind that do not name the option, are inserted as one text: between brackets the values in this
-- order, each as it is between two `'`, with a comma between one and the next. No value is escaped, so
-- a `'` in a value stands in the text as it is. Without a value nothing is inserted. The function exits
-- with a complaint where the text is refused. Otherwise the option's arguments become NULL, the others
-- stay, and as many blocks of memory are allocated as before.
pub parse_zenoh_json_list_config-pairs :
    (api : ConfigApi) (s l : Str)
    → length s ≡ 1
    → (key : Str) (config : api.Config) (name : Option Str) (before after : Argv) (vs : List Str)
      (n : Heap)
    → All (Foreign s l) before
    → All (Foreign s l) after
    → parse_zenoh_json_list_config api s l key config
        (process (name ∷ (before ++ (pairs s vs ++ after))) n)
      ≡ finish (stored api key config vs) (process (name ∷ (before ++ (pairs_taken vs ++ after))) n)
parse_zenoh_json_list_config-pairs api s l one key config name before after vs n h k =
    parse_zenoh_json_list_config-Drains api s l key config _ _ n vs
      (Drains-pairs s l one name before after vs h k)

-- If an option of one letter, `-e`, stands at the end of the command line, or in front of an argument
-- that was taken before, so that it has no value, the function exits with the text
-- `Option -e given without a value`, however many values `-e V1 -e V2 …` it has taken by then, and
-- whatever arguments stand in front that do not name the option.
pub parse_zenoh_json_list_config-missing :
    (api : ConfigApi) (s l : Str)
    → length s ≡ 1
    → (key : Str) (config : api.Config) (name : Option Str) (before after : Argv) (vs : List Str)
      (n : Heap)
    → All (Foreign s l) before
    → NoArgument after
    → parse_zenoh_json_list_config api s l key config
        (process (name ∷ (before ++ (pairs s vs ++ some (b'-' ∷ s) ∷ after))) n)
      ≡ exits (complaint (codes "Option -" ++ (s ++ codes " given without a value\n")))
parse_zenoh_json_list_config-missing api s l one key config name before after vs n h last =
    parse_zenoh_json_list_config-Stops api s l key config _ n _
      (Stops-pairs s l one name before after vs h last)
