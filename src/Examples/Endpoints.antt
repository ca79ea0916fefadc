-- ===== src/Examples/Endpoints.antt =====
-- The common options on a command line that has only `-e ENDPOINT …` left.
use zenoh_flat_c.Base.{
  ◌≡◌, refl, ap, Bool, true, false, Option, none, some, List, [], ◌∷◌, ◌++◌, append-nil, All,
  All-append, All-both, length,
}
use zenoh_flat_c.Base.Text.{Str, codes}
use zenoh_flat_c.Process.{Argv}
use zenoh_flat_c.Args.{keep, not_found, form, is_short, is_long}
use zenoh_flat_c.Args.Names.{other_form, Unnamed}
use zenoh_flat_c.Args.Outcome.{Skipped, absent}
use zenoh_flat_c.Args.Outcome.Complete.{Outcome-scan}
use zenoh_flat_c.Args.Pull.{pull, scan_argv}
use zenoh_flat_c.Config.Drain.{Drains, done}
use zenoh_flat_c.Config.Repeated.{pairs, pairs_taken, pull_absent, Drains-pairs}
use zenoh_flat_c.Config.{ConfigApi, connect_key}
use zenoh_flat_c.Config.JsonList.{configured, stored}
use zenoh_flat_c.Config.Common.{configure, Settings, Reads, nothing, unset}
use zenoh_flat_c.Examples.Leftovers.{IsPlain, NoneLeft}
use zenoh_flat_c.Examples.Consumed.{pairs-Skipped, pairs_taken-NoneLeft, Skipped-NoneLeft}

-- The settings that `-e ENDPOINT …` gives.
abbrev pub endpoint_settings : List Str → Settings
endpoint_settings endpoints = record {
  file = none;
  mode = none;
  connect = endpoints;
  listen = [];
  cfg = [];
  no_multicast_scouting = false;
}

module _ (name : Option Str) (before : Argv) (consumed : NoneLeft before) (endpoints : List Str)
    (plain : All (λ v. IsPlain (some v)) endpoints) where
  pub left-Skipped :
      (opt : Str)
      → Unnamed opt (codes "-e")
      → All (Skipped opt) (before ++ pairs (codes "e") endpoints)
  left-Skipped opt n =
      All-append (Skipped opt) before _ (Skipped-NoneLeft opt before consumed)
        (pairs-Skipped opt (codes "e") endpoints n plain)

  pub all_taken-NoneLeft : NoneLeft (before ++ pairs_taken endpoints)
  all_taken-NoneLeft =
      All-append (λ slot. slot ≡ none) before _ consumed (pairs_taken-NoneLeft endpoints)

  nothing_left :
      (s l : Str)
      → length s ≡ 1
      → Unnamed s (codes "-e")
      → Unnamed l (codes "-e")
      → pull s l (name ∷ (before ++ pairs (codes "e") endpoints)) ≡ not_found
  nothing_left s l one n m =
      pull_absent s l one name _
        (All-both (Skipped s) (Skipped l) _ (left-Skipped s n) (left-Skipped l m))

  nothing_taken :
      (s l : Str) → length s ≡ 1 → pull s l (name ∷ (before ++ pairs_taken endpoints)) ≡ not_found
  nothing_taken s l one = pull_absent s l one name _ (
      All-both (Skipped s) (Skipped l) _ (Skipped-NoneLeft s _ all_taken-NoneLeft)
        (Skipped-NoneLeft l _ all_taken-NoneLeft))

  endpoints-Drains :
      Drains
        (pull (codes "e") (codes "connect"))
        (name ∷ (before ++ pairs (codes "e") endpoints))
        endpoints
        (name ∷ (before ++ pairs_taken endpoints))
  endpoints-Drains =
      rw (append-nil, append-nil) at
        (Drains-pairs (codes "e") (codes "connect") refl name before [] endpoints
          (All-both (Skipped (codes "e")) (Skipped (codes "connect")) before
            (Skipped-NoneLeft (codes "e") before consumed)
            (Skipped-NoneLeft (codes "connect") before consumed))
          tt)

  absent_long :
      (l : Str) (has_value : Bool)
      → scan_argv l has_value (name ∷ (before ++ pairs_taken endpoints)) ≡ not_found
  absent_long l hv =
      ap (keep name)
        (Outcome-scan l hv _ not_found (absent (Skipped-NoneLeft l _ all_taken-NoneLeft) refl))

  pub endpoints-Reads :
      Reads
        (name ∷ (before ++ pairs (codes "e") endpoints))
        (endpoint_settings endpoints)
        (name ∷ (before ++ pairs_taken endpoints))
  unfolding form is_short is_long
  endpoints-Reads = record {
    after_file = _;
    after_mode = _;
    after_connect = _;
    after_listen = _;
    after_cfg = _;
    reads_file = nothing (
        nothing_left (codes "c") (codes "config") refl (other_form (codes "c") (codes "-e") refl)
          (other_form (codes "config") (codes "-e") refl));
    reads_mode = nothing (
        nothing_left (codes "m") (codes "mode") refl (other_form (codes "m") (codes "-e") refl)
          (other_form (codes "mode") (codes "-e") refl));
    reads_connect = endpoints-Drains;
    reads_listen = done (nothing_taken (codes "l") (codes "listen") refl);
    reads_cfg = done (absent_long (codes "cfg") true);
    reads_scouting = unset (absent_long (codes "no-multicast-scouting") false);
  }

-- These settings insert the endpoints and nothing else.
pub configure-endpoint_settings :
    (api : ConfigApi) (endpoints : List Str) (config : api.Config)
    → stored api connect_key api.default endpoints ≡ configured config
    → configure api (endpoint_settings endpoints) ≡ configured config
unfolding configure
configure-endpoint_settings api endpoints config accepted = rw accepted
