-- ===== src/Examples/Help/Undocumented.antt =====
-- What `parse_args` of the programs of examples/ does with an option that the help does not document.
use zenoh_flat_c.Base.{
  ◌≡◌, refl, ap, Bool, true, false, Option, none, some, List, [], ◌∷◌, All, All-both, length,
}
use zenoh_flat_c.Base.Text.{Str, codes, str_eq, eq_of_str_eq, starts_with}
use zenoh_flat_c.Process.{Heap, grown, Argv, Cmd, ok}
use zenoh_flat_c.Args.{
  Form, other, short, long, form, not_found, keep, check_help, check_flag, parse_arg,
}
use zenoh_flat_c.Args.Names.{other_form}
use zenoh_flat_c.Args.Outcome.{Skipped, absent}
use zenoh_flat_c.Args.Outcome.Complete.{Outcome-scan}
use zenoh_flat_c.Args.Help.{check_help_absent, check_flag_unset}
use zenoh_flat_c.Args.Pull.{pull, scan_argv}
use zenoh_flat_c.Config.{ConfigApi, parse_zenoh_common_args}
use zenoh_flat_c.Config.Values.{process}
use zenoh_flat_c.Config.Drain.{done}
use zenoh_flat_c.Config.Repeated.{pull_absent}
use zenoh_flat_c.Config.Common.{
  Settings, Reads, nothing, unset, parse_arg_text-Takes, parse_zenoh_common_args-Reads, configure,
}
use zenoh_flat_c.Examples.Help.{common_help}
use zenoh_flat_c.Examples.Help.Documented.{documented, names_one, contains}

-- The entry names none of the options.
abbrev pub Nameless : List Str → Option Str → Type 0
Nameless opts none = Unit
Nameless opts (some a) = names_one opts a ≡ false

not_named :
    (opts : List Str) (opt a : Str)
    → contains opts opt ≡ true
    → names_one opts a ≡ false
    → form opt a ≡ other
not_named [] opt a h k = absurd (cc)
not_named (o ∷ opts) opt a h k =
    go (form o a) refl (str_eq o opt) refl (λ h' k'. not_named opts opt a h' k')
  where
    go :
        (f : Form)
        → form o a ≡ f
        → (b : Bool) → str_eq o opt ≡ b
        → (contains opts opt ≡ true → names_one opts a ≡ false → form opt a ≡ other)
        → form opt a ≡ other
    go other e true g rec = rw (← (eq_of_str_eq o opt g)) e
    go other e false g rec = rec (rw g at h) (rw e at k)
    go short e b g rec = absurd (cc (rw e at k))
    go long e b g rec = absurd (cc (rw e at k))

Nameless-Skipped :
    (opts : List Str) (opt : Str) (xs : Argv)
    → contains opts opt ≡ true
    → All (Nameless opts) xs
    → All (Skipped opt) xs
Nameless-Skipped opts opt [] h n = tt
Nameless-Skipped opts opt (none ∷ xs) h n = (tt, Nameless-Skipped opts opt xs h n.1)
Nameless-Skipped opts opt (some a ∷ xs) h n =
    (other_form opt a (not_named opts opt a h n.0), Nameless-Skipped opts opt xs h n.1)

abbrev no_settings : Settings
no_settings = record {
  file = none;
  mode = none;
  connect = [];
  listen = [];
  cfg = [];
  no_multicast_scouting = false;
}

module _ (name : Option Str) (xs : Argv) (opts : List Str) (nameless : All (Nameless opts) xs) where
  skipped : (opt : Str) → contains opts opt ≡ true → All (Skipped opt) xs
  skipped opt h = Nameless-Skipped opts opt xs h nameless

  nothing_pulled :
      (s l : Str)
      → length s ≡ 1
      → contains opts s ≡ true
      → contains opts l ≡ true
      → pull s l (name ∷ xs) ≡ not_found
  nothing_pulled s l one hs hl =
      pull_absent s l one name xs
        (All-both (Skipped s) (Skipped l) xs (skipped s hs) (skipped l hl))

  pub parse_arg-Nameless :
      {A : Type 0} (s l : Str) (func : Str → Cmd A) (d : A) (n : Heap)
      → length s ≡ 1
      → contains opts s ≡ true
      → contains opts l ≡ true
      → parse_arg s l func d (process (name ∷ xs) n) ≡ ok d (process (name ∷ xs) n)
  unfolding parse_arg
  parse_arg-Nameless s l func d n one hs hl =
      rw (parse_arg_text-Takes s l n (nothing (nothing_pulled s l one hs hl)))

  pub check_flag-Nameless :
      (opt : Str) (n : Heap)
      → contains opts opt ≡ true
      → check_flag opt (process (name ∷ xs) n) ≡ ok false (process (name ∷ xs) n)
  check_flag-Nameless opt n h =
      check_flag_unset _ name xs refl opt
        (Outcome-scan opt false xs not_found (absent (skipped opt h) refl))

  pub check_help-Nameless :
      (n : Heap)
      → contains opts (codes "h") ≡ true
      → contains opts (codes "help") ≡ true
      → check_help (process (name ∷ xs) n) ≡ ok tt (process (name ∷ xs) n)
  check_help-Nameless n h help =
      check_help_absent _ name xs refl (skipped (codes "h") h) (skipped (codes "help") help)

  -- The options are those of COMMON_HELP, and perhaps more.
  module _
      (common : (opt : Str)
        → contains (documented common_help) opt ≡ true
        → contains opts opt ≡ true) where
    nothing_common :
        (s l : Str)
        → length s ≡ 1
        → contains (documented common_help) s ≡ true
        → contains (documented common_help) l ≡ true
        → pull s l (name ∷ xs) ≡ not_found
    nothing_common s l one hs hl = nothing_pulled s l one (common s hs) (common l hl)

    absent_long :
        (l : Str) (has_value : Bool)
        → contains (documented common_help) l ≡ true
        → scan_argv l has_value (name ∷ xs) ≡ not_found
    absent_long l hv h =
        ap (keep name) (Outcome-scan l hv xs not_found (absent (skipped l (common l h)) refl))

    Nameless-Reads : Reads (name ∷ xs) no_settings (name ∷ xs)
    unfolding documented common_help str_eq starts_with
    Nameless-Reads = record {
      after_file = _;
      after_mode = _;
      after_connect = _;
      after_listen = _;
      after_cfg = _;
      reads_file = nothing (nothing_common (codes "c") (codes "config") refl refl refl);
      reads_mode = nothing (nothing_common (codes "m") (codes "mode") refl refl refl);
      reads_connect = done (nothing_common (codes "e") (codes "connect") refl refl refl);
      reads_listen = done (nothing_common (codes "l") (codes "listen") refl refl refl);
      reads_cfg = done (absent_long (codes "cfg") true refl);
      reads_scouting = unset (absent_long (codes "no-multicast-scouting") false refl);
    }

    pub common_args-Nameless :
        (api : ConfigApi) (n : Heap)
        → parse_zenoh_common_args api (process (name ∷ xs) n)
          ≡ ok api.default (process (name ∷ xs) (grown n))
    unfolding configure
    common_args-Nameless api n =
        rw (parse_zenoh_common_args-Reads api _ _ no_settings n Nameless-Reads) refl
