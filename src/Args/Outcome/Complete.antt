-- ===== src/Args/Outcome/Complete.antt =====
-- From the description of Args/Outcome.antt to the loop of `parse_opt` in examples/parse_args.h.
use zenoh_flat_c.Base.{
  ◌≡◌, refl, ap, subst, ◌∙◌, ◌↔◌, ◌⊎◌, inl, inr, Bool, true, false, none, some, [], ◌∷◌, ◌++◌,
  append-nil, All,
}
use zenoh_flat_c.Base.Text.{Str, Lacks, split_char-append, split_char-eq_none}
use zenoh_flat_c.Process.{Argv}
use zenoh_flat_c.Args.{
  Scan, not_found, found, no_value, keep, scan, take_long, next_value, long_without_value,
}
use zenoh_flat_c.Args.Names.{ShortOf, LongOf, form_short, form_long, form_other}
use zenoh_flat_c.Args.Outcome.{
  Skipped, Attached, NeedsNext, NoArgument, after_short, after_long, Outcome, absent, flag,
  attached, next, missing,
}
use zenoh_flat_c.Args.Outcome.Sound.{scan-Outcome}

-- Entries in front that the option skips stay where they are.
abbrev keep_all : Argv → Scan → Scan
keep_all [] r = r
keep_all (slot ∷ before) r = keep slot (keep_all before r)

keep_all-not_found : (before : Argv) → keep_all before not_found ≡ not_found
keep_all-not_found [] = refl
keep_all-not_found (slot ∷ before) = rw (keep_all-not_found before)

keep_all-found :
    (before : Argv) (v : Str) (rest : Argv)
    → keep_all before (found v rest) ≡ found v (before ++ rest)
keep_all-found [] v rest = refl
keep_all-found (slot ∷ before) v rest = rw (keep_all-found before v rest)

keep_all-no_value : (before : Argv) (m : Str) → keep_all before (no_value m) ≡ no_value m
keep_all-no_value [] m = refl
keep_all-no_value (slot ∷ before) m = rw (keep_all-no_value before m)

scan-append :
    (opt : Str) (has_value : Bool) (before rest : Argv)
    → All (Skipped opt) before
    → scan opt has_value (before ++ rest) ≡ keep_all before (scan opt has_value rest)
unfolding scan
scan-append opt hv [] rest all = refl
scan-append opt hv (none ∷ before) rest (_, all) = rw (scan-append opt hv before rest all)
scan-append opt hv (some a ∷ before) rest (unnamed, all) =
    rw (form_other opt a unnamed, scan, scan-append opt hv before rest all)

take_long_attached :
    (opt a before value : Str) (rest : Argv)
    → Lacks b'=' before
    → a ≡ before ++ b'=' ∷ value
    → take_long opt true a rest ≡ found value (none ∷ rest)
take_long_attached opt a before value rest lacks e =
    rw (e, take_long, split_char-append b'=' before value lacks)

take_long_next :
    (opt a : Str) (rest : Argv)
    → Lacks b'=' a
    → take_long opt true a rest ≡ next_value (long_without_value opt) rest
take_long_next opt a rest lacks = rw (split_char-eq_none b'=' a lacks, take_long)

scan_flag :
    (opt a : Str) (rest : Argv)
    → ShortOf opt a ⊎ LongOf opt a
    → scan opt false (some a ∷ rest) ≡ found opt (none ∷ rest)
unfolding scan
scan_flag opt a rest (inl s) = rw (form_short opt a s, scan)
scan_flag opt a rest (inr l) = rw (form_long opt a l, scan)

scan-Attached :
    (opt a value : Str) (rest : Argv)
    → Attached opt value a
    → scan opt true (some a ∷ rest) ≡ found value (none ∷ rest)
unfolding scan
scan-Attached opt a value rest (l, (before, lacks, e)) =
    rw (form_long opt a l, scan) (take_long_attached opt a before value rest lacks e)

scan_next :
    (opt a message : Str) (rest : Argv)
    → NeedsNext opt a message
    → scan opt true (some a ∷ rest) ≡ next_value message rest
unfolding scan
scan_next opt a m rest (after_short s e) = rw (form_short opt a s, scan, e)
scan_next opt a m rest (after_long l lacks e) =
    rw (form_long opt a l, scan, e) (take_long_next opt a rest lacks)

next_value_missing : (m : Str) (after : Argv) → NoArgument after → next_value m after ≡ no_value m
next_value_missing m [] h = refl
next_value_missing m (none ∷ _) h = refl
next_value_missing m (some _ ∷ _) h = absurd h

-- And the description leaves no choice.
pub Outcome-scan :
    (opt : Str) (has_value : Bool) (xs : Argv) (r : Scan)
    → Outcome opt has_value xs r
    → scan opt has_value xs ≡ r
unfolding scan
Outcome-scan opt hv xs r (absent all e) =
    let h = scan-append opt hv xs [] all in rw e (rw append-nil at h ∙ keep_all-not_found xs)
Outcome-scan opt hv xs r (flag before after a all n hf ex e) =
    rw (ex, e, hf)
      (scan-append opt false before _ all
        ∙ ap (keep_all before) (scan_flag opt a after n)
        ∙ keep_all-found before _ _)
Outcome-scan opt hv xs r (attached before after a value all n ht ex e) =
    rw (ex, e, ht)
      (scan-append opt true before _ all
        ∙ ap (keep_all before) (scan-Attached opt a value after n)
        ∙ keep_all-found before _ _)
Outcome-scan opt hv xs r (next before after a value m all n ht ex e) =
    rw (ex, e, ht)
      (scan-append opt true before _ all
        ∙ ap (keep_all before) (scan_next opt a m (some value ∷ after) n)
        ∙ keep_all-found before _ _)
Outcome-scan opt hv xs r (missing before after a m all n ht no_arg ex e) =
    rw (ex, e, ht)
      (scan-append opt true before _ all
        ∙ ap (keep_all before) (scan_next opt a m _ n)
        ∙ ap (keep_all before) (next_value_missing m after no_arg)
        ∙ keep_all-no_value before m)

-- What the loop of `parse_opt` returns is exactly what the description says: nothing if no argument
-- names the option; for a flag its name; else the text behind `=`, or the next argument, or the
-- complaint that there is none. The arguments that are consumed become NULL, and the others stay.
pub scan-Outcome_iff :
    (opt : Str) (has_value : Bool) (xs : Argv) (r : Scan)
    → (scan opt has_value xs ≡ r) ↔ Outcome opt has_value xs r
scan-Outcome_iff opt hv xs r =
    (λ e. subst (Outcome opt hv xs) e (scan-Outcome opt hv xs), Outcome-scan opt hv xs r)
