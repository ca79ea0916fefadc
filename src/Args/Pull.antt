-- ===== src/Args/Pull.antt =====
-- `parse_opt` and `_Z_PARSE_ARG` on the `argv` array alone, and how many arguments they leave.
use zenoh_flat_c.Base.{
  ℕ, suc, ◌+◌, ◌<◌, ◌≡◌, refl, subst, ◌∙◌, Bool, true, Option, none, some, [], ◌∷◌, ◌++◌, arith,
  length, length-append,
}
use zenoh_flat_c.Base.Text.{Str}
use zenoh_flat_c.Process.{Argv, Process, complaint, Run, ok, exits, and_then}
use zenoh_flat_c.Args.{
  Scan, not_found, found, no_value, keep, scan, parse_opt, parse_opt_in, parse_arg_text,
}
use zenoh_flat_c.Args.Outcome.{Outcome, absent, flag, attached, next, missing}
use zenoh_flat_c.Args.Outcome.Sound.{scan-Outcome}

-- The arguments that are not NULL.
abbrev pub live : Argv → ℕ
live [] = 0
live (none ∷ rest) = live rest
live (some _ ∷ rest) = suc (live rest)

live-append : (xs ys : Argv) → live (xs ++ ys) ≡ live xs + live ys
live-append [] ys = omega arith
live-append (none ∷ xs) ys = live-append xs ys
live-append (some _ ∷ xs) ys = omega (arith, live-append xs ys)

-- Fewer arguments, in an array as long.
pub record Shrinks (xs r : Argv) : Type 0 where
  pub fewer : live r < live xs
  pub as_long : length r ≡ length xs

one_taken :
    (before after : Argv) (a : Str) → Shrinks (before ++ some a ∷ after) (before ++ none ∷ after)
one_taken before after a = record {
  fewer = omega (arith, live-append before (some a ∷ after), live-append before (none ∷ after));
  as_long =
      omega (arith, length-append before (some a ∷ after), length-append before (none ∷ after));
}

two_taken :
    (before after : Argv) (a b : Str)
    → Shrinks (before ++ some a ∷ some b ∷ after) (before ++ none ∷ none ∷ after)
two_taken before after a b = record {
  fewer = omega (
    arith,
    live-append before (some a ∷ some b ∷ after),
    live-append before (none ∷ none ∷ after),
  );
  as_long = omega (
    arith,
    length-append before (some a ∷ some b ∷ after),
    length-append before (none ∷ none ∷ after),
  );
}

same_rest : {v w : Str} {r s : Argv} → found v r ≡ found w s → r ≡ s
same_rest e = cc

Outcome-Shrinks :
    (opt : Str) (has_value : Bool) (xs : Argv) (v : Str) (r : Argv)
    → Outcome opt has_value xs (found v r)
    → Shrinks xs r
Outcome-Shrinks opt hv xs v r (absent all e) = absurd (cc)
Outcome-Shrinks opt hv xs v r (flag before after a all n hf ex e) =
    rw (ex, same_rest e) (one_taken before after a)
Outcome-Shrinks opt hv xs v r (attached before after a value all n ht ex e) =
    rw (ex, same_rest e) (one_taken before after a)
Outcome-Shrinks opt hv xs v r (next before after a value m all n ht ex e) =
    rw (ex, same_rest e) (two_taken before after a value)
Outcome-Shrinks opt hv xs v r (missing before after a m all n ht no_arg ex e) = absurd (cc)

pub scan-Shrinks :
    (opt : Str) (has_value : Bool) (xs : Argv) (v : Str) (r : Argv)
    → scan opt has_value xs ≡ found v r
    → Shrinks xs r
scan-Shrinks opt hv xs v r e =
    Outcome-Shrinks opt hv xs v r (subst (Outcome opt hv xs) e (scan-Outcome opt hv xs))

abbrev pub scan_argv : Str → Bool → Argv → Scan
scan_argv opt has_value [] = not_found
scan_argv opt has_value (name ∷ rest) = keep name (scan opt has_value rest)

abbrev pub or_scan : Scan → Scan → Scan
or_scan not_found later = later
or_scan (found v r) later = found v r
or_scan (no_value m) later = no_value m

-- The short name first, then the long one.
abbrev pub pull : Str → Str → Argv → Scan
pull id_short id_long xs = or_scan (scan_argv id_short true xs) (scan_argv id_long true xs)

abbrev pub from_scan : Process → Scan → Run (Option Str)
from_scan p not_found = ok none p
from_scan p (found v r) = ok (some v) (record p { argv = r })
from_scan p (no_value m) = exits (complaint m)

parse_opt_in-scan :
    (opt : Str) (has_value : Bool) (p : Process) (xs : Argv)
    → parse_opt_in opt has_value p xs ≡ from_scan p (scan_argv opt has_value xs)
parse_opt_in-scan opt hv p [] = refl
parse_opt_in-scan opt hv p (name ∷ rest) = go (scan opt hv rest) refl
  where
    go :
        (r : Scan)
        → scan opt hv rest ≡ r
        → parse_opt_in opt hv p (name ∷ rest) ≡ from_scan p (scan_argv opt hv (name ∷ rest))
    go not_found e = rw e
    go (found v r) e = rw e
    go (no_value m) e = rw e

pub parse_opt-scan_argv :
    (opt : Str) (has_value : Bool) (p : Process)
    → parse_opt opt has_value p ≡ from_scan p (scan_argv opt has_value p.argv)
unfolding parse_opt
parse_opt-scan_argv opt hv p = parse_opt_in-scan opt hv p p.argv

pub parse_arg_text-pull :
    (id_short id_long : Str) (p : Process)
    → parse_arg_text id_short id_long p ≡ from_scan p (pull id_short id_long p.argv)
unfolding parse_arg_text
parse_arg_text-pull s l p = rw (parse_opt-scan_argv s true p) (go (scan_argv s true p.argv))
  where
    go :
        (r : Scan)
        → and_then (from_scan p r) (λ v. elim v [ none ↦ parse_opt l true | some w ↦ ok (some w) ])
          ≡ from_scan p (or_scan r (scan_argv l true p.argv))
    go not_found = parse_opt-scan_argv l true p
    go (found v r) = refl
    go (no_value m) = refl

keep-found :
    (slot : Option Str) (v : Str) (r : Argv) (q : Scan)
    → keep slot q ≡ found v r
    → (t : Argv) × (q ≡ found v t) × (r ≡ slot ∷ t)
keep-found slot v r not_found e = absurd (cc)
keep-found slot v r (found w t) e = (t, cc, cc)
keep-found slot v r (no_value m) e = absurd (cc)

Shrinks-cons :
    (slot : Option Str) (q rest : Argv) → Shrinks rest q → Shrinks (slot ∷ rest) (slot ∷ q)
Shrinks-cons none q rest h = omega arith
Shrinks-cons (some a) q rest h = omega arith

pub scan_argv-Shrinks :
    (opt : Str) (has_value : Bool) (xs : Argv) (v : Str) (r : Argv)
    → scan_argv opt has_value xs ≡ found v r
    → Shrinks xs r
scan_argv-Shrinks opt hv [] v r e = absurd (cc)
scan_argv-Shrinks opt hv (name ∷ rest) v r e =
    let (q, found_q, e') = keep-found name v r (scan opt hv rest) e in
    rw e' (Shrinks-cons name q rest (scan-Shrinks opt hv rest v q found_q))

pub pull-Shrinks :
    (id_short id_long : Str) (xs : Argv) (v : Str) (r : Argv)
    → pull id_short id_long xs ≡ found v r
    → Shrinks xs r
pull-Shrinks s l xs v r e = go (scan_argv s true xs) refl e
  where
    go :
        (q : Scan)
        → scan_argv s true xs ≡ q
        → or_scan q (scan_argv l true xs) ≡ found v r
        → Shrinks xs r
    go not_found e' h = scan_argv-Shrinks l true xs v r h
    go (found w t) e' h = scan_argv-Shrinks s true xs v r (e' ∙ h)
    go (no_value m) e' h = absurd (cc)
