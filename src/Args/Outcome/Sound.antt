-- ===== src/Args/Outcome/Sound.antt =====
-- From the loop of `parse_opt` in examples/parse_args.h to the description of Args/Outcome.antt.
use zenoh_flat_c.Base.{◌≡◌, refl, ap, inl, inr, Bool, true, false, Option, none, some, [], ◌∷◌}
use zenoh_flat_c.Base.Text.{Str, split_char, split_char_split, split_char-none}
use zenoh_flat_c.Process.{Argv}
use zenoh_flat_c.Args.{Scan, keep, scan, form, Form, other, short, long, take_long, next_value}
use zenoh_flat_c.Args.Names.{LongOf, short_form, long_form, other_form}
use zenoh_flat_c.Args.Outcome.{
  Skipped, NeedsNext, after_short, after_long, Outcome, absent, flag, attached, next, missing,
}

-- One more entry in front that the option skips.
Outcome-keep :
    (opt : Str) (has_value : Bool) (slot : Option Str) (xs : Argv) (r : Scan)
    → Skipped opt slot
    → Outcome opt has_value xs r
    → Outcome opt has_value (slot ∷ xs) (keep slot r)
Outcome-keep opt hv slot xs r s (absent all e) = absent (s, all) (rw e)
Outcome-keep opt hv slot xs r s (flag before after a all n hf ex e) =
    flag (slot ∷ before) after a (s, all) n hf (ap (λ l. slot ∷ l) ex) (rw e)
Outcome-keep opt hv slot xs r s (attached before after a value all n ht ex e) =
    attached (slot ∷ before) after a value (s, all) n ht (ap (λ l. slot ∷ l) ex) (rw e)
Outcome-keep opt hv slot xs r s (next before after a value m all n ht ex e) =
    next (slot ∷ before) after a value m (s, all) n ht (ap (λ l. slot ∷ l) ex) (rw e)
Outcome-keep opt hv slot xs r s (missing before after a m all n ht no_arg ex e) =
    missing (slot ∷ before) after a m (s, all) n ht no_arg (ap (λ l. slot ∷ l) ex) (rw e)

next_value-Outcome :
    (opt a message : Str) (rest : Argv)
    → NeedsNext opt a message
    → Outcome opt true (some a ∷ rest) (next_value message rest)
next_value-Outcome opt a m [] n = missing [] [] a m tt n refl tt refl refl
next_value-Outcome opt a m (none ∷ rest) n = missing [] (none ∷ rest) a m tt n refl tt refl refl
next_value-Outcome opt a m (some v ∷ rest) n = next [] rest a v m tt n refl refl refl

take_long-Outcome :
    (opt a : Str) (rest : Argv)
    → LongOf opt a
    → Outcome opt true (some a ∷ rest) (take_long opt true a rest)
take_long-Outcome opt a rest l = go (split_char b'=' a) refl
  where
    go :
        (o : Option (Str × Str))
        → split_char b'=' a ≡ o
        → Outcome opt true (some a ∷ rest) (take_long opt true a rest)
    go none e =
        rw (e, take_long)
          (next_value-Outcome opt a _ rest (after_long l (split_char-none b'=' a e) refl))
    go (some (before, value)) e =
        let split = split_char_split b'=' a before value e in
        rw (e, take_long)
          (attached [] rest a value tt (l, (before, split.0, split.1)) refl refl refl)

-- Everything that the loop does is described.
pub scan-Outcome :
    (opt : Str) (has_value : Bool) (xs : Argv) → Outcome opt has_value xs (scan opt has_value xs)
unfolding scan
scan-Outcome opt hv [] = absent tt refl
scan-Outcome opt hv (none ∷ rest) = Outcome-keep opt hv none rest _ tt (scan-Outcome opt hv rest)
scan-Outcome opt hv (some a ∷ rest) =
    let ih = scan-Outcome opt hv rest in go (form opt a) refl hv ih
  where
    go :
        (f : Form)
        → form opt a ≡ f
        → (hv : Bool) → Outcome opt hv rest (scan opt hv rest)
        → Outcome opt hv (some a ∷ rest) (scan opt hv (some a ∷ rest))
    go other e hv ih = rw (e, scan) (Outcome-keep opt hv (some a) rest _ (other_form opt a e) ih)
    go short e false ih = rw (e, scan) (flag [] rest a tt (inl (short_form opt a e)) refl refl refl)
    go short e true ih =
        rw (e, scan) (next_value-Outcome opt a _ rest (after_short (short_form opt a e) refl))
    go long e false ih = rw (e, scan) (flag [] rest a tt (inr (long_form opt a e)) refl refl refl)
    go long e true ih = rw (e, scan) (take_long-Outcome opt a rest (long_form opt a e))
