-- ===== src/Args/Names.antt =====
-- When an argument is an option: `form` of Args.antt against a description of the command line.
use zenoh_flat_c.Base.{ℕ, ◌<◌, ◌≡◌, refl, ap, true, [], ◌∷◌, ◌++◌, arith, length}
use zenoh_flat_c.Base.Text.{Str, starts_with, starts_with_split, starts_with-append}
use zenoh_flat_c.Args.{Form, other, short, long, form}

-- `-o`
abbrev pub ShortOf : Str → Str → Type 0
ShortOf opt a = (length opt ≡ 1) × (a ≡ b'-' ∷ opt)

-- `--opt` with any text behind it
abbrev pub LongOf : Str → Str → Type 0
LongOf opt a = (1 < length opt) × ((suffix : Str) × (a ≡ b'-' ∷ b'-' ∷ (opt ++ suffix)))

pub form_short : (opt a : Str) → ShortOf opt a → form opt a ≡ short
unfolding form
form_short [] a (one, e) = absurd (omega arith)
form_short (o ∷ []) a (one, e) = ground arith
form_short (o ∷ p ∷ opt) a (one, e) = absurd (omega arith)

pub form_long : (opt a : Str) → LongOf opt a → form opt a ≡ long
unfolding form
form_long [] a (more, _) = absurd (omega arith)
form_long (o ∷ []) a (more, _) = absurd (omega arith)
form_long (o ∷ p ∷ opt) a (more, (suffix, e)) =
    ground (arith, starts_with-append (o ∷ p ∷ opt) suffix)

pub short_form : (opt a : Str) → form opt a ≡ short → ShortOf opt a
unfolding form
short_form [] a h = absurd (ground arith)
short_form (o ∷ []) [] h = absurd (ground arith)
short_form (o ∷ []) (x ∷ []) h = absurd (ground arith)
short_form (o ∷ []) (x ∷ y ∷ []) h = ground arith
short_form (o ∷ []) (x ∷ y ∷ z ∷ a) h = absurd (ground arith)
short_form (o ∷ p ∷ opt) a h = absurd (ground arith)

long_tail :
    (opt rest : Str) {x y : ℕ}
    → x ≡ b'-'
    → y ≡ b'-'
    → starts_with rest opt ≡ true
    → (suffix : Str) × (x ∷ y ∷ rest ≡ b'-' ∷ b'-' ∷ (opt ++ suffix))
long_tail opt rest ex ey h =
    let split = starts_with_split rest opt h in
    (split.0, rw (ex, ey) (ap (λ t. b'-' ∷ b'-' ∷ t) split.1))

pub long_form : (opt a : Str) → form opt a ≡ long → LongOf opt a
unfolding form
long_form [] a h = absurd (ground arith)
long_form (o ∷ []) a h = absurd (ground arith)
long_form (o ∷ p ∷ opt) [] h = absurd (ground arith)
long_form (o ∷ p ∷ opt) (x ∷ []) h = absurd (ground arith)
long_form (o ∷ p ∷ opt) (x ∷ y ∷ rest) h =
    (omega arith, long_tail (o ∷ p ∷ opt) rest (ground arith) (ground arith) (ground arith))

-- Neither name of the option: the argument is left alone.
abbrev pub Unnamed : Str → Str → Type 0
Unnamed opt a = (¬ ShortOf opt a) × (¬ LongOf opt a)

pub form_other : (opt a : Str) → Unnamed opt a → form opt a ≡ other
form_other opt a (not_short, not_long) = go (form opt a) refl
  where
    go : (f : Form) → form opt a ≡ f → form opt a ≡ other
    go other e = e
    go short e = absurd (not_short (short_form opt a e))
    go long e = absurd (not_long (long_form opt a e))

pub other_form : (opt a : Str) → form opt a ≡ other → Unnamed opt a
other_form opt a e = (λ s. cc (e, form_short opt a s), λ l. cc (e, form_long opt a l))
