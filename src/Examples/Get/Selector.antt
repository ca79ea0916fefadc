-- ===== src/Examples/Get/Selector.antt =====
-- The selector of examples/z_get.c.
use zenoh_flat_c.Base.{◌≡◌, refl, ap, subst, ◌↔◌, Option, none, some, ◌∷◌, ◌++◌}
use zenoh_flat_c.Base.Text.{
  Str, Lacks, split_char, split_char-append, split_char-eq_none, split_char-none, split_char_split,
}
use zenoh_flat_c.Examples.Get.{split_selector}

-- A selector is a key expression alone, or one with parameters behind the first `?`.
pub data SelectorOf (selector key : Str) : Option Str → Type 0 where
  key_alone : Lacks b'?' key → selector ≡ key → SelectorOf selector key none
  with_parameters :
      (params : Str)
      → Lacks b'?' key
      → selector ≡ key ++ b'?' ∷ params
      → SelectorOf selector key (some params)

split_selector-SelectorOf :
    (selector key : Str) (params : Option Str)
    → split_selector selector ≡ (key, params)
    → SelectorOf selector key params
unfolding split_selector
split_selector-SelectorOf selector key params h = go (split_char b'?' selector) refl
  where
    go : (o : Option (Str × Str)) → split_char b'?' selector ≡ o → SelectorOf selector key params
    go none e =
        let cut : (selector, none) ≡ (key, params) = rw (e, split_selector) at h in
        subst (λ p. SelectorOf selector p.0 p.1) cut
          (key_alone (split_char-none b'?' selector e) refl)
    go (some (k, ps)) e =
        let cut : (k, some ps) ≡ (key, params) = rw (e, split_selector) at h in
        let (lacks, joined) = split_char_split b'?' selector k ps e in
        subst (λ p. SelectorOf selector p.0 p.1) cut (with_parameters ps lacks joined)

pub SelectorOf-split_selector :
    (selector key : Str) (params : Option Str)
    → SelectorOf selector key params
    → split_selector selector ≡ (key, params)
unfolding split_selector
SelectorOf-split_selector selector key none (key_alone lacks e) =
    rw (e, split_selector, split_char-eq_none b'?' key lacks) (ap (λ k. (k, none)) e)
SelectorOf-split_selector selector key (some _) (with_parameters ps lacks e) =
    rw (e, split_selector, split_char-append b'?' key ps lacks)

-- z_get asks for the key expression and the parameters that make up the selector, with the first `?`
-- between them, and for no parameters exactly where the selector has no `?`.
pub split_selector_iff :
    (selector key : Str) (params : Option Str)
    → (split_selector selector ≡ (key, params)) ↔ SelectorOf selector key params
split_selector_iff selector key params =
    (split_selector-SelectorOf selector key params, SelectorOf-split_selector selector key params)
