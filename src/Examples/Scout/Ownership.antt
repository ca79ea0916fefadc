-- ===== src/Examples/Scout/Ownership.antt =====
-- What examples/z_scout.c owns, followed through a run.
use zenoh_flat_c.Base.{
  ℕ, suc, ◌+◌, ◌≡◌, refl, ◌∙◌, Bool, true, false, some, List, [], ◌∷◌, arith, ◌<◌, All, length, ap,
}
use zenoh_flat_c.Base.Text.{Str}
use zenoh_flat_c.Trace.{Handle, Trace, calls, z_free, scout, argument, locators, locator, zid_text}
use zenoh_flat_c.Trace.Ledger.{Owned, ledger, owns, give_up, receive_all}
use zenoh_flat_c.Examples.Scout.{
  Hello, print_locators, locator_handles, free_elements, hello_handler, hellos_trace, on_close,
  main,
}

print_locators-ledger :
    (i : ℕ) (texts : List Str) (rest : Trace) (owned : Owned)
    → ledger (print_locators i texts rest) owned ≡ ledger rest owned
unfolding print_locators ledger
print_locators-ledger i [] rest owned = refl
print_locators-ledger i (text ∷ texts) rest owned = print_locators-ledger (suc i) texts rest owned

-- The array's strings, received after `acc`.
abbrev pushed : ℕ → List Str → Owned → Owned
pushed i [] acc = acc
pushed i (_ ∷ texts) acc = pushed (suc i) texts (locator i ∷ acc)

Below : ℕ → Owned → Type 0
Below i acc = All (λ h. h < locator i) acc

owns-Below : (i : ℕ) (acc : Owned) → Below i acc → owns (locator i) acc ≡ false
unfolding Below
owns-Below i [] b = refl
owns-Below i (h ∷ acc) (b, bs) = ground (arith, owns-Below i acc bs)

Below-suc : (i : ℕ) (acc : Owned) → Below i acc → Below (suc i) acc
unfolding Below
Below-suc i [] b = tt
Below-suc i (h ∷ acc) (b, bs) = (omega arith, Below-suc i acc bs)

receive_all-pushed :
    (i : ℕ) (texts : List Str) (acc : Owned)
    → Below i acc
    → receive_all (locator_handles i texts) acc ≡ some (pushed i texts acc)
unfolding locator_handles
receive_all-pushed i [] acc b = refl
receive_all-pushed i (_ ∷ texts) acc b = rw (owns-Below i acc b) (
    receive_all-pushed (suc i) texts (locator i ∷ acc)
      (unfold Below in (omega arith, Below-suc i acc b)))

give_up-pushed :
    (h j : ℕ) (texts : List Str) (acc acc' : Owned)
    → h < locator j
    → give_up h acc ≡ some acc'
    → give_up h (pushed j texts acc) ≡ some (pushed j texts acc')
give_up-pushed h j [] acc acc' b e = e
give_up-pushed h j (_ ∷ texts) acc acc' b e =
    give_up-pushed h (suc j) texts (locator j ∷ acc) (locator j ∷ acc') (omega arith) (ground arith)

ledger-z_free :
    (h : Handle) (rest : Trace) (owned owned' : Owned)
    → give_up h owned ≡ some owned'
    → ledger (calls (z_free h) ∷ rest) owned ≡ ledger rest owned'
unfolding ledger
ledger-z_free h rest owned owned' e = rw (e, ledger)

-- Each string of the array is freed once.
free_elements-ledger :
    (i : ℕ) (texts : List Str) (rest : Trace) (acc : Owned)
    → ledger (free_elements (locator_handles i texts) rest) (pushed i texts acc) ≡ ledger rest acc
unfolding free_elements locator_handles ledger
free_elements-ledger i [] rest acc = refl
free_elements-ledger i (_ ∷ texts) rest acc =
    ledger-z_free (locator i) (free_elements (locator_handles (suc i) texts) rest) _
      (pushed (suc i) texts acc)
      (give_up-pushed (locator i) (suc i) texts (locator i ∷ acc) acc (omega arith) (ground arith))
    ∙ free_elements-ledger (suc i) texts rest acc

hello_handler-ledger :
    (hello : Hello) (rest : Trace)
    → ledger (hello_handler hello rest) (scout ∷ argument ∷ [])
      ≡ ledger rest (scout ∷ argument ∷ [])
unfolding hello_handler ledger
hello_handler-ledger hello rest =
    let owned : Owned = locators ∷ zid_text ∷ scout ∷ argument ∷ [] in
    rw (receive_all-pushed 0 hello.locator_texts owned (unfold Below in omega arith), ledger)
      (print_locators-ledger 0 hello.locator_texts _ _
        ∙ free_elements-ledger 0 hello.locator_texts _ owned)

hellos_trace-ledger :
    (hellos : List Hello) (count : ℕ) (rest : ℕ → Trace)
    → ledger (hellos_trace hellos count rest) (scout ∷ argument ∷ [])
      ≡ ledger (rest (count + length hellos)) (scout ∷ argument ∷ [])
unfolding hellos_trace
hellos_trace-ledger [] count rest = let same : count + 0 ≡ count = omega arith in rw same
hellos_trace-ledger (hello ∷ hellos) count rest =
    hello_handler-ledger hello _
    ∙ hellos_trace-ledger hellos (count + 1) rest
    ∙ ap (λ n. ledger (rest n) (scout ∷ argument ∷ [])) (omega arith)

-- Whether scouting starts or not, and whatever hellos arrive, with any number of locators, z_scout
-- uses no object that it does not own, frees each text, each array and each of its strings exactly
-- once, and owns nothing when it returns; the hellos stay with the library.
pub scout_ownership :
    (starts : Bool) (hellos : List Hello)
    → ledger (main starts hellos) (argument ∷ []) ≡ some (argument ∷ [])
unfolding ledger main on_close
scout_ownership false hellos = refl
scout_ownership true hellos = hellos_trace-ledger hellos 0 _ ∙ ground arith
