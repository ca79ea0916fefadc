-- ===== src/Examples/Typed/Arrays.antt =====
-- The same for examples/z_info.c and examples/z_scout.c, whose calls go round arrays.
use zenoh_flat_c.Base.{
  ℕ, suc, ◌+◌, ◌<◌, ◌≡◌, refl, ◌∙◌, inl, inr, Bool-cases, Bool, true, false, List, [], ◌∷◌, arith,
}
use zenoh_flat_c.Base.Text.{Str, codes}
use zenoh_flat_c.Api.{session_t, hello_t, scout_t}
use zenoh_flat_c.Base.Int.{pos}
use zenoh_flat_c.Trace.{
  z_scout_drop, zid_text, locators, Handle, Trace, calls, returns, z_session_drop,
  z_session_peers_zid, zid_array, session, argument, scout, locator,
}
use zenoh_flat_c.Trace.Typing.{
  Types, no_types, storing, storing_texts, an, a_text, some_texts, well_typed,
}
use zenoh_flat_c.Examples.{Answers, open_session}
use zenoh_flat_c.Examples.Info
use zenoh_flat_c.Examples.Scout
use zenoh_flat_c.Examples.Scout.{
  Hello, locator_handles, free_elements, print_locators, hello_handler, hellos_trace, on_close,
}
use zenoh_flat_c.Examples.Typed.{start_types}

-- What follows is well typed wherever the session is a session.
abbrev FollowsSession : Trace → Type 0
FollowsSession rest = (t : Types) → t session ≡ an session_t → well_typed t rest ≡ true

print_zids_typed :
    (zids : List Str) (rest : Trace)
    → FollowsSession rest
    → FollowsSession (Info.print_zids zids rest)
unfolding well_typed Info.print_zids Info.print_zid
print_zids_typed [] rest h t e = h t e
print_zids_typed (zid ∷ zids) rest h t e = print_zids_typed zids rest h _ e

print_zid_array_typed :
    (label : Str) (zids : List Str) (rest : Trace)
    → FollowsSession rest
    → FollowsSession (Info.print_zid_array label zids rest)
unfolding well_typed Info.print_zid_array
print_zid_array_typed label zids rest h = print_zids_typed zids _ h

pub info_typed :
    (answers : Answers) (own : Str) (routers peers : List Str)
    → well_typed start_types (Info.main answers own routers peers) ≡ true
unfolding well_typed Info.main Info.print_zid open_session
info_typed answers own routers peers = elim (Bool-cases answers.opens) [
  | inl opens ↦
      rw opens (print_zid_array_typed (codes "routers ids") routers _ after_routers _ refl)
  | inr fails ↦ rw fails
]
  where
    ending : Trace
    ending = calls (z_session_drop session) ∷ returns (pos 0) ∷ []

    after_peers : FollowsSession ending
    after_peers t e = rw e

    after_routers : FollowsSession (
        calls (z_session_peers_zid session zid_array)
        ∷ Info.print_zid_array (codes "peers ids") peers ending)
    after_routers t e =
        rw e (print_zid_array_typed (codes "peers ids") peers ending after_peers _ e)

on_close_typed : (n : ℕ) (t : Types) → well_typed t (on_close n (returns (pos 0) ∷ [])) ≡ true
unfolding well_typed on_close
on_close_typed n t = ground arith

-- The variables of the locators lie behind all the others.
storing_texts-locators :
    (i : ℕ) (texts : List Str) (types : Types) (h : Handle)
    → h < 30
    → storing_texts (locator_handles i texts) types h ≡ types h
unfolding locator_handles
storing_texts-locators i [] types h small = refl
storing_texts-locators i (text ∷ texts) types h small =
    storing_texts-locators (suc i) texts (storing (locator i) a_text types) h small ∙ ground arith

print_locators_typed :
    (i : ℕ) (texts : List Str) (rest : Trace) (types : Types)
    → well_typed types (print_locators i texts rest) ≡ well_typed types rest
unfolding well_typed print_locators
print_locators_typed i [] rest types = refl
print_locators_typed i (text ∷ texts) rest types = print_locators_typed (suc i) texts rest types

free_elements_typed :
    (hs : List Handle) (rest : Trace) (types : Types)
    → well_typed types (free_elements hs rest) ≡ well_typed types rest
unfolding well_typed free_elements
free_elements_typed [] rest types = refl
free_elements_typed (h ∷ hs) rest types = free_elements_typed hs rest types

-- What follows is well typed while scouting goes on and a hello is at hand.
record Scouting (t : Types) : Type 0 where
  hello_is : t argument ≡ an hello_t
  scout_is : t scout ≡ an scout_t

hello_handler_typed :
    (hello : Hello) (rest : Trace)
    → ((t : Types) → Scouting t → well_typed t rest ≡ true)
    → (t : Types) → Scouting t
    → well_typed t (hello_handler hello rest) ≡ true
unfolding well_typed hello_handler
hello_handler_typed hello rest h t s =
    rw
      (
        s.hello_is,
        print_locators_typed 0 hello.locator_texts _ after,
        free_elements_typed (locator_handles 0 hello.locator_texts) _ after,
      )
      (h after (record {
        hello_is = kept argument (omega arith) ∙ s.hello_is;
        scout_is = kept scout (omega arith) ∙ s.scout_is;
      }))
  where
    before : Types
    before = storing locators some_texts (storing zid_text a_text t)

    after : Types
    after = storing_texts (locator_handles 0 hello.locator_texts) before

    kept : (v : Handle) → v < 30 → after v ≡ before v
    kept v small = storing_texts-locators 0 hello.locator_texts before v small

hellos_trace_typed :
    (hellos : List Hello) (count : ℕ) (rest : ℕ → Trace)
    → ((n : ℕ) (t : Types) → Scouting t → well_typed t (rest n) ≡ true)
    → (t : Types) → Scouting t
    → well_typed t (hellos_trace hellos count rest) ≡ true
unfolding hellos_trace
hellos_trace_typed [] count rest h t s = h count t s
hellos_trace_typed (hello ∷ hellos) count rest h t s =
    hello_handler_typed hello (hellos_trace hellos (count + 1) rest)
      (hellos_trace_typed hellos (count + 1) rest h) t s

pub scout_typed :
    (starts : Bool) (hellos : List Hello)
    → well_typed (storing argument (an hello_t) no_types) (Scout.main starts hellos) ≡ true
unfolding well_typed Scout.main
scout_typed false hellos = refl
scout_typed true hellos =
    hellos_trace_typed hellos 0 _ ending _ (record { hello_is = refl; scout_is = refl })
  where
    ending :
        (n : ℕ) (t : Types)
        → Scouting t
        → well_typed t (calls (z_scout_drop scout) ∷ on_close n (returns (pos 0) ∷ [])) ≡ true
    ending n t s = rw s.scout_is (on_close_typed n t)
