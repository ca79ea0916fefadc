-- ===== src/Trace/Ledger.antt =====
-- The ownership rules of the flat API, as README.md and the prototypes state them: an object behind
-- a `const` pointer is borrowed, one that is passed otherwise is consumed, and the program owns what
-- it is returned until it drops it. The ledger follows a trace and refuses what breaks a rule.
use zenoh_flat_c.Base.{Bool, true, false, Option, none, some, List, [], ◌∷◌, ◌==◌, if◌then◌else◌}
use zenoh_flat_c.Trace.{
  Handle, Call, owner, Event, calls, prints, sleeps, returns, aborts, Trace, z_config_default,
  z_config_drop, z_open, z_session_drop, z_keyexpr_try_from, z_keyexpr_autocanonize, z_keyexpr_join,
  z_keyexpr_intersects, z_keyexpr_includes, z_keyexpr_drop, z_keyexpr_to_string,
  z_zbytes_from_slice, z_zbytes_clone, z_zbytes_to_bytes, z_zbytes_drop, z_session_put,
  z_session_delete, z_session_get, z_session_declare_publisher, z_session_declare_subscriber,
  z_session_declare_queryable, z_publisher_put, z_publisher_drop, z_subscriber_drop,
  z_queryable_drop, z_query_parameters, z_query_reply_success, z_session_zid, z_zenoh_id_to_string,
  z_session_routers_zid, z_session_peers_zid, z_hello_locators, z_scout, z_scout_drop, z_free,
  malloc, free,
}

pub record Effect : Type 0 where
  pub borrows : List Handle
  pub consumes : List Handle
  pub produces : List Handle

abbrev effect : List Handle → List Handle → List Handle → Effect
effect b c p = record { borrows = b; consumes = c; produces = p }

abbrev when : Bool → Handle → List Handle
when true h = h ∷ []
when false h = []

abbrev listed : Option Handle → List Handle
listed none = []
listed (some h) = h ∷ []

abbrev pub effect_of : Call → Effect
effect_of (z_config_default r) = effect [] [] (r ∷ [])
effect_of (z_config_drop h) = effect [] (h ∷ []) []
effect_of (z_open c r done) = effect [] (c ∷ []) (when done r)
effect_of (z_session_drop h) = effect [] (h ∷ []) []
effect_of (z_keyexpr_try_from s r done) = effect [] [] (when done r)
effect_of (z_keyexpr_autocanonize s r done) = effect [] [] (when done r)
effect_of (z_keyexpr_join a b r done) = effect (a ∷ []) [] (when done r)
effect_of (z_keyexpr_intersects a b) = effect (a ∷ b ∷ []) [] []
effect_of (z_keyexpr_includes a b) = effect (a ∷ b ∷ []) [] []
effect_of (z_keyexpr_drop h) = effect [] (h ∷ []) []
effect_of (z_keyexpr_to_string p r) = effect (owner p ∷ []) [] (r ∷ [])
effect_of (z_zbytes_from_slice s r) = effect [] [] (r ∷ [])
effect_of (z_zbytes_clone z r) = effect (z ∷ []) [] (r ∷ [])
effect_of (z_zbytes_to_bytes p r) = effect (owner p ∷ []) [] (r ∷ [])
effect_of (z_zbytes_drop h) = effect [] (h ∷ []) []
effect_of (z_session_put s k z done) = effect (s ∷ k ∷ []) (z ∷ []) []
effect_of (z_session_delete s k done) = effect (s ∷ k ∷ []) [] []
effect_of (z_session_get s k params timeout target z done) = effect (s ∷ k ∷ []) (listed z) []
effect_of (z_session_declare_publisher s k qos r done) = effect (s ∷ []) (k ∷ []) (when done r)
-- The closure's context goes with it.
effect_of (z_session_declare_subscriber s k contexts r done) =
    effect (s ∷ []) (k ∷ contexts) (when done r)
effect_of (z_session_declare_queryable s k complete r done) = effect (s ∷ []) (k ∷ []) (when done r)
effect_of (z_publisher_put p z a) = effect (p ∷ []) (z ∷ listed a) []
effect_of (z_publisher_drop h) = effect [] (h ∷ []) []
effect_of (z_subscriber_drop h) = effect [] (h ∷ []) []
effect_of (z_queryable_drop h) = effect [] (h ∷ []) []
effect_of (z_query_parameters q r) = effect (q ∷ []) [] (r ∷ [])
effect_of (z_query_reply_success q k z) = effect (q ∷ owner k ∷ []) (z ∷ []) []
effect_of (z_session_zid s) = effect (s ∷ []) [] []
effect_of (z_zenoh_id_to_string r) = effect [] [] (r ∷ [])
effect_of (z_session_routers_zid s r) = effect (s ∷ []) [] (r ∷ [])
effect_of (z_session_peers_zid s r) = effect (s ∷ []) [] (r ∷ [])
effect_of (z_hello_locators h rs) = effect (h ∷ []) [] rs
effect_of (z_scout what c r done) = effect (c ∷ []) [] (when done r)
effect_of (z_scout_drop h) = effect [] (h ∷ []) []
effect_of (z_free h) = effect [] (h ∷ []) []
effect_of (malloc r) = effect [] [] (r ∷ [])
effect_of (free h) = effect [] (h ∷ []) []

-- The handles that are owned, each once.
abbrev pub Owned : Type 0
Owned = List Handle

abbrev pub owns : Handle → Owned → Bool
owns h [] = false
owns h (g ∷ owned) = if g == h then true else owns h owned

abbrev prepend : Handle → Option Owned → Option Owned
prepend h none = none
prepend h (some owned) = some (h ∷ owned)

-- Giving an object up; `none` if it is not owned.
abbrev pub give_up : Handle → Owned → Option Owned
give_up h [] = none
give_up h (g ∷ owned) =
    let rest = prepend g (give_up h owned) in if g == h then some owned else rest

abbrev borrow_all : List Handle → Owned → Option Owned
borrow_all [] owned = some owned
borrow_all (h ∷ hs) owned = let rest = borrow_all hs owned in if owns h owned then rest else none

abbrev give_up_all : List Handle → Owned → Option Owned
give_up_all [] owned = some owned
give_up_all (h ∷ hs) owned = elim (give_up h owned) [
  | none ↦ none
  | some rest ↦ give_up_all hs rest
]

-- A variable that still owns an object must not be overwritten.
abbrev pub receive_all : List Handle → Owned → Option Owned
receive_all [] owned = some owned
receive_all (h ∷ hs) owned =
    let rest = receive_all hs (h ∷ owned) in if owns h owned then none else rest

infixl 5 ◌>=>◌
abbrev ◌>=>◌ : Option Owned → (Owned → Option Owned) → Option Owned
none >=> f = none
(some owned) >=> f = f owned

abbrev pub apply : Effect → Owned → Option Owned
apply e owned =
    borrow_all e.borrows owned
    >=> (λ o. give_up_all e.consumes o)
    >=> (λ o. receive_all e.produces o)

abbrev pub after_event : Event → Owned → Option Owned
after_event (calls c) owned = apply (effect_of c) owned
after_event (prints s) owned = some owned
after_event sleeps owned = some owned
after_event (returns s) owned = some owned
after_event aborts owned = some owned

-- What is owned after the trace; `none` if a call used or gave up what was not owned.
unfoldable pub ledger : Trace → Owned → Option Owned
ledger [] owned = some owned
ledger (e ∷ trace) owned = elim (after_event e owned) [
  | none ↦ none
  | some owned' ↦ ledger trace owned'
]
