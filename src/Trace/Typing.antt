-- ===== src/Trace/Typing.antt =====
-- The static types of include/zenoh_flat.h along a trace: every variable has the type of what was
-- stored in it last, and every call is made with arguments of the types of its prototype.
use zenoh_flat_c.Base.{
  ℕ, ◌&&◌, ◌==◌, Bool, true, false, Option, none, some, List, [], ◌∷◌, if◌then◌else◌,
}
use zenoh_flat_c.Api.{
  CType, void, char, byte, object, closure, pointer_to, const_pointer_to, Object, config_t,
  encoding_t, hello_t, zenoh_id_t, keyexpr_t, subscriber_t, session_t, sample_t, liveliness_token_t,
  reply_t, publisher_t, zbytes_t, querier_t, query_t, queryable_t, reply_error_t, timestamp_t,
  scout_t,
}
use zenoh_flat_c.Trace.{Handle, Place, whole, part, calls, prints, sleeps, returns, aborts, Trace}
use zenoh_flat_c.Trace.Invocation.{
  Argument, at, absent, other, closing_over, Invocation, invocation,
}

abbrev object_code : Object → ℕ
object_code config_t = 0
object_code encoding_t = 1
object_code hello_t = 2
object_code zenoh_id_t = 3
object_code keyexpr_t = 4
object_code subscriber_t = 5
object_code session_t = 6
object_code sample_t = 7
object_code liveliness_token_t = 8
object_code reply_t = 9
object_code publisher_t = 10
object_code zbytes_t = 11
object_code querier_t = 12
object_code query_t = 13
object_code queryable_t = 14
object_code reply_error_t = 15
object_code timestamp_t = 16
object_code scout_t = 17

-- What a variable holds, or points to: an object, a text, bytes, or texts. Nothing else is tracked.
pub data Held : Type 0 where
  nothing : Held
  an : Object → Held
  a_text some_bytes some_texts : Held

abbrev pub same : Held → Held → Bool
same (an o) (an o') = object_code o == object_code o'
same a_text a_text = true
same some_bytes some_bytes = true
same some_texts some_texts = true
same _ _ = false

-- What a value of the type is, or points to.
abbrev pub held : CType → Held
held (object o) = an o
held (pointer_to (object o)) = an o
held (const_pointer_to (object o)) = an o
held (pointer_to char) = a_text
held (pointer_to byte) = some_bytes
held (pointer_to (pointer_to char)) = some_texts
held _ = nothing

abbrev pub Types : Type 0
Types = Handle → Held

abbrev pub no_types : Types
no_types h = nothing

abbrev pub storing : Handle → Held → Types → Types
storing r t types h = if h == r then t else types h

abbrev accessed : List CType → CType → Held → Held
accessed (const_pointer_to t ∷ []) result inner =
    if same (held (const_pointer_to t)) inner then held result else nothing
accessed _ result inner = nothing

-- An accessor takes a `const` pointer to what it looks into.
abbrev pub type_of : Types → Place → Held
type_of types (whole h) = types h
type_of types (part f p) = accessed f.parameters f.result (type_of types p)

-- The types of which an argument is no object of the program.
abbrev is_plain : CType → Bool
is_plain (pointer_to (object _)) = false
is_plain (const_pointer_to (object encoding_t)) = true
is_plain (const_pointer_to (object zenoh_id_t)) = true
is_plain (const_pointer_to (object _)) = false
is_plain (object _) = false
is_plain (closure _) = false
is_plain _ = true

-- `void *` takes every pointer.
abbrev pub fits : Types → CType → Argument → Bool
fits types (pointer_to void) (at p) = true
fits types (pointer_to t) (at p) = same (held (pointer_to t)) (type_of types p)
fits types (const_pointer_to t) (at p) = same (held (const_pointer_to t)) (type_of types p)
fits types (pointer_to t) absent = true
fits types (const_pointer_to t) absent = true
fits types (closure c) (closing_over contexts) = true
fits types t other = is_plain t
fits types _ _ = false

-- As many arguments as parameters, each of its type.
abbrev pub fit_all : Types → List CType → List Argument → Bool
fit_all types [] [] = true
fit_all types (t ∷ ts) (a ∷ arguments) = fits types t a && fit_all types ts arguments
fit_all types _ _ = false

abbrev pub storing_texts : List Handle → Types → Types
storing_texts [] types = types
storing_texts (r ∷ rs) types = storing_texts rs (storing r a_text types)

-- The first variable holds the result; any others hold the texts that it points to.
abbrev pub storing_results : CType → List Handle → Types → Types
storing_results t [] types = types
storing_results t (r ∷ rs) types = storing_texts rs (storing r (held t) types)

abbrev pub fits_call : Types → Option Invocation → Bool
fits_call types none = true
fits_call types (some i) = fit_all types i.function.parameters i.arguments

abbrev pub after_invocation : Types → Option Invocation → Types
after_invocation types none = types
after_invocation types (some i) = storing_results i.function.result i.results types

-- Every call of the trace is well typed.
unfoldable pub well_typed : Types → Trace → Bool
well_typed types [] = true
well_typed types (calls c ∷ trace) =
    fits_call types (invocation c) && well_typed (after_invocation types (invocation c)) trace
well_typed types (prints _ ∷ trace) = well_typed types trace
well_typed types (sleeps ∷ trace) = well_typed types trace
well_typed types (returns _ ∷ trace) = well_typed types trace
well_typed types (aborts ∷ trace) = well_typed types trace
