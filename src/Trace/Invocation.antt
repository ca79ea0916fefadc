-- ===== src/Trace/Invocation.antt =====
-- Each call of the programs as an invocation of a function of include/zenoh_flat.h: its prototype, its
-- arguments in their order, and the variables for its result.
use zenoh_flat_c.Base.{Bool, true, Option, none, some, List, [], ◌∷◌}
use zenoh_flat_c.Enums.{CongestionControl, Priority}
use zenoh_flat_c.Api.{Prototype}
use zenoh_flat_c.Api.Config
use zenoh_flat_c.Api.Hello
use zenoh_flat_c.Api.Keyexpr
use zenoh_flat_c.Api.Library
use zenoh_flat_c.Api.Publisher
use zenoh_flat_c.Api.Query
use zenoh_flat_c.Api.Queryable
use zenoh_flat_c.Api.Scout
use zenoh_flat_c.Api.Session
use zenoh_flat_c.Api.Subscriber
use zenoh_flat_c.Api.Zbytes
use zenoh_flat_c.Api.ZenohId
use zenoh_flat_c.Trace.{
  Handle, Place, whole, Call, z_config_default, z_config_drop, z_open, z_session_drop,
  z_keyexpr_try_from, z_keyexpr_autocanonize, z_keyexpr_join, z_keyexpr_intersects,
  z_keyexpr_includes, z_keyexpr_drop, z_keyexpr_to_string, z_zbytes_from_slice, z_zbytes_clone,
  z_zbytes_to_bytes, z_zbytes_drop, z_session_put, z_session_delete, z_session_get,
  z_session_declare_publisher, z_session_declare_subscriber, z_session_declare_queryable,
  z_publisher_put, z_publisher_drop, z_subscriber_drop, z_queryable_drop, z_query_parameters,
  z_query_reply_success, z_session_zid, z_zenoh_id_to_string, z_session_routers_zid,
  z_session_peers_zid, z_hello_locators, z_scout, z_scout_drop, z_free, malloc, free,
}

pub data Argument : Type 0 where
  at : Place → Argument
  -- NULL
  absent : Argument
  -- what is no object of the program: a number, a text, a constant, the address of a plain variable
  other : Argument
  -- a closure, with the variables that its context takes over
  closing_over : List Handle → Argument

pub record Invocation : Type 0 where
  pub function : Prototype
  pub arguments : List Argument
  pub results : List Handle
  pub succeeds : Bool

abbrev invoke : Prototype → List Argument → List Handle → Bool → Option Invocation
invoke f arguments results succeeds =
    some (record { function = f; arguments = arguments; results = results; succeeds = succeeds })

abbrev it : Handle → Argument
it h = at (whole h)

abbrev optional : Option Handle → Argument
optional none = absent
optional (some h) = it h

-- The three parameters for the quality of service.
abbrev qos_arguments : Option (CongestionControl × Priority × Bool) → List Argument
qos_arguments none = absent ∷ absent ∷ absent ∷ absent ∷ []
qos_arguments (some _) = other ∷ other ∷ other ∷ absent ∷ []

-- `malloc` and `free` are no functions of the header.
abbrev pub invocation : Call → Option Invocation
invocation (z_config_default r) = invoke Config.z_config_default [] (r ∷ []) true
invocation (z_config_drop h) = invoke Config.z_config_drop (it h ∷ []) [] true
invocation (z_open c r done) = invoke Session.z_open (it c ∷ absent ∷ []) (r ∷ []) done
invocation (z_session_drop h) = invoke Session.z_session_drop (it h ∷ []) [] true
invocation (z_keyexpr_try_from s r done) =
    invoke Keyexpr.z_keyexpr_try_from (other ∷ absent ∷ []) (r ∷ []) done
invocation (z_keyexpr_autocanonize s r done) =
    invoke Keyexpr.z_keyexpr_autocanonize (other ∷ absent ∷ []) (r ∷ []) done
invocation (z_keyexpr_join a b r done) =
    invoke Keyexpr.z_keyexpr_join (it a ∷ other ∷ absent ∷ []) (r ∷ []) done
invocation (z_keyexpr_intersects a b) =
    invoke Keyexpr.z_keyexpr_intersects (it a ∷ it b ∷ []) [] true
invocation (z_keyexpr_includes a b) = invoke Keyexpr.z_keyexpr_includes (it a ∷ it b ∷ []) [] true
invocation (z_keyexpr_drop h) = invoke Keyexpr.z_keyexpr_drop (it h ∷ []) [] true
invocation (z_keyexpr_to_string p r) = invoke Keyexpr.z_keyexpr_to_string (at p ∷ []) (r ∷ []) true
invocation (z_zbytes_from_slice s r) =
    invoke Zbytes.z_zbytes_from_slice (other ∷ other ∷ []) (r ∷ []) true
invocation (z_zbytes_clone z r) = invoke Zbytes.z_zbytes_clone (it z ∷ []) (r ∷ []) true
invocation (z_zbytes_to_bytes p r) =
    invoke Zbytes.z_zbytes_to_bytes (at p ∷ other ∷ []) (r ∷ []) true
invocation (z_zbytes_drop h) = invoke Zbytes.z_zbytes_drop (it h ∷ []) [] true
invocation (z_session_put s k z done) =
    invoke Session.z_session_put
      (it s ∷ it k ∷ it z ∷ absent ∷ absent ∷ absent ∷ absent ∷ absent ∷ absent ∷ []) [] done
invocation (z_session_delete s k done) =
    invoke Session.z_session_delete (it s ∷ it k ∷ absent ∷ absent ∷ absent ∷ absent ∷ absent ∷ [])
      [] done
invocation (z_session_get s k params timeout target z done) =
    invoke Session.z_session_get
      (it s
        ∷ it k
        ∷ other
        ∷ other
        ∷ other
        ∷ absent
        ∷ absent
        ∷ absent
        ∷ absent
        ∷ absent
        ∷ optional z
        ∷ absent
        ∷ absent
        ∷ closing_over []
        ∷ closing_over []
        ∷ absent
        ∷ [])
      [] done
invocation (z_session_declare_publisher s k qos r done) =
    invoke Session.z_session_declare_publisher (it s ∷ it k ∷ qos_arguments qos) (r ∷ []) done
invocation (z_session_declare_subscriber s k contexts r done) =
    invoke Session.z_session_declare_subscriber
      (it s ∷ it k ∷ closing_over contexts ∷ closing_over [] ∷ absent ∷ []) (r ∷ []) done
invocation (z_session_declare_queryable s k complete r done) =
    invoke Session.z_session_declare_queryable
      (it s ∷ it k ∷ other ∷ closing_over [] ∷ closing_over [] ∷ absent ∷ []) (r ∷ []) done
invocation (z_publisher_put p z a) =
    invoke Publisher.z_publisher_put (it p ∷ it z ∷ other ∷ optional a ∷ absent ∷ []) [] true
invocation (z_publisher_drop h) = invoke Publisher.z_publisher_drop (it h ∷ []) [] true
invocation (z_subscriber_drop h) = invoke Subscriber.z_subscriber_drop (it h ∷ []) [] true
invocation (z_queryable_drop h) = invoke Queryable.z_queryable_drop (it h ∷ []) [] true
invocation (z_query_parameters q r) = invoke Query.z_query_parameters (it q ∷ []) (r ∷ []) true
invocation (z_query_reply_success q k z) =
    invoke Query.z_query_reply_success
      (it q ∷ at k ∷ it z ∷ absent ∷ absent ∷ absent ∷ absent ∷ absent ∷ []) [] true
invocation (z_session_zid s) = invoke Session.z_session_zid (it s ∷ []) [] true
invocation (z_zenoh_id_to_string r) = invoke ZenohId.z_zenoh_id_to_string (other ∷ []) (r ∷ []) true
invocation (z_session_routers_zid s r) =
    invoke Session.z_session_routers_zid (it s ∷ other ∷ []) (r ∷ []) true
invocation (z_session_peers_zid s r) =
    invoke Session.z_session_peers_zid (it s ∷ other ∷ []) (r ∷ []) true
invocation (z_hello_locators h rs) = invoke Hello.z_hello_locators (it h ∷ other ∷ []) rs true
invocation (z_scout what c r done) =
    invoke Scout.z_scout (other ∷ it c ∷ closing_over [] ∷ closing_over [] ∷ absent ∷ []) (r ∷ [])
      done
invocation (z_scout_drop h) = invoke Scout.z_scout_drop (it h ∷ []) [] true
invocation (z_free h) = invoke Library.z_free (it h ∷ []) [] true
invocation (malloc r) = none
invocation (free h) = none
