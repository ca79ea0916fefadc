-- ===== src/Api/Session.antt =====
-- include/zenoh_flat.h, the functions for sessions.
use zenoh_flat_c.Base.{List, [], ◌∷◌}
use zenoh_flat_c.Base.Text.{codes}
use zenoh_flat_c.Api.{
  Prototype, prototype, boolean, char, closure, config_t, congestion_control_t,
  consolidation_mode_t, const_pointer_to, drop_closure, encoding_t, enumeration, error_out, int64,
  keyexpr_t, object, pointer_to, priority_t, publisher_t, querier_t, query_closure, query_target_t,
  queryable_t, reply_closure, reply_key_expr_t, sample_closure, session_t, subscriber_t,
  timestamp_t, uintptr, void, zbytes_t, zenoh_id_t,
}

abbrev pub z_open : Prototype
z_open =
    prototype (codes "z_open") (pointer_to (object session_t))
      ((pointer_to (object config_t)) ∷ error_out ∷ [])

abbrev pub z_session_close : Prototype
z_session_close =
    prototype (codes "z_session_close") boolean
      ((const_pointer_to (object session_t)) ∷ error_out ∷ [])

abbrev pub z_session_declare_keyexpr : Prototype
z_session_declare_keyexpr =
    prototype (codes "z_session_declare_keyexpr") (pointer_to (object keyexpr_t))
      ((const_pointer_to (object session_t)) ∷ (const_pointer_to char) ∷ error_out ∷ [])

abbrev pub z_session_declare_publisher : Prototype
z_session_declare_publisher =
    prototype (codes "z_session_declare_publisher") (pointer_to (object publisher_t)) (
      (const_pointer_to (object session_t))
      ∷ (pointer_to (object keyexpr_t))
      ∷ (const_pointer_to (enumeration congestion_control_t))
      ∷ (const_pointer_to (enumeration priority_t))
      ∷ (const_pointer_to boolean)
      ∷ error_out
      ∷ [])

abbrev pub z_session_declare_querier : Prototype
z_session_declare_querier =
    prototype (codes "z_session_declare_querier") (pointer_to (object querier_t)) (
      (const_pointer_to (object session_t))
      ∷ (pointer_to (object keyexpr_t))
      ∷ (const_pointer_to (enumeration query_target_t))
      ∷ (const_pointer_to (enumeration consolidation_mode_t))
      ∷ (const_pointer_to (enumeration congestion_control_t))
      ∷ (const_pointer_to (enumeration priority_t))
      ∷ (const_pointer_to boolean)
      ∷ (const_pointer_to int64)
      ∷ (const_pointer_to (enumeration reply_key_expr_t))
      ∷ error_out
      ∷ [])

abbrev pub z_session_declare_queryable : Prototype
z_session_declare_queryable =
    prototype (codes "z_session_declare_queryable") (pointer_to (object queryable_t)) (
      (const_pointer_to (object session_t))
      ∷ (pointer_to (object keyexpr_t))
      ∷ (const_pointer_to boolean)
      ∷ (closure query_closure)
      ∷ (closure drop_closure)
      ∷ error_out
      ∷ [])

abbrev pub z_session_declare_subscriber : Prototype
z_session_declare_subscriber =
    prototype (codes "z_session_declare_subscriber") (pointer_to (object subscriber_t)) (
      (const_pointer_to (object session_t))
      ∷ (pointer_to (object keyexpr_t))
      ∷ (closure sample_closure)
      ∷ (closure drop_closure)
      ∷ error_out
      ∷ [])

abbrev pub z_session_delete : Prototype
z_session_delete = prototype (codes "z_session_delete") boolean (
    (const_pointer_to (object session_t))
    ∷ (const_pointer_to (object keyexpr_t))
    ∷ (const_pointer_to (enumeration congestion_control_t))
    ∷ (const_pointer_to (enumeration priority_t))
    ∷ (const_pointer_to boolean)
    ∷ (pointer_to (object zbytes_t))
    ∷ error_out
    ∷ [])

abbrev pub z_session_drop : Prototype
z_session_drop = prototype (codes "z_session_drop") void ((pointer_to (object session_t)) ∷ [])

abbrev pub z_session_get : Prototype
z_session_get = prototype (codes "z_session_get") boolean (
    (const_pointer_to (object session_t))
    ∷ (const_pointer_to (object keyexpr_t))
    ∷ (const_pointer_to char)
    ∷ (const_pointer_to int64)
    ∷ (const_pointer_to (enumeration query_target_t))
    ∷ (const_pointer_to (enumeration consolidation_mode_t))
    ∷ (const_pointer_to (enumeration reply_key_expr_t))
    ∷ (const_pointer_to (enumeration congestion_control_t))
    ∷ (const_pointer_to (enumeration priority_t))
    ∷ (const_pointer_to boolean)
    ∷ (pointer_to (object zbytes_t))
    ∷ (const_pointer_to (object encoding_t))
    ∷ (pointer_to (object zbytes_t))
    ∷ (closure reply_closure)
    ∷ (closure drop_closure)
    ∷ error_out
    ∷ [])

abbrev pub z_session_is_closed : Prototype
z_session_is_closed =
    prototype (codes "z_session_is_closed") boolean ((const_pointer_to (object session_t)) ∷ [])

abbrev pub z_session_new_timestamp : Prototype
z_session_new_timestamp =
    prototype (codes "z_session_new_timestamp") (object timestamp_t)
      ((const_pointer_to (object session_t)) ∷ [])

abbrev pub z_session_peers_zid : Prototype
z_session_peers_zid =
    prototype (codes "z_session_peers_zid") (pointer_to (object zenoh_id_t))
      ((const_pointer_to (object session_t)) ∷ (pointer_to uintptr) ∷ [])

abbrev pub z_session_put : Prototype
z_session_put = prototype (codes "z_session_put") boolean (
    (const_pointer_to (object session_t))
    ∷ (const_pointer_to (object keyexpr_t))
    ∷ (pointer_to (object zbytes_t))
    ∷ (const_pointer_to (object encoding_t))
    ∷ (const_pointer_to (enumeration congestion_control_t))
    ∷ (const_pointer_to (enumeration priority_t))
    ∷ (const_pointer_to boolean)
    ∷ (pointer_to (object zbytes_t))
    ∷ error_out
    ∷ [])

abbrev pub z_session_routers_zid : Prototype
z_session_routers_zid =
    prototype (codes "z_session_routers_zid") (pointer_to (object zenoh_id_t))
      ((const_pointer_to (object session_t)) ∷ (pointer_to uintptr) ∷ [])

abbrev pub z_session_undeclare_keyexpr : Prototype
z_session_undeclare_keyexpr =
    prototype (codes "z_session_undeclare_keyexpr") boolean
      ((const_pointer_to (object session_t)) ∷ (pointer_to (object keyexpr_t)) ∷ error_out ∷ [])

abbrev pub z_session_zid : Prototype
z_session_zid =
    prototype (codes "z_session_zid") (object zenoh_id_t)
      ((const_pointer_to (object session_t)) ∷ [])

abbrev pub session_functions : List Prototype
session_functions =
    z_open ∷ z_session_close ∷ z_session_declare_keyexpr ∷ z_session_declare_publisher
    ∷ z_session_declare_querier ∷ z_session_declare_queryable ∷ z_session_declare_subscriber
    ∷ z_session_delete ∷ z_session_drop ∷ z_session_get ∷ z_session_is_closed
    ∷ z_session_new_timestamp ∷ z_session_peers_zid ∷ z_session_put ∷ z_session_routers_zid
    ∷ z_session_undeclare_keyexpr ∷ z_session_zid ∷ []
