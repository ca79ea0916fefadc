-- ===== src/Api/Liveliness.antt =====
-- include/zenoh_flat.h, the functions for liveliness.
use zenoh_flat_c.Base.{List, [], ◌∷◌}
use zenoh_flat_c.Base.Text.{codes}
use zenoh_flat_c.Api.{
  Prototype, prototype, boolean, closure, const_pointer_to, drop_closure, error_out, int64,
  keyexpr_t, liveliness_token_t, object, pointer_to, reply_closure, sample_closure, session_t,
  subscriber_t, void,
}

abbrev pub z_liveliness_declare_subscriber : Prototype
z_liveliness_declare_subscriber =
    prototype (codes "z_liveliness_declare_subscriber") (pointer_to (object subscriber_t)) (
      (const_pointer_to (object session_t))
      ∷ (pointer_to (object keyexpr_t))
      ∷ boolean
      ∷ (closure sample_closure)
      ∷ (closure drop_closure)
      ∷ error_out
      ∷ [])

abbrev pub z_liveliness_declare_token : Prototype
z_liveliness_declare_token =
    prototype (codes "z_liveliness_declare_token") (pointer_to (object liveliness_token_t))
      ((const_pointer_to (object session_t)) ∷ (pointer_to (object keyexpr_t)) ∷ error_out ∷ [])

abbrev pub z_liveliness_get : Prototype
z_liveliness_get = prototype (codes "z_liveliness_get") boolean (
    (const_pointer_to (object session_t))
    ∷ (const_pointer_to (object keyexpr_t))
    ∷ int64
    ∷ (closure reply_closure)
    ∷ (closure drop_closure)
    ∷ error_out
    ∷ [])

abbrev pub z_liveliness_token_drop : Prototype
z_liveliness_token_drop =
    prototype (codes "z_liveliness_token_drop") void ((pointer_to (object liveliness_token_t)) ∷ [])

abbrev pub z_liveliness_undeclare_token : Prototype
z_liveliness_undeclare_token =
    prototype (codes "z_liveliness_undeclare_token") boolean
      ((pointer_to (object liveliness_token_t)) ∷ error_out ∷ [])

abbrev pub liveliness_functions : List Prototype
liveliness_functions =
    z_liveliness_declare_subscriber ∷ z_liveliness_declare_token ∷ z_liveliness_get
    ∷ z_liveliness_token_drop ∷ z_liveliness_undeclare_token ∷ []
