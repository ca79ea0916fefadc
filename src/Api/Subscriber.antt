-- ===== src/Api/Subscriber.antt =====
-- include/zenoh_flat.h, the functions for subscribers.
use zenoh_flat_c.Base.{List, [], ◌∷◌}
use zenoh_flat_c.Base.Text.{codes}
use zenoh_flat_c.Api.{
  Prototype, prototype, boolean, const_pointer_to, error_out, keyexpr_t, object, pointer_to,
  subscriber_t, void,
}

abbrev pub z_subscriber_drop : Prototype
z_subscriber_drop =
    prototype (codes "z_subscriber_drop") void ((pointer_to (object subscriber_t)) ∷ [])

abbrev pub z_subscriber_keyexpr : Prototype
z_subscriber_keyexpr =
    prototype (codes "z_subscriber_keyexpr") (const_pointer_to (object keyexpr_t))
      ((const_pointer_to (object subscriber_t)) ∷ [])

abbrev pub z_subscriber_undeclare : Prototype
z_subscriber_undeclare =
    prototype (codes "z_subscriber_undeclare") boolean
      ((pointer_to (object subscriber_t)) ∷ error_out ∷ [])

abbrev pub subscriber_functions : List Prototype
subscriber_functions = z_subscriber_drop ∷ z_subscriber_keyexpr ∷ z_subscriber_undeclare ∷ []
