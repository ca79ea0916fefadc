-- ===== src/Api/Publisher.antt =====
-- include/zenoh_flat.h, the functions for publishers.
use zenoh_flat_c.Base.{List, [], ◌∷◌}
use zenoh_flat_c.Base.Text.{codes}
use zenoh_flat_c.Api.{
  Prototype, prototype, boolean, const_pointer_to, encoding_t, error_out, keyexpr_t, object,
  pointer_to, publisher_t, void, zbytes_t,
}

abbrev pub z_publisher_delete : Prototype
z_publisher_delete =
    prototype (codes "z_publisher_delete") boolean
      ((const_pointer_to (object publisher_t)) ∷ (pointer_to (object zbytes_t)) ∷ error_out ∷ [])

abbrev pub z_publisher_drop : Prototype
z_publisher_drop =
    prototype (codes "z_publisher_drop") void ((pointer_to (object publisher_t)) ∷ [])

abbrev pub z_publisher_keyexpr : Prototype
z_publisher_keyexpr =
    prototype (codes "z_publisher_keyexpr") (const_pointer_to (object keyexpr_t))
      ((const_pointer_to (object publisher_t)) ∷ [])

abbrev pub z_publisher_put : Prototype
z_publisher_put = prototype (codes "z_publisher_put") boolean (
    (const_pointer_to (object publisher_t))
    ∷ (pointer_to (object zbytes_t))
    ∷ (const_pointer_to (object encoding_t))
    ∷ (pointer_to (object zbytes_t))
    ∷ error_out
    ∷ [])

abbrev pub z_publisher_undeclare : Prototype
z_publisher_undeclare =
    prototype (codes "z_publisher_undeclare") boolean
      ((pointer_to (object publisher_t)) ∷ error_out ∷ [])

abbrev pub publisher_functions : List Prototype
publisher_functions =
    z_publisher_delete ∷ z_publisher_drop ∷ z_publisher_keyexpr ∷ z_publisher_put
    ∷ z_publisher_undeclare ∷ []
