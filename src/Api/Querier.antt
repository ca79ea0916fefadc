-- ===== src/Api/Querier.antt =====
-- include/zenoh_flat.h, the functions for queriers.
use zenoh_flat_c.Base.{List, [], ◌∷◌}
use zenoh_flat_c.Base.Text.{codes}
use zenoh_flat_c.Api.{
  Prototype, prototype, boolean, char, closure, const_pointer_to, drop_closure, encoding_t,
  error_out, keyexpr_t, object, pointer_to, querier_t, reply_closure, void, zbytes_t,
}

abbrev pub z_querier_drop : Prototype
z_querier_drop = prototype (codes "z_querier_drop") void ((pointer_to (object querier_t)) ∷ [])

abbrev pub z_querier_get : Prototype
z_querier_get = prototype (codes "z_querier_get") boolean (
    (const_pointer_to (object querier_t))
    ∷ (const_pointer_to char)
    ∷ (pointer_to (object zbytes_t))
    ∷ (const_pointer_to (object encoding_t))
    ∷ (pointer_to (object zbytes_t))
    ∷ (closure reply_closure)
    ∷ (closure drop_closure)
    ∷ error_out
    ∷ [])

abbrev pub z_querier_keyexpr : Prototype
z_querier_keyexpr =
    prototype (codes "z_querier_keyexpr") (const_pointer_to (object keyexpr_t))
      ((const_pointer_to (object querier_t)) ∷ [])

abbrev pub z_querier_undeclare : Prototype
z_querier_undeclare =
    prototype (codes "z_querier_undeclare") boolean
      ((pointer_to (object querier_t)) ∷ error_out ∷ [])

abbrev pub querier_functions : List Prototype
querier_functions = z_querier_drop ∷ z_querier_get ∷ z_querier_keyexpr ∷ z_querier_undeclare ∷ []
