-- ===== src/Api/Queryable.antt =====
-- include/zenoh_flat.h, the functions for queryables.
use zenoh_flat_c.Base.{List, [], ◌∷◌}
use zenoh_flat_c.Base.Text.{codes}
use zenoh_flat_c.Api.{
  Prototype, prototype, boolean, const_pointer_to, error_out, keyexpr_t, object, pointer_to,
  queryable_t, void,
}

abbrev pub z_queryable_drop : Prototype
z_queryable_drop =
    prototype (codes "z_queryable_drop") void ((pointer_to (object queryable_t)) ∷ [])

abbrev pub z_queryable_keyexpr : Prototype
z_queryable_keyexpr =
    prototype (codes "z_queryable_keyexpr") (const_pointer_to (object keyexpr_t))
      ((const_pointer_to (object queryable_t)) ∷ [])

abbrev pub z_queryable_undeclare : Prototype
z_queryable_undeclare =
    prototype (codes "z_queryable_undeclare") boolean
      ((pointer_to (object queryable_t)) ∷ error_out ∷ [])

abbrev pub queryable_functions : List Prototype
queryable_functions = z_queryable_drop ∷ z_queryable_keyexpr ∷ z_queryable_undeclare ∷ []
