-- ===== src/Api/ZenohId.antt =====
-- include/zenoh_flat.h, the functions for identifiers.
use zenoh_flat_c.Base.{List, [], ◌∷◌}
use zenoh_flat_c.Base.Text.{codes}
use zenoh_flat_c.Api.{
  Prototype, prototype, byte, char, const_pointer_to, object, pointer_to, uintptr, void, zenoh_id_t,
}

abbrev pub z_zenoh_id_drop : Prototype
z_zenoh_id_drop = prototype (codes "z_zenoh_id_drop") void ((pointer_to (object zenoh_id_t)) ∷ [])

abbrev pub z_zenoh_id_to_bytes : Prototype
z_zenoh_id_to_bytes =
    prototype (codes "z_zenoh_id_to_bytes") (pointer_to byte)
      ((const_pointer_to (object zenoh_id_t)) ∷ (pointer_to uintptr) ∷ [])

abbrev pub z_zenoh_id_to_string : Prototype
z_zenoh_id_to_string =
    prototype (codes "z_zenoh_id_to_string") (pointer_to char)
      ((const_pointer_to (object zenoh_id_t)) ∷ [])

abbrev pub zenoh_id_functions : List Prototype
zenoh_id_functions = z_zenoh_id_drop ∷ z_zenoh_id_to_bytes ∷ z_zenoh_id_to_string ∷ []
