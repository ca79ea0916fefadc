-- ===== src/Api/Zbytes.antt =====
-- include/zenoh_flat.h, the functions for payloads.
use zenoh_flat_c.Base.{List, [], ◌∷◌}
use zenoh_flat_c.Base.Text.{codes}
use zenoh_flat_c.Api.{
  Prototype, prototype, byte, const_pointer_to, object, pointer_to, uintptr, void, zbytes_t,
}

abbrev pub z_zbytes_clone : Prototype
z_zbytes_clone =
    prototype (codes "z_zbytes_clone") (object zbytes_t) ((const_pointer_to (object zbytes_t)) ∷ [])

abbrev pub z_zbytes_drop : Prototype
z_zbytes_drop = prototype (codes "z_zbytes_drop") void ((pointer_to (object zbytes_t)) ∷ [])

abbrev pub z_zbytes_from_slice : Prototype
z_zbytes_from_slice =
    prototype (codes "z_zbytes_from_slice") (object zbytes_t)
      ((const_pointer_to byte) ∷ uintptr ∷ [])

abbrev pub z_zbytes_to_bytes : Prototype
z_zbytes_to_bytes =
    prototype (codes "z_zbytes_to_bytes") (pointer_to byte)
      ((const_pointer_to (object zbytes_t)) ∷ (pointer_to uintptr) ∷ [])

abbrev pub zbytes_functions : List Prototype
zbytes_functions = z_zbytes_clone ∷ z_zbytes_drop ∷ z_zbytes_from_slice ∷ z_zbytes_to_bytes ∷ []
