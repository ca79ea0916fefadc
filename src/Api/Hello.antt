-- ===== src/Api/Hello.antt =====
-- include/zenoh_flat.h, the functions for hellos.
use zenoh_flat_c.Base.{List, [], ◌∷◌}
use zenoh_flat_c.Base.Text.{codes}
use zenoh_flat_c.Api.{
  Prototype, prototype, char, const_pointer_to, enumeration, hello_t, object, pointer_to, uintptr,
  void, whatami_t, zenoh_id_t,
}

abbrev pub z_hello_drop : Prototype
z_hello_drop = prototype (codes "z_hello_drop") void ((pointer_to (object hello_t)) ∷ [])

abbrev pub z_hello_locators : Prototype
z_hello_locators =
    prototype (codes "z_hello_locators") (pointer_to (pointer_to char))
      ((const_pointer_to (object hello_t)) ∷ (pointer_to uintptr) ∷ [])

abbrev pub z_hello_take : Prototype
z_hello_take =
    prototype (codes "z_hello_take") void
      ((pointer_to (object hello_t)) ∷ (pointer_to (object hello_t)) ∷ [])

abbrev pub z_hello_whatami : Prototype
z_hello_whatami =
    prototype (codes "z_hello_whatami") (enumeration whatami_t)
      ((const_pointer_to (object hello_t)) ∷ [])

abbrev pub z_hello_zid : Prototype
z_hello_zid =
    prototype (codes "z_hello_zid") (object zenoh_id_t) ((const_pointer_to (object hello_t)) ∷ [])

abbrev pub hello_functions : List Prototype
hello_functions =
    z_hello_drop ∷ z_hello_locators ∷ z_hello_take ∷ z_hello_whatami ∷ z_hello_zid ∷ []
