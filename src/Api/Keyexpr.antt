-- ===== src/Api/Keyexpr.antt =====
-- include/zenoh_flat.h, the functions for key expressions.
use zenoh_flat_c.Base.{List, [], ◌∷◌}
use zenoh_flat_c.Base.Text.{codes}
use zenoh_flat_c.Api.{
  Prototype, prototype, boolean, char, const_pointer_to, error_out, keyexpr_t, object, pointer_to,
  void,
}

abbrev pub z_keyexpr_autocanonize : Prototype
z_keyexpr_autocanonize =
    prototype (codes "z_keyexpr_autocanonize") (pointer_to (object keyexpr_t))
      ((const_pointer_to char) ∷ error_out ∷ [])

abbrev pub z_keyexpr_clone : Prototype
z_keyexpr_clone =
    prototype (codes "z_keyexpr_clone") (pointer_to (object keyexpr_t))
      ((const_pointer_to (object keyexpr_t)) ∷ [])

abbrev pub z_keyexpr_concat : Prototype
z_keyexpr_concat =
    prototype (codes "z_keyexpr_concat") (pointer_to (object keyexpr_t))
      ((const_pointer_to (object keyexpr_t)) ∷ (const_pointer_to char) ∷ error_out ∷ [])

abbrev pub z_keyexpr_drop : Prototype
z_keyexpr_drop = prototype (codes "z_keyexpr_drop") void ((pointer_to (object keyexpr_t)) ∷ [])

abbrev pub z_keyexpr_includes : Prototype
z_keyexpr_includes =
    prototype (codes "z_keyexpr_includes") boolean
      ((const_pointer_to (object keyexpr_t)) ∷ (const_pointer_to (object keyexpr_t)) ∷ [])

abbrev pub z_keyexpr_intersects : Prototype
z_keyexpr_intersects =
    prototype (codes "z_keyexpr_intersects") boolean
      ((const_pointer_to (object keyexpr_t)) ∷ (const_pointer_to (object keyexpr_t)) ∷ [])

abbrev pub z_keyexpr_join : Prototype
z_keyexpr_join =
    prototype (codes "z_keyexpr_join") (pointer_to (object keyexpr_t))
      ((const_pointer_to (object keyexpr_t)) ∷ (const_pointer_to char) ∷ error_out ∷ [])

abbrev pub z_keyexpr_to_string : Prototype
z_keyexpr_to_string =
    prototype (codes "z_keyexpr_to_string") (pointer_to char)
      ((const_pointer_to (object keyexpr_t)) ∷ [])

abbrev pub z_keyexpr_try_from : Prototype
z_keyexpr_try_from =
    prototype (codes "z_keyexpr_try_from") (pointer_to (object keyexpr_t))
      ((const_pointer_to char) ∷ error_out ∷ [])

abbrev pub keyexpr_functions : List Prototype
keyexpr_functions =
    z_keyexpr_autocanonize ∷ z_keyexpr_clone ∷ z_keyexpr_concat ∷ z_keyexpr_drop
    ∷ z_keyexpr_includes ∷ z_keyexpr_intersects ∷ z_keyexpr_join ∷ z_keyexpr_to_string
    ∷ z_keyexpr_try_from ∷ []
