-- ===== src/Api/Encoding.antt =====
-- include/zenoh_flat.h, the functions for encodings.
pub mod Constants
use zenoh_flat_c.Base.{List, [], ◌∷◌}
use zenoh_flat_c.Base.Text.{codes}
use zenoh_flat_c.Api.{
  Prototype, prototype, char, const_pointer_to, encoding_t, int32, object, pointer_to, void,
}

abbrev pub z_encoding_clone : Prototype
z_encoding_clone =
    prototype (codes "z_encoding_clone") (object encoding_t)
      ((const_pointer_to (object encoding_t)) ∷ [])

abbrev pub z_encoding_drop : Prototype
z_encoding_drop = prototype (codes "z_encoding_drop") void ((pointer_to (object encoding_t)) ∷ [])

abbrev pub z_encoding_from_id : Prototype
z_encoding_from_id =
    prototype (codes "z_encoding_from_id") (object encoding_t)
      (int32 ∷ (const_pointer_to char) ∷ [])

abbrev pub z_encoding_from_string : Prototype
z_encoding_from_string =
    prototype (codes "z_encoding_from_string") (object encoding_t) ((const_pointer_to char) ∷ [])

abbrev pub z_encoding_id : Prototype
z_encoding_id =
    prototype (codes "z_encoding_id") int32 ((const_pointer_to (object encoding_t)) ∷ [])

abbrev pub z_encoding_schema : Prototype
z_encoding_schema =
    prototype (codes "z_encoding_schema") (pointer_to char)
      ((const_pointer_to (object encoding_t)) ∷ [])

abbrev pub z_encoding_to_string : Prototype
z_encoding_to_string =
    prototype (codes "z_encoding_to_string") (pointer_to char)
      ((const_pointer_to (object encoding_t)) ∷ [])

abbrev pub z_encoding_with_schema : Prototype
z_encoding_with_schema =
    prototype (codes "z_encoding_with_schema") (object encoding_t)
      ((const_pointer_to (object encoding_t)) ∷ (const_pointer_to char) ∷ [])

abbrev pub encoding_functions : List Prototype
encoding_functions =
    z_encoding_clone ∷ z_encoding_drop ∷ z_encoding_from_id ∷ z_encoding_from_string ∷ z_encoding_id
    ∷ z_encoding_schema ∷ z_encoding_to_string ∷ z_encoding_with_schema ∷ []
