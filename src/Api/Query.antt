-- ===== src/Api/Query.antt =====
-- include/zenoh_flat.h, the functions for queries.
use zenoh_flat_c.Base.{List, [], ◌∷◌}
use zenoh_flat_c.Base.Text.{codes}
use zenoh_flat_c.Api.{
  Prototype, prototype, boolean, char, const_pointer_to, encoding_t, error_out, int64, keyexpr_t,
  object, pointer_to, query_t, sample_t, void, zbytes_t,
}

abbrev pub z_query_attachment : Prototype
z_query_attachment =
    prototype (codes "z_query_attachment") (const_pointer_to (object zbytes_t))
      ((const_pointer_to (object query_t)) ∷ [])

abbrev pub z_query_drop : Prototype
z_query_drop = prototype (codes "z_query_drop") void ((pointer_to (object query_t)) ∷ [])

abbrev pub z_query_encoding : Prototype
z_query_encoding =
    prototype (codes "z_query_encoding") (const_pointer_to (object encoding_t))
      ((const_pointer_to (object query_t)) ∷ [])

abbrev pub z_query_keyexpr : Prototype
z_query_keyexpr =
    prototype (codes "z_query_keyexpr") (const_pointer_to (object keyexpr_t))
      ((const_pointer_to (object query_t)) ∷ [])

abbrev pub z_query_parameters : Prototype
z_query_parameters =
    prototype (codes "z_query_parameters") (pointer_to char)
      ((const_pointer_to (object query_t)) ∷ [])

abbrev pub z_query_payload : Prototype
z_query_payload =
    prototype (codes "z_query_payload") (const_pointer_to (object zbytes_t))
      ((const_pointer_to (object query_t)) ∷ [])

abbrev pub z_query_reply_delete : Prototype
z_query_reply_delete = prototype (codes "z_query_reply_delete") boolean (
    (const_pointer_to (object query_t))
    ∷ (const_pointer_to (object keyexpr_t))
    ∷ (const_pointer_to int64)
    ∷ (pointer_to (object zbytes_t))
    ∷ (const_pointer_to boolean)
    ∷ error_out
    ∷ [])

abbrev pub z_query_reply_error : Prototype
z_query_reply_error = prototype (codes "z_query_reply_error") boolean (
    (const_pointer_to (object query_t))
    ∷ (pointer_to (object zbytes_t))
    ∷ (const_pointer_to (object encoding_t))
    ∷ error_out
    ∷ [])

abbrev pub z_query_reply_sample : Prototype
z_query_reply_sample =
    prototype (codes "z_query_reply_sample") boolean
      ((const_pointer_to (object query_t)) ∷ (pointer_to (object sample_t)) ∷ error_out ∷ [])

abbrev pub z_query_reply_success : Prototype
z_query_reply_success = prototype (codes "z_query_reply_success") boolean (
    (const_pointer_to (object query_t))
    ∷ (const_pointer_to (object keyexpr_t))
    ∷ (pointer_to (object zbytes_t))
    ∷ (const_pointer_to (object encoding_t))
    ∷ (const_pointer_to int64)
    ∷ (pointer_to (object zbytes_t))
    ∷ (const_pointer_to boolean)
    ∷ error_out
    ∷ [])

abbrev pub z_query_take : Prototype
z_query_take =
    prototype (codes "z_query_take") void
      ((pointer_to (object query_t)) ∷ (pointer_to (object query_t)) ∷ [])

abbrev pub query_functions : List Prototype
query_functions =
    z_query_attachment ∷ z_query_drop ∷ z_query_encoding ∷ z_query_keyexpr ∷ z_query_parameters
    ∷ z_query_payload ∷ z_query_reply_delete ∷ z_query_reply_error ∷ z_query_reply_sample
    ∷ z_query_reply_success ∷ z_query_take ∷ []
