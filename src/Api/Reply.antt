-- ===== src/Api/Reply.antt =====
-- include/zenoh_flat.h, the functions for replies.
use zenoh_flat_c.Base.{List, [], ◌∷◌}
use zenoh_flat_c.Base.Text.{codes}
use zenoh_flat_c.Api.{
  Prototype, prototype, boolean, const_pointer_to, encoding_t, object, pointer_to, reply_error_t,
  reply_t, sample_t, void, zbytes_t,
}

abbrev pub z_reply_drop : Prototype
z_reply_drop = prototype (codes "z_reply_drop") void ((pointer_to (object reply_t)) ∷ [])

abbrev pub z_reply_err : Prototype
z_reply_err =
    prototype (codes "z_reply_err") (const_pointer_to (object reply_error_t))
      ((const_pointer_to (object reply_t)) ∷ [])

abbrev pub z_reply_error_drop : Prototype
z_reply_error_drop =
    prototype (codes "z_reply_error_drop") void ((pointer_to (object reply_error_t)) ∷ [])

abbrev pub z_reply_error_encoding : Prototype
z_reply_error_encoding =
    prototype (codes "z_reply_error_encoding") (const_pointer_to (object encoding_t))
      ((const_pointer_to (object reply_error_t)) ∷ [])

abbrev pub z_reply_error_payload : Prototype
z_reply_error_payload =
    prototype (codes "z_reply_error_payload") (const_pointer_to (object zbytes_t))
      ((const_pointer_to (object reply_error_t)) ∷ [])

abbrev pub z_reply_is_ok : Prototype
z_reply_is_ok = prototype (codes "z_reply_is_ok") boolean ((const_pointer_to (object reply_t)) ∷ [])

abbrev pub z_reply_sample : Prototype
z_reply_sample =
    prototype (codes "z_reply_sample") (const_pointer_to (object sample_t))
      ((const_pointer_to (object reply_t)) ∷ [])

abbrev pub z_reply_take : Prototype
z_reply_take =
    prototype (codes "z_reply_take") void
      ((pointer_to (object reply_t)) ∷ (pointer_to (object reply_t)) ∷ [])

abbrev pub reply_functions : List Prototype
reply_functions =
    z_reply_drop ∷ z_reply_err ∷ z_reply_error_drop ∷ z_reply_error_encoding ∷ z_reply_error_payload
    ∷ z_reply_is_ok ∷ z_reply_sample ∷ z_reply_take ∷ []
