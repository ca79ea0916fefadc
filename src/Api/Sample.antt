-- ===== src/Api/Sample.antt =====
-- include/zenoh_flat.h, the functions for samples.
use zenoh_flat_c.Base.{List, [], ◌∷◌}
use zenoh_flat_c.Base.Text.{codes}
use zenoh_flat_c.Api.{
  Prototype, prototype, boolean, congestion_control_t, const_pointer_to, encoding_t, enumeration,
  int64, keyexpr_t, object, pointer_to, priority_t, sample_kind_t, sample_t, timestamp_t, void,
  zbytes_t,
}

abbrev pub z_sample_attachment : Prototype
z_sample_attachment =
    prototype (codes "z_sample_attachment") (const_pointer_to (object zbytes_t))
      ((const_pointer_to (object sample_t)) ∷ [])

abbrev pub z_sample_congestion_control : Prototype
z_sample_congestion_control =
    prototype (codes "z_sample_congestion_control") (enumeration congestion_control_t)
      ((const_pointer_to (object sample_t)) ∷ [])

abbrev pub z_sample_delete : Prototype
z_sample_delete = prototype (codes "z_sample_delete") (object sample_t) (
    (pointer_to (object keyexpr_t))
    ∷ (const_pointer_to int64)
    ∷ (pointer_to (object zbytes_t))
    ∷ (const_pointer_to (enumeration congestion_control_t))
    ∷ (const_pointer_to (enumeration priority_t))
    ∷ (const_pointer_to boolean)
    ∷ [])

abbrev pub z_sample_drop : Prototype
z_sample_drop = prototype (codes "z_sample_drop") void ((pointer_to (object sample_t)) ∷ [])

abbrev pub z_sample_encoding : Prototype
z_sample_encoding =
    prototype (codes "z_sample_encoding") (const_pointer_to (object encoding_t))
      ((const_pointer_to (object sample_t)) ∷ [])

abbrev pub z_sample_express : Prototype
z_sample_express =
    prototype (codes "z_sample_express") boolean ((const_pointer_to (object sample_t)) ∷ [])

abbrev pub z_sample_key_expr : Prototype
z_sample_key_expr =
    prototype (codes "z_sample_key_expr") (const_pointer_to (object keyexpr_t))
      ((const_pointer_to (object sample_t)) ∷ [])

abbrev pub z_sample_kind : Prototype
z_sample_kind =
    prototype (codes "z_sample_kind") (enumeration sample_kind_t)
      ((const_pointer_to (object sample_t)) ∷ [])

abbrev pub z_sample_payload : Prototype
z_sample_payload =
    prototype (codes "z_sample_payload") (const_pointer_to (object zbytes_t))
      ((const_pointer_to (object sample_t)) ∷ [])

abbrev pub z_sample_priority : Prototype
z_sample_priority =
    prototype (codes "z_sample_priority") (enumeration priority_t)
      ((const_pointer_to (object sample_t)) ∷ [])

abbrev pub z_sample_put : Prototype
z_sample_put = prototype (codes "z_sample_put") (object sample_t) (
    (pointer_to (object keyexpr_t))
    ∷ (pointer_to (object zbytes_t))
    ∷ (const_pointer_to (object encoding_t))
    ∷ (const_pointer_to int64)
    ∷ (pointer_to (object zbytes_t))
    ∷ (const_pointer_to (enumeration congestion_control_t))
    ∷ (const_pointer_to (enumeration priority_t))
    ∷ (const_pointer_to boolean)
    ∷ [])

abbrev pub z_sample_take : Prototype
z_sample_take =
    prototype (codes "z_sample_take") void
      ((pointer_to (object sample_t)) ∷ (pointer_to (object sample_t)) ∷ [])

abbrev pub z_sample_timestamp : Prototype
z_sample_timestamp =
    prototype (codes "z_sample_timestamp") (const_pointer_to (object timestamp_t))
      ((const_pointer_to (object sample_t)) ∷ [])

abbrev pub sample_functions : List Prototype
sample_functions =
    z_sample_attachment ∷ z_sample_congestion_control ∷ z_sample_delete ∷ z_sample_drop
    ∷ z_sample_encoding ∷ z_sample_express ∷ z_sample_key_expr ∷ z_sample_kind ∷ z_sample_payload
    ∷ z_sample_priority ∷ z_sample_put ∷ z_sample_take ∷ z_sample_timestamp ∷ []
