-- ===== src/Api/Timestamp.antt =====
-- include/zenoh_flat.h, the functions for timestamps.
use zenoh_flat_c.Base.{List, [], ◌∷◌}
use zenoh_flat_c.Base.Text.{codes}
use zenoh_flat_c.Api.{
  Prototype, prototype, byte, const_pointer_to, int64, object, pointer_to, timestamp_t, uintptr,
  void,
}

abbrev pub z_timestamp_drop : Prototype
z_timestamp_drop =
    prototype (codes "z_timestamp_drop") void ((pointer_to (object timestamp_t)) ∷ [])

abbrev pub z_timestamp_id : Prototype
z_timestamp_id =
    prototype (codes "z_timestamp_id") (pointer_to byte)
      ((const_pointer_to (object timestamp_t)) ∷ (pointer_to uintptr) ∷ [])

abbrev pub z_timestamp_ntp64 : Prototype
z_timestamp_ntp64 =
    prototype (codes "z_timestamp_ntp64") int64 ((const_pointer_to (object timestamp_t)) ∷ [])

abbrev pub timestamp_functions : List Prototype
timestamp_functions = z_timestamp_drop ∷ z_timestamp_id ∷ z_timestamp_ntp64 ∷ []
