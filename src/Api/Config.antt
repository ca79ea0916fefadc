-- ===== src/Api/Config.antt =====
-- include/zenoh_flat.h, the functions for configurations.
use zenoh_flat_c.Base.{List, [], ◌∷◌}
use zenoh_flat_c.Base.Text.{codes}
use zenoh_flat_c.Api.{
  Prototype, prototype, boolean, char, config_t, const_pointer_to, error_out, object, pointer_to,
  void,
}

abbrev pub z_config_clone : Prototype
z_config_clone =
    prototype (codes "z_config_clone") (pointer_to (object config_t))
      ((const_pointer_to (object config_t)) ∷ [])

abbrev pub z_config_default : Prototype
z_config_default = prototype (codes "z_config_default") (pointer_to (object config_t)) ([])

abbrev pub z_config_drop : Prototype
z_config_drop = prototype (codes "z_config_drop") void ((pointer_to (object config_t)) ∷ [])

abbrev pub z_config_from_file : Prototype
z_config_from_file =
    prototype (codes "z_config_from_file") (pointer_to (object config_t))
      ((const_pointer_to char) ∷ error_out ∷ [])

abbrev pub z_config_from_json : Prototype
z_config_from_json =
    prototype (codes "z_config_from_json") (pointer_to (object config_t))
      ((const_pointer_to char) ∷ error_out ∷ [])

abbrev pub z_config_from_json5 : Prototype
z_config_from_json5 =
    prototype (codes "z_config_from_json5") (pointer_to (object config_t))
      ((const_pointer_to char) ∷ error_out ∷ [])

abbrev pub z_config_from_yaml : Prototype
z_config_from_yaml =
    prototype (codes "z_config_from_yaml") (pointer_to (object config_t))
      ((const_pointer_to char) ∷ error_out ∷ [])

abbrev pub z_config_get_json : Prototype
z_config_get_json =
    prototype (codes "z_config_get_json") (pointer_to char)
      ((const_pointer_to (object config_t)) ∷ (const_pointer_to char) ∷ error_out ∷ [])

abbrev pub z_config_insert_json5 : Prototype
z_config_insert_json5 = prototype (codes "z_config_insert_json5") boolean (
    (pointer_to (object config_t))
    ∷ (const_pointer_to char)
    ∷ (const_pointer_to char)
    ∷ error_out
    ∷ [])

abbrev pub config_functions : List Prototype
config_functions =
    z_config_clone ∷ z_config_default ∷ z_config_drop ∷ z_config_from_file ∷ z_config_from_json
    ∷ z_config_from_json5 ∷ z_config_from_yaml ∷ z_config_get_json ∷ z_config_insert_json5 ∷ []
