-- ===== src/Api/Library.antt =====
-- include/zenoh_flat.h, the functions for the library itself.
use zenoh_flat_c.Base.{List, [], ◌∷◌}
use zenoh_flat_c.Base.Text.{codes}
use zenoh_flat_c.Api.{Prototype, prototype, char, const_pointer_to, pointer_to, void}

abbrev pub z_free : Prototype
z_free = prototype (codes "z_free") void ((pointer_to void) ∷ [])

abbrev pub z_init_android_logs : Prototype
z_init_android_logs = prototype (codes "z_init_android_logs") void ((const_pointer_to char) ∷ [])

abbrev pub z_init_zenoh_logs_from_env_or : Prototype
z_init_zenoh_logs_from_env_or =
    prototype (codes "z_init_zenoh_logs_from_env_or") void ((const_pointer_to char) ∷ [])

abbrev pub z_try_init_zenoh_logs_from_env : Prototype
z_try_init_zenoh_logs_from_env = prototype (codes "z_try_init_zenoh_logs_from_env") void ([])

abbrev pub library_functions : List Prototype
library_functions =
    z_free ∷ z_init_android_logs ∷ z_init_zenoh_logs_from_env_or ∷ z_try_init_zenoh_logs_from_env
    ∷ []
