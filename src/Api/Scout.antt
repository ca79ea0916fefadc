-- ===== src/Api/Scout.antt =====
-- include/zenoh_flat.h, the functions for scouting.
use zenoh_flat_c.Base.{List, [], ◌∷◌}
use zenoh_flat_c.Base.Text.{codes}
use zenoh_flat_c.Api.{
  Prototype, prototype, closure, config_t, const_pointer_to, drop_closure, error_out, hello_closure,
  int32, object, pointer_to, scout_t, void,
}

abbrev pub z_scout : Prototype
z_scout = prototype (codes "z_scout") (pointer_to (object scout_t)) (
    int32
    ∷ (const_pointer_to (object config_t))
    ∷ (closure hello_closure)
    ∷ (closure drop_closure)
    ∷ error_out
    ∷ [])

abbrev pub z_scout_drop : Prototype
z_scout_drop = prototype (codes "z_scout_drop") void ((pointer_to (object scout_t)) ∷ [])

abbrev pub scout_functions : List Prototype
scout_functions = z_scout ∷ z_scout_drop ∷ []
