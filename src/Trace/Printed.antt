-- ===== src/Trace/Printed.antt =====
-- The text that a program prints.
use zenoh_flat_c.Base.{[], ◌∷◌, ◌++◌}
use zenoh_flat_c.Base.Text.{Str}
use zenoh_flat_c.Trace.{calls, prints, sleeps, returns, aborts, Trace}

unfoldable pub printed_text : Trace → Str
printed_text [] = []
printed_text (prints text ∷ trace) = text ++ printed_text trace
printed_text (calls _ ∷ trace) = printed_text trace
printed_text (sleeps ∷ trace) = printed_text trace
printed_text (returns _ ∷ trace) = printed_text trace
printed_text (aborts ∷ trace) = printed_text trace
