-- ===== src/Trace/Published.antt =====
-- What a program publishes: the key expression and the payload of every put that succeeds, read off
-- its trace by what its variables hold.
use zenoh_flat_c.Base.{true, List, [], ◌∷◌, ◌==◌, if◌then◌else◌}
use zenoh_flat_c.Base.Text.{Str}
use zenoh_flat_c.Trace.{
  Handle, Call, calls, prints, sleeps, returns, aborts, Trace, z_keyexpr_try_from,
  z_zbytes_from_slice, z_zbytes_clone, z_session_declare_publisher, z_session_put, z_publisher_put,
}

-- The text or the bytes of each variable; a publisher stands for its key expression.
abbrev pub Contents : Type 0
Contents = Handle → Str

abbrev pub empty : Contents
empty h = []

abbrev pub holding : Handle → Str → Contents → Contents
holding r text contents h = if h == r then text else contents h

abbrev pub after_call : Call → Contents → Contents
after_call (z_keyexpr_try_from text r _) contents = holding r text contents
after_call (z_zbytes_from_slice text r) contents = holding r text contents
after_call (z_zbytes_clone z r) contents = holding r (contents z) contents
after_call (z_session_declare_publisher _ k _ r _) contents = holding r (contents k) contents
after_call _ contents = contents

-- The publication that the call makes, in front of those that follow.
abbrev publication : Call → Contents → List (Str × Str) → List (Str × Str)
publication (z_session_put _ k z true) contents rest = (contents k, contents z) ∷ rest
publication (z_publisher_put p z _) contents rest = (contents p, contents z) ∷ rest
publication _ contents rest = rest

unfoldable pub published : Contents → Trace → List (Str × Str)
published contents [] = []
published contents (calls c ∷ trace) =
    publication c contents (published (after_call c contents) trace)
published contents (prints _ ∷ trace) = published contents trace
published contents (sleeps ∷ trace) = published contents trace
published contents (returns _ ∷ trace) = published contents trace
published contents (aborts ∷ trace) = published contents trace
