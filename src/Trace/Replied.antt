-- ===== src/Trace/Replied.antt =====
-- What the handler of a query replies: the key expression and the payload of each reply, read off its
-- trace by what its variables hold.
use zenoh_flat_c.Base.{List, [], ◌∷◌}
use zenoh_flat_c.Base.Text.{Str}
use zenoh_flat_c.Trace.{
  Place, Call, calls, prints, sleeps, returns, aborts, Trace, z_query_reply_success,
}
use zenoh_flat_c.Trace.Published.{Contents, after_call}

-- `text_of` is the text of a key expression in the library's objects.
abbrev reply_made : (Place → Str) → Call → Contents → List (Str × Str) → List (Str × Str)
reply_made text_of (z_query_reply_success _ key z) contents rest = (text_of key, contents z) ∷ rest
reply_made text_of _ contents rest = rest

unfoldable pub replied : (Place → Str) → Contents → Trace → List (Str × Str)
replied text_of contents [] = []
replied text_of contents (calls c ∷ trace) =
    reply_made text_of c contents (replied text_of (after_call c contents) trace)
replied text_of contents (prints _ ∷ trace) = replied text_of contents trace
replied text_of contents (sleeps ∷ trace) = replied text_of contents trace
replied text_of contents (returns _ ∷ trace) = replied text_of contents trace
replied text_of contents (aborts ∷ trace) = replied text_of contents trace
