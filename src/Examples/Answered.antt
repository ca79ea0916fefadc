-- ===== src/Examples/Answered.antt =====
-- z_get and z_queryable together: what z_get prints of the replies that z_queryable makes.
use zenoh_flat_c.Base.{ℕ, ◌≡◌, refl, Option, none, some, List, [], ◌∷◌, ◌++◌, append-nil}
use zenoh_flat_c.Base.Text.{Str, codes, Lacks}
use zenoh_flat_c.Api.Query.{z_query_keyexpr}
use zenoh_flat_c.Trace.{Trace, Place, whole, part, argument}
use zenoh_flat_c.Trace.Printed.{printed_text}
use zenoh_flat_c.Trace.Published.{empty}
use zenoh_flat_c.Trace.Replied.{replied}
use zenoh_flat_c.Examples.Delivery.{printed_bytes-Lacks}
use zenoh_flat_c.Examples.Queryable.{Query, query_handler}
use zenoh_flat_c.Examples.Get.{Reply, reply_ok, reply_handler}

-- The reply handler is called for each reply, once and in order.
abbrev pub shown : (Str × Str → Reply) → List (Str × Str) → Trace
shown deliver [] = []
shown deliver (p ∷ ps) = reply_handler (deliver p) ++ shown deliver ps

abbrev pub answer_line : Str → Str → Str
answer_line key value = codes ">> Received ('" ++ (key ++ (codes "': '" ++ (value ++ codes "')\n")))

-- The handler of z_queryable makes one reply, with its value under the key expression of the query,
-- whether the query has a payload or not.
replied-once :
    (text_of : Place → Str) (query : Query) (value : Str)
    → replied text_of empty (query_handler query value)
      ≡ (text_of (part z_query_keyexpr (whole argument)), value) ∷ []
unfolding replied query_handler
replied-once text_of query value = go query.payload_given refl
  where
    go :
        (o : Option (List ℕ))
        → query.payload_given ≡ o
        → replied text_of empty (query_handler query value)
          ≡ (text_of (part z_query_keyexpr (whole argument)), value) ∷ []
    go none e = rw (query_handler, e) refl
    go (some bytes) e = rw (query_handler, e) refl

-- If the key expression of the query has its text, and the library delivers each reply of the handler
-- as it was made, once and in order, then to each query z_queryable makes exactly one reply, with or
-- without a payload in the query, and z_get prints of it the one line `>> Received ('KEY': 'VALUE')`,
-- with the key of the query and the value of z_queryable, which has no null byte.
pub get_from_queryable :
    (text_of : Place → Str) (deliver : Str × Str → Reply) (query : Query) (value : Str)
    → text_of (part z_query_keyexpr (whole argument)) ≡ query.keyexpr
    → ((p : Str × Str) → deliver p ≡ reply_ok p.0 p.1)
    → Lacks 0 value
    → printed_text (shown deliver (replied text_of empty (query_handler query value)))
      ≡ answer_line query.keyexpr value
unfolding printed_text reply_handler
get_from_queryable text_of deliver query value key faithful h =
    rw (replied-once text_of query value, key, faithful, printed_bytes-Lacks value h, append-nil)
      refl
