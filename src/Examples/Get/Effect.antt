-- ===== src/Examples/Get/Effect.antt =====
-- What examples/z_get.c asks for.
use zenoh_flat_c.Base.{◌<◌, ◌^◌, ◌≡◌, ◌&&◌, Option, none, some, List, [], ◌∷◌, arith, if◌then◌else◌}
use zenoh_flat_c.Base.Int.{ℤ, pos, to_signed}
use zenoh_flat_c.Base.Text.{Str}
use zenoh_flat_c.Enums.{QueryTarget}
use zenoh_flat_c.Trace.{Handle, calls, prints, sleeps, returns, aborts, Trace, Call, z_session_get}
use zenoh_flat_c.Trace.Published.{Contents, empty, after_call}
use zenoh_flat_c.Examples.{Answers, open_session, make_keyexpr}
use zenoh_flat_c.Examples.Get.{GetArgs, main}
use zenoh_flat_c.Examples.Get.Selector.{SelectorOf, SelectorOf-split_selector}

-- A query: key expression, parameters, timeout in milliseconds, target, and payload.
pub record Asked : Type 0 where
  pub key : Str
  pub parameters : Option Str
  pub timeout : ℤ
  pub target : QueryTarget
  pub payload_text : Option Str

abbrev text_of : Contents → Option Handle → Option Str
text_of contents none = none
text_of contents (some h) = some (contents h)

abbrev query_of : Call → Contents → List Asked → List Asked
query_of (z_session_get _ k params timeout target z _) contents rest =
    record {
      key = contents k;
      parameters = params;
      timeout = timeout;
      target = target;
      payload_text = text_of contents z;
    }
    ∷ rest
query_of _ contents rest = rest

-- The queries that a trace makes.
unfoldable pub asked : Contents → Trace → List Asked
asked contents [] = []
asked contents (calls c ∷ trace) = query_of c contents (asked (after_call c contents) trace)
asked contents (prints _ ∷ trace) = asked contents trace
asked contents (sleeps ∷ trace) = asked contents trace
asked contents (returns _ ∷ trace) = asked contents trace
asked contents (aborts ∷ trace) = asked contents trace

-- If the selector is made of a key and parameters, and the timeout is below 2 ^ 63, z_get makes exactly
-- one query, for this key with these parameters, this timeout, its target and its payload; none if the
-- session did not open or the key is no key expression.
pub get_asks :
    (answers : Answers) (args : GetArgs) (key : Str) (params : Option Str)
    → SelectorOf args.selector key params
    → args.timeout_ms < 2 ^ 63
    → asked empty (main answers args) ≡ (
        if answers.opens && answers.is_keyexpr key
        then record {
          key = key;
          parameters = params;
          timeout = pos args.timeout_ms;
          target = args.target;
          payload_text = args.value;
        }
          ∷ []
        else [])
unfolding asked main open_session make_keyexpr
get_asks answers args key params s small =
    let cut = SelectorOf-split_selector args.selector key params s in
    let signed : to_signed 64 args.timeout_ms ≡ pos args.timeout_ms = ground arith in
    rw (cut, signed) (ground arith)
