-- ===== src/Examples/ShutDown.antt =====
-- What stands behind the endless loops of examples/: the code that would end the program. It is never
-- reached, since the loops have no end.
use zenoh_flat_c.Base.{
  ℕ, ◌≡◌, refl, ◌∙◌, Bool, true, ◌&&◌, Option, none, some, [], ◌∷◌, ◌++◌, if◌then◌else◌,
}
use zenoh_flat_c.Base.Int.{pos}
use zenoh_flat_c.Base.Text.{Str}
use zenoh_flat_c.Trace.{
  Trace, calls, returns, config, session, publisher, subscriber, queryable, payload, value_buffer,
  z_publisher_drop, z_subscriber_drop, z_queryable_drop, z_session_drop, z_zbytes_drop, free,
}
use zenoh_flat_c.Trace.Ledger.{Owned, ledger, after_event}
use zenoh_flat_c.Examples.{Answers}
use zenoh_flat_c.Examples.Pub
use zenoh_flat_c.Examples.Owned.{endless_ownership}
use zenoh_flat_c.Examples.Sub
use zenoh_flat_c.Examples.Queryable
use zenoh_flat_c.Examples.PubThr
use zenoh_flat_c.Examples.SubThr

abbrev pub pub_shut_down : Trace
pub_shut_down =
    calls (z_publisher_drop publisher) ∷ calls (z_session_drop session) ∷ returns (pos 0) ∷ []

abbrev pub sub_shut_down : Trace
sub_shut_down =
    calls (z_subscriber_drop subscriber) ∷ calls (z_session_drop session) ∷ returns (pos 0) ∷ []

abbrev pub queryable_shut_down : Trace
queryable_shut_down =
    calls (z_queryable_drop queryable) ∷ calls (z_session_drop session) ∷ returns (pos 0) ∷ []

abbrev pub pub_thr_shut_down : Trace
pub_thr_shut_down =
    calls (z_zbytes_drop payload)
    ∷ calls (z_publisher_drop publisher)
    ∷ calls (z_session_drop session)
    ∷ calls (free value_buffer)
    ∷ returns (pos 0)
    ∷ []

-- The drop of the subscriber makes the library call `drop_stats`.
abbrev pub sub_thr_shut_down : Trace
sub_thr_shut_down =
    calls (z_subscriber_drop subscriber) ∷ calls (z_session_drop session) ∷ returns (pos 0) ∷ []

nothing_is_some : {owned : Owned} → none ≡ some owned → ⊥
nothing_is_some e = cc

ledger-append :
    (trace rest : Trace) (owned after : Owned)
    → ledger trace owned ≡ some after
    → ledger (trace ++ rest) owned ≡ ledger rest after
unfolding ledger
ledger-append [] rest owned after e = let same : owned ≡ after = cc in rw same refl
ledger-append (event ∷ trace) rest owned after e =
    go (after_event event owned) refl (λ o h. ledger-append trace rest o after h)
  where
    go :
        (r : Option Owned)
        → after_event event owned ≡ r
        → ((o : Owned) → ledger trace o ≡ some after → ledger (trace ++ rest) o ≡ ledger rest after)
        → ledger (event ∷ (trace ++ rest)) owned ≡ ledger rest after
    go none f rec = absurd (nothing_is_some (rw (ledger, f) at e))
    go (some o) f rec = rw (ledger, f) (rec o (rw (ledger, f) at e))

both : (a b : Bool) (x y : Owned) → a ≡ true → b ≡ true → some (if a && b then x else y) ≡ some x
both a b x y ha hb = rw (ha, hb) refl

three :
    (a b c : Bool) (x y : Owned)
    → a ≡ true
    → b ≡ true
    → c ≡ true
    → some (if a && (b && c) then x else y) ≡ some x
three a b c x y ha hb hc = rw (ha, hb, hc) refl

ends :
    (trace rest : Trace) (owned after : Owned)
    → ledger trace owned ≡ some after
    → ledger rest after ≡ some []
    → ledger (trace ++ rest) owned ≡ some []
ends trace rest owned after e h = ledger-append trace rest owned after e ∙ h

pub_shut : ledger pub_shut_down (publisher ∷ session ∷ []) ≡ some []
unfolding ledger
pub_shut = refl

sub_shut : ledger sub_shut_down (subscriber ∷ session ∷ []) ≡ some []
unfolding ledger
sub_shut = refl

queryable_shut : ledger queryable_shut_down (queryable ∷ session ∷ []) ≡ some []
unfolding ledger
queryable_shut = refl

pub_thr_shut :
    ledger pub_thr_shut_down (payload ∷ publisher ∷ session ∷ value_buffer ∷ []) ≡ some []
unfolding ledger
pub_thr_shut = refl

module _ (answers : Answers) (opens : answers.opens ≡ true) (declares : answers.declares ≡ true)
    (accepts : (text : Str) → answers.is_keyexpr text ≡ true) where
  -- If the library opens the session and takes the key expressions and the declarations, then after any
  -- number of rounds of its loop each of z_pub, z_sub, z_queryable, z_pub_thr and z_sub_thr owns exactly
  -- what the code behind the loop gives up: with that code it would end with nothing owned.
  pub shut_down_complete :
      (pub_args : Pub.PubArgs) (sub : Sub.SubArgs) (serve : Queryable.QueryableArgs)
      (send : PubThr.PubThrArgs) (receive : SubThr.SubThrArgs) (rounds : ℕ)
      → (ledger (Pub.main answers pub_args rounds ++ pub_shut_down) (config ∷ []) ≡ some [])
        × (ledger (Sub.main answers sub rounds ++ sub_shut_down) (config ∷ []) ≡ some [])
        × (ledger (Queryable.main answers serve rounds ++ queryable_shut_down) (config ∷ [])
            ≡ some [])
        × (ledger (PubThr.main answers send rounds ++ pub_thr_shut_down) (config ∷ []) ≡ some [])
        × (ledger (SubThr.main answers receive rounds ++ sub_thr_shut_down) (config ∷ []) ≡ some [])
  shut_down_complete pub_args sub serve send receive rounds =
      let (of_pub, of_sub, of_serve, of_send, of_receive) =
        endless_ownership answers pub_args sub serve send receive rounds (accepts _) in
      (
        ends (Pub.main answers pub_args rounds) pub_shut_down _ _
            (of_pub ∙ three _ _ _ _ _ opens (accepts _) declares) pub_shut,
        ends (Sub.main answers sub rounds) sub_shut_down _ _
            (of_sub ∙ three _ _ _ _ _ opens (accepts _) declares) sub_shut,
        ends (Queryable.main answers serve rounds) queryable_shut_down _ _
            (of_serve ∙ three _ _ _ _ _ opens (accepts _) declares) queryable_shut,
        ends (PubThr.main answers send rounds) pub_thr_shut_down _ _
            (of_send ∙ both _ _ _ _ opens declares) pub_thr_shut,
        ends (SubThr.main answers receive rounds) sub_thr_shut_down _ _
            (of_receive ∙ both _ _ _ _ opens declares) sub_shut,
      )
