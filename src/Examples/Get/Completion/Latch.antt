-- ===== src/Examples/Get/Completion/Latch.antt =====
-- What the wait of examples/z_get.c is for: a latch that is set once, and a wait for it that ends when
-- it is set or after a time.
use zenoh_flat_c.Base.{◌≡◌, refl, ◌⊎◌, inl, inr, Bool, true, false, arith}
use zenoh_flat_c.Examples.Get.Completion.{
  State, initial, setting, Step, main_locks, main_sees_done, main_waits, main_wakes,
  main_wakes_spuriously, main_times_out, main_unlocks, main_destroys_cond, main_destroys_mutex,
  close_locks, close_sets, close_signals, close_unlocks, Reach,
}
use zenoh_flat_c.Examples.Get.Completion.Safety.{has_left, Inv, Reach-Inv}
use zenoh_flat_c.Examples.Get.Completion.Progress.{Steps, can_complete}

pub data Outcome : Type 0 where
  pending completed gave_up : Outcome

pub record Latch : Type 0 where
  pub set : Bool
  pub outcome : Outcome

-- The latch is set once; the wait is completed only by a latch that is set, and ends once.
pub data LatchStep : Latch → Latch → Type 0 where
  sets :
      (o : Outcome)
      → LatchStep (record { set = false; outcome = o }) (record { set = true; outcome = o })
  completes :
      LatchStep
        (record { set = true; outcome = pending })
        (record { set = true; outcome = completed })
  gives_up :
      (b : Bool)
      → LatchStep (record { set = b; outcome = pending }) (record { set = b; outcome = gave_up })

-- The latch that a state of the two threads stands for.
abbrev pub outcome_of : Bool → Bool → Outcome
outcome_of false _ = pending
outcome_of true false = completed
outcome_of true true = gave_up

abbrev pub latch_of : State → Latch
latch_of s = record { set = s.done; outcome = outcome_of (has_left s.main) s.timed_out }

still_waiting : {s : State} → Inv s → has_left s.main ≡ false → s.timed_out ≡ false
still_waiting {s} v e = let g = v.given_up in ground arith

not_set : {s : State} → Inv s → s.close ≡ setting → s.done ≡ false
not_set v e = let h = v.done_is in rw e at h

Step-latch :
    {s t : State}
    → Step s t
    → Inv s
    → (latch_of t ≡ latch_of s) ⊎ LatchStep (latch_of s) (latch_of t)
Step-latch (main_locks a _) v = rw a (inl refl)
Step-latch {s} (main_sees_done a d) v =
    rw (a, d, still_waiting {s = s} v (rw a refl)) (inr completes)
Step-latch (main_waits a _) v = rw a (inl refl)
Step-latch (main_wakes a _ _) v = rw a (inl refl)
Step-latch (main_wakes_spuriously a _) v = rw a (inl refl)
Step-latch {s} (main_times_out a _) v = rw a (inr (gives_up s.done))
Step-latch (main_unlocks a) v = rw a (inl refl)
Step-latch (main_destroys_cond a) v = rw a (inl refl)
Step-latch (main_destroys_mutex a) v = rw a (inl refl)
Step-latch (close_locks _ _) v = inl refl
Step-latch {s} (close_sets a) v =
    let d = not_set v a in rw d (inr (sets (outcome_of (has_left s.main) s.timed_out)))
Step-latch (close_signals _) v = inl refl
Step-latch (close_unlocks _) v = inl refl

-- `s` can go on, without a timeout and without a wakeup that no signal made, until the wait has been
-- completed.
abbrev pub CanBeCompleted : State → Type 0
CanBeCompleted s = (t : State) × Steps s t × ((latch_of t).outcome ≡ completed)

-- The wait has ended, or it can be completed.
abbrev pub Ends : State → Type 0
Ends s = ((latch_of s).outcome ≡ completed) ⊎ ((latch_of s).outcome ≡ gave_up) ⊎ CanBeCompleted s

Reach-Ends : {s : State} → Reach s → Ends s
Reach-Ends {s} r = go (has_left s.main) s.timed_out refl refl
  where
    go : (left over : Bool) → has_left s.main ≡ left → s.timed_out ≡ over → Ends s
    go true false e f = inl (rw (e, f) refl)
    go true true e f = inr (inl (rw (e, f) refl))
    go false over e f =
        let (t, sts, ended, kept) = can_complete r in
        let early = still_waiting {s = s} (Reach-Inv r) e in
        inr (inr (t, sts, rw (ended, kept, early) refl))

-- The two threads implement the latch: at the start it is not set and the wait is pending; a step of
-- either thread leaves the latch as it is, or is a step of the latch; and in each state the wait has
-- been completed or given up, or the threads can go on until it is completed, without a timeout and
-- without a wakeup that no signal made.
pub latch_refined :
    {s t : State}
    → Reach s
    → Step s t
    → (latch_of initial ≡ record { set = false; outcome = pending })
      × ((latch_of t ≡ latch_of s) ⊎ LatchStep (latch_of s) (latch_of t))
      × Ends s
latch_refined r st = (refl, Step-latch st (Reach-Inv r), Reach-Ends r)
