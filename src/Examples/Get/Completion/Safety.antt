-- ===== src/Examples/Get/Completion/Safety.antt =====
-- An invariant of the wait of examples/z_get.c: the mutex, the signal, and the objects that are
-- destroyed.
use zenoh_flat_c.Base.{◌≡◌, refl, Bool, true, false, not, ◌&&◌, arith}
use zenoh_flat_c.Examples.Get.Completion.{
  MainPoint, entering, testing, waiting, leaving, ClosePoint, uncalled, setting, signalling,
  unlocking, closed, Holder, nobody, by_main, by_close, State, initial, is_waiting, will_use,
  is_destroyed, Step, main_locks, main_sees_done, main_waits, main_wakes, main_wakes_spuriously,
  main_times_out, main_unlocks, main_destroys_cond, main_destroys_mutex, close_locks, close_sets,
  close_signals, close_unlocks, Reach, start, next,
}

-- `main` is between a lock and an unlock.
abbrev pub main_inside : MainPoint → Bool
main_inside testing = true
main_inside leaving = true
main_inside _ = false

abbrev pub close_inside : ClosePoint → Bool
close_inside setting = true
close_inside signalling = true
close_inside unlocking = true
close_inside _ = false

abbrev pub holder_of : Bool → Bool → Holder
holder_of true _ = by_main
holder_of false true = by_close
holder_of false false = nobody

-- `main` is behind its loop.
abbrev pub has_left : MainPoint → Bool
has_left entering = false
has_left testing = false
has_left waiting = false
has_left _ = true

-- `done` has been set.
abbrev pub has_set : ClosePoint → Bool
has_set uncalled = false
has_set setting = false
has_set _ = true

-- The signal has been sent.
abbrev pub has_signalled : ClosePoint → Bool
has_signalled unlocking = true
has_signalled closed = true
has_signalled _ = false

pub record Inv (s : State) : Type 0 where
  pub one_inside : (main_inside s.main && close_inside s.close) ≡ false
  pub holder_is : s.holder ≡ holder_of (main_inside s.main) (close_inside s.close)
  pub done_is : s.done ≡ has_set s.close
  pub woken : (is_waiting s.main && has_signalled s.close && not s.signalled) ≡ false
  pub settled : (has_left s.main && not s.timed_out && will_use s.close) ≡ false
  pub given_up : (s.timed_out && not (has_left s.main)) ≡ false

initial-Inv : Inv initial
initial-Inv = record {
  one_inside = refl;
  holder_is = refl;
  done_is = refl;
  woken = refl;
  settled = refl;
  given_up = refl;
}

pub Step-Inv : {s t : State} → Step s t → Inv s → Inv t
Step-Inv (main_locks a b) v = ground arith
Step-Inv (main_sees_done a b) v = ground arith
Step-Inv (main_waits a b) v = ground arith
Step-Inv (main_wakes a b c) v = ground arith
Step-Inv (main_wakes_spuriously a b) v = ground arith
Step-Inv (main_times_out a b) v = ground arith
Step-Inv (main_unlocks a) v = ground arith
Step-Inv (main_destroys_cond a) v = ground arith
Step-Inv (main_destroys_mutex a) v = ground arith
Step-Inv (close_locks a b) v = ground arith
Step-Inv (close_sets a) v = ground arith
Step-Inv (close_signals a) v = ground arith
Step-Inv (close_unlocks a) v = ground arith

pub Reach-Inv : {s : State} → Reach s → Inv s
Reach-Inv start = initial-Inv
Reach-Inv (next r st) = Step-Inv st (Reach-Inv r)

-- In every interleaving `main` and `on_close` are never both between a lock and an unlock, the holder
-- of the mutex is the one that is, and `done` is true exactly if `on_close` has set it.
pub mutual_exclusion :
    {s : State}
    → Reach s
    → ((main_inside s.main && close_inside s.close) ≡ false)
      × (s.holder ≡ holder_of (main_inside s.main) (close_inside s.close))
      × (s.done ≡ has_set s.close)
mutual_exclusion r = let v = Reach-Inv r in (v.one_inside, v.holder_is, v.done_is)

-- No wakeup is lost: when `on_close` has finished and `main` still waits, it was signalled, the mutex
-- is free for it, and `done` is true for the test that follows.
pub wakeup :
    {s : State}
    → Reach s
    → s.main ≡ waiting
    → s.close ≡ closed
    → (s.signalled ≡ true) × (s.holder ≡ nobody) × (s.done ≡ true)
wakeup {s} r w c = let v = Reach-Inv r in (ground arith, ground arith, ground arith)

-- If `main` did not leave its loop for want of time, `on_close` has finished with the mutex and the
-- condition variable before `main` destroys either.
pub destroyed_unused :
    {s : State}
    → Reach s
    → s.timed_out ≡ false
    → is_destroyed s.main ≡ true
    → will_use s.close ≡ false
destroyed_unused {s} r t d = let v = Reach-Inv r in ground arith
