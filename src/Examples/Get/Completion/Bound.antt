-- ===== src/Examples/Get/Completion/Bound.antt =====
-- How long the wait of examples/z_get.c lasts.
use zenoh_flat_c.Base.{ℕ, suc, ◌+◌, ◌*◌, ◌≤◌, arith}
use zenoh_flat_c.Examples.Get.Completion.{
  MainPoint, entering, testing, waiting, leaving, unlocked, cond_destroyed, mutex_destroyed,
  ClosePoint, uncalled, setting, signalling, unlocking, closed, State, initial, Step, main_locks,
  main_sees_done, main_waits, main_wakes, main_wakes_spuriously, main_times_out, main_unlocks,
  main_destroys_cond, main_destroys_mutex, close_locks, close_sets, close_signals, close_unlocks,
}

-- The steps that are left at most, if the wait does not wake.
abbrev main_left : MainPoint → ℕ
main_left entering = 6
main_left testing = 5
main_left waiting = 4
main_left leaving = 3
main_left unlocked = 2
main_left cond_destroyed = 1
main_left mutex_destroyed = 0

abbrev close_left : ClosePoint → ℕ
close_left uncalled = 4
close_left setting = 3
close_left signalling = 2
close_left unlocking = 1
close_left closed = 0

abbrev left : State → ℕ
left s = main_left s.main + close_left s.close

abbrev pub wakeups_of : {s t : State} → Step s t → ℕ
wakeups_of (main_wakes _ _ _) = 1
wakeups_of (main_wakes_spuriously _ _) = 1
wakeups_of _ = 0

-- A run of the two threads, with its steps and the wakeups among them.
pub data Run : ℕ → ℕ → State → Type 0 where
  begin : Run 0 0 initial
  then_ : {n w : ℕ} {s t : State} → Run n w s → (st : Step s t) → Run (suc n) (wakeups_of st + w) t

Step-left : {s t : State} (st : Step s t) → suc (left t) ≤ left s + 2 * wakeups_of st
Step-left (main_locks a _) = rw a (omega arith)
Step-left (main_sees_done a _) = rw a (omega arith)
Step-left (main_waits a _) = rw a (omega arith)
Step-left (main_wakes a _ _) = rw a (omega arith)
Step-left (main_wakes_spuriously a _) = rw a (omega arith)
Step-left (main_times_out a _) = rw a (omega arith)
Step-left (main_unlocks a) = rw a (omega arith)
Step-left (main_destroys_cond a) = rw a (omega arith)
Step-left (main_destroys_mutex a) = rw a (omega arith)
Step-left (close_locks a _) = rw a (omega arith)
Step-left (close_sets a) = rw a (omega arith)
Step-left (close_signals a) = rw a (omega arith)
Step-left (close_unlocks a) = rw a (omega arith)

Run-left : {n w : ℕ} {s : State} → Run n w s → n + left s ≤ 10 + 2 * w
Run-left begin = omega arith
Run-left (then_ r st) = let h = Run-left r in let k = Step-left st in omega arith

-- A run of z_get's wait has at most ten steps and two more for each time that the wait wakes, so no
-- interleaving runs for ever unless the wait wakes again and again.
pub Run-bound : {n w : ℕ} {s : State} → Run n w s → n ≤ 10 + 2 * w
Run-bound r = let h = Run-left r in omega arith
