-- ===== src/Examples/Get/Completion.antt =====
-- The wait of z_get: `main` waits on a condition variable until `on_close`, which the library calls
-- in a thread of its own, has set `done`, or until the deadline has passed. Each step is one call of
-- a pthread function or one access of `done`, in any interleaving. It begins where `z_session_get`
-- has returned true; where it returns false, `main` neither locks nor waits.
pub mod Progress
pub mod Safety
pub mod Latch
pub mod Bound
use zenoh_flat_c.Base.{ℕ, ◌+◌, ◌/◌, ◌≡◌, Bool, true, false}

-- Where `main` stands, from `pthread_mutex_lock` on.
pub data MainPoint : Type 0 where
  -- in front of the lock
  entering : MainPoint
  -- at the test of `done`, with the mutex
  testing : MainPoint
  -- in `pthread_cond_timedwait`
  waiting : MainPoint
  -- behind the loop, with the mutex: `done` was seen, or the time was over
  leaving : MainPoint
  -- in front of `pthread_cond_destroy`, then of `pthread_mutex_destroy`, then behind both
  unlocked : MainPoint
  cond_destroyed : MainPoint
  mutex_destroyed : MainPoint

-- Where `on_close` stands.
pub data ClosePoint : Type 0 where
  -- not called yet
  uncalled : ClosePoint
  -- in front of `sig->done = true`, with the mutex
  setting : ClosePoint
  -- in front of `pthread_cond_signal`, then of `pthread_mutex_unlock`, then finished
  signalling : ClosePoint
  unlocking : ClosePoint
  closed : ClosePoint

pub data Holder : Type 0 where
  nobody by_main by_close : Holder

pub record State : Type 0 where
  pub main : MainPoint
  pub close : ClosePoint
  pub holder : Holder
  pub done : Bool
  -- a signal was sent while `main` waits
  pub signalled : Bool
  -- the loop was left because the time was over; the program keeps no such variable
  pub timed_out : Bool

abbrev pub initial : State
initial = record {
  main = entering;
  close = uncalled;
  holder = nobody;
  done = false;
  signalled = false;
  timed_out = false;
}

-- `pthread_cond_signal` wakes `main` if it waits.
abbrev pub is_waiting : MainPoint → Bool
is_waiting waiting = true
is_waiting _ = false

pub data Step (s : State) : State → Type 0 where
  main_locks :
      s.main ≡ entering → s.holder ≡ nobody → Step s (record s { main = testing; holder = by_main })
  main_sees_done : s.main ≡ testing → s.done ≡ true → Step s (record s { main = leaving })
  main_waits :
      s.main ≡ testing
      → s.done ≡ false
      → Step s (record s { main = waiting; holder = nobody; signalled = false })
  -- The wait ends with 0 after a signal, and the loop tests again.
  main_wakes :
      s.main ≡ waiting
      → s.holder ≡ nobody
      → s.signalled ≡ true
      → Step s (record s { main = testing; holder = by_main; signalled = false })
  -- The wait ends with 0 without a signal, as POSIX allows.
  main_wakes_spuriously :
      s.main ≡ waiting → s.holder ≡ nobody → Step s (record s { main = testing; holder = by_main })
  -- The wait ends with another value, and the loop is left.
  main_times_out :
      s.main ≡ waiting
      → s.holder ≡ nobody
      → Step s (record s { main = leaving; holder = by_main; timed_out = true })
  main_unlocks : s.main ≡ leaving → Step s (record s { main = unlocked; holder = nobody })
  main_destroys_cond : s.main ≡ unlocked → Step s (record s { main = cond_destroyed })
  main_destroys_mutex : s.main ≡ cond_destroyed → Step s (record s { main = mutex_destroyed })
  close_locks :
      s.close ≡ uncalled
      → s.holder ≡ nobody
      → Step s (record s { close = setting; holder = by_close })
  close_sets : s.close ≡ setting → Step s (record s { close = signalling; done = true })
  close_signals :
      s.close ≡ signalling → Step s (record s { close = unlocking; signalled = is_waiting s.main })
  close_unlocks : s.close ≡ unlocking → Step s (record s { close = closed; holder = nobody })

pub data Reach : State → Type 0 where
  start : Reach initial
  next : {s t : State} → Reach s → Step s t → Reach t

-- `on_close` stands in front of a call on the mutex or the condition variable.
abbrev pub will_use : ClosePoint → Bool
will_use closed = false
will_use _ = true

abbrev pub is_destroyed : MainPoint → Bool
is_destroyed cond_destroyed = true
is_destroyed mutex_destroyed = true
is_destroyed _ = false
