-- ===== src/Tests/Threads.antt =====
-- A run of the wait of z_get in which the time is over first, a run in which it is not, and the
-- rounds of z_sub_thr.
use zenoh_flat_c.Base.{◌⊎◌, ◌+◌, ◌*◌, ◌≤◌, ◌≡◌, refl, true, false, ◌&&◌, List, [], ◌∷◌, arith}
use zenoh_flat_c.Examples.Get.Completion.{
  testing, leaving, by_main, mutex_destroyed, waiting, uncalled, closed, State, Reach, start, next,
  initial, will_use, nobody, main_locks, main_waits, main_wakes, main_wakes_spuriously,
  main_sees_done, main_times_out, main_unlocks, main_destroys_cond, main_destroys_mutex,
  close_locks, close_sets, close_signals, close_unlocks,
}
use zenoh_flat_c.Examples.Get.Completion.Safety.{
  main_inside, close_inside, holder_of, has_set, mutual_exclusion, wakeup, destroyed_unused,
}
use zenoh_flat_c.Examples.Get.Completion.Latch.{pending, latch_of, LatchStep, Ends, latch_refined}
use zenoh_flat_c.Examples.Get.Completion.Bound.{Run, begin, then_, Run-bound}
use zenoh_flat_c.Examples.Get.Completion.Progress.{Steps, can_complete}
use zenoh_flat_c.Examples.SubThr.{Timespec, Stats, on_sample, z_stats_make}
use zenoh_flat_c.Examples.SubThr.Rounds.{samples, running, Limits}

-- `main` waits while `on_close` runs to its end.
abbrev closed_state : State
closed_state = record initial { main = waiting; close = closed; done = true; signalled = true }

closed_Reach : Reach closed_state
closed_Reach =
    next
      (next
        (next
          (next (next (next start (main_locks refl refl)) (main_waits refl refl))
            (close_locks refl refl))
          (close_sets refl))
        (close_signals refl))
      (close_unlocks refl)

-- `main` has woken, and then has seen `done`.
abbrev woken_state : State
woken_state = record closed_state { main = testing; holder = by_main; signalled = false }

abbrev seen_state : State
seen_state = record woken_state { main = leaving }

latch_refined_example :
    (latch_of initial ≡ record { set = false; outcome = pending })
    × ((latch_of seen_state ≡ latch_of woken_state)
        ⊎ LatchStep (latch_of woken_state) (latch_of seen_state))
    × Ends woken_state
latch_refined_example =
    latch_refined (next closed_Reach (main_wakes refl refl refl)) (main_sees_done refl refl)

wakeup_example :
    (closed_state.signalled ≡ true) × (closed_state.holder ≡ nobody) × (closed_state.done ≡ true)
wakeup_example = wakeup closed_Reach refl refl

abbrev over_state : State
over_state = record closed_state { main = mutex_destroyed; signalled = false }

over_Reach : Reach over_state
over_Reach =
    next
      (next
        (next (next (next closed_Reach (main_wakes refl refl refl)) (main_sees_done refl refl))
          (main_unlocks refl))
        (main_destroys_cond refl))
      (main_destroys_mutex refl)

destroyed_unused_example : will_use over_state.close ≡ false
destroyed_unused_example = destroyed_unused over_Reach refl refl

-- After a timeout `main` destroys what `on_close` has still to lock.
timeout_run : Reach (record initial { main = mutex_destroyed; close = uncalled; timed_out = true })
timeout_run =
    next
      (next
        (next
          (next (next (next start (main_locks refl refl)) (main_waits refl refl))
            (main_times_out refl refl))
          (main_unlocks refl))
        (main_destroys_cond refl))
      (main_destroys_mutex refl)

abbrev pub tick : Timespec
tick = record { tv_sec = 5; tv_nsec = 0 }

-- Seven samples, in rounds of two messages, with one round as the limit.
abbrev pub seven : List Timespec
seven = tick ∷ tick ∷ tick ∷ tick ∷ tick ∷ tick ∷ tick ∷ []

pub Limits-1_2 : Limits 1 2
Limits-1_2 = omega arith

abbrev five : List Timespec
five = tick ∷ tick ∷ tick ∷ tick ∷ tick ∷ []

abbrev pub after_five : Stats
after_five = record {
  count = 2;
  finished_rounds = 1;
  start = tick;
  first_start = tick;
  started = true;
  max_rounds = 1;
  messages_per_round = 2;
}

pub five_run : samples 0 five (z_stats_make tick tick 1 2) ≡ running after_five
unfolding samples on_sample z_stats_make
five_run = refl

can_complete_example :
    (t : State) × Steps closed_state t
    × (t.main ≡ mutex_destroyed)
    × (t.timed_out ≡ closed_state.timed_out)
can_complete_example = can_complete closed_Reach

-- Two wakeups before `done` is set.
spurious_run : Run 5 2 (record initial { main = testing; holder = by_main })
spurious_run =
    then_
      (then_
        (then_ (then_ (then_ begin (main_locks refl refl)) (main_waits refl refl))
          (main_wakes_spuriously refl refl))
        (main_waits refl refl))
      (main_wakes_spuriously refl refl)

Run-bound_example : 5 ≤ 10 + 2 * 2
Run-bound_example = Run-bound spurious_run

mutual_exclusion_example :
    ((main_inside closed_state.main && close_inside closed_state.close) ≡ false)
    × (closed_state.holder
        ≡ holder_of (main_inside closed_state.main) (close_inside closed_state.close))
    × (closed_state.done ≡ has_set closed_state.close)
mutual_exclusion_example = mutual_exclusion closed_Reach
