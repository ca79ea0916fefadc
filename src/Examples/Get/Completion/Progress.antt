-- ===== src/Examples/Get/Completion/Progress.antt =====
-- Whether the wait of examples/z_get.c can go on, and come to its end.
use zenoh_flat_c.Base.{
  ℕ, zero, suc, ◌+◌, ◌<◌, ◌≤◌, ◌≡◌, refl, ◌∙◌, ◌⊎◌, inl, inr, Bool, true, false, arith,
}
use zenoh_flat_c.Examples.Get.Completion.{
  MainPoint, entering, testing, waiting, leaving, unlocked, cond_destroyed, mutex_destroyed,
  ClosePoint, uncalled, setting, signalling, unlocking, closed, nobody, State, Step, main_locks,
  main_sees_done, main_waits, main_wakes, main_wakes_spuriously, main_times_out, main_unlocks,
  main_destroys_cond, main_destroys_mutex, close_locks, close_sets, close_signals, close_unlocks,
  Reach,
}
use zenoh_flat_c.Examples.Get.Completion.Safety.{Inv, Step-Inv, Reach-Inv}

-- A step that is no timeout and no spurious wakeup.
abbrev pub is_forced : {s t : State} → Step s t → Bool
is_forced (main_times_out _ _) = false
is_forced (main_wakes_spuriously _ _) = false
is_forced _ = true

pub data Steps : State → State → Type 0 where
  here : {s : State} → Steps s s
  step : {s t u : State} → (st : Step s t) → is_forced st ≡ true → Steps t u → Steps s u

-- How far `main` and `on_close` still have to go.
abbrev main_ahead : MainPoint → Bool → ℕ
main_ahead entering done = 8
main_ahead testing true = 4
main_ahead testing false = 7
main_ahead waiting done = 6
main_ahead leaving done = 3
main_ahead unlocked done = 2
main_ahead cond_destroyed done = 1
main_ahead mutex_destroyed done = 0

abbrev close_ahead : ClosePoint → ℕ
close_ahead uncalled = 40
close_ahead setting = 30
close_ahead signalling = 20
close_ahead unlocking = 10
close_ahead closed = 0

abbrev ahead : State → ℕ
ahead s = main_ahead s.main s.done + close_ahead s.close

-- A forced step, after which less is ahead.
abbrev Forward : State → Type 0
Forward s =
    (t : State) × (st : Step s t) × (is_forced st ≡ true)
    × (ahead t < ahead s)
    × (t.timed_out ≡ s.timed_out)

main_bounded : (done : Bool) → main_ahead testing done ≤ 7
main_bounded true = omega arith
main_bounded false = omega arith

-- While `main` is outside, `on_close` goes on, or it has not begun, or it has finished.
close-Forward :
    (s : State) (m : MainPoint)
    → s.main ≡ m
    → ((b c : Bool) → main_ahead m b ≡ main_ahead m c)
    → (s.close ≡ uncalled → Forward s)
    → (s.close ≡ closed → Forward s)
    → Forward s
close-Forward s m e same before after = go s.close refl
  where
    go : (c : ClosePoint) → s.close ≡ c → Forward s
    go uncalled f = before f
    go setting f =
        (_, close_sets f, refl, let k = same true s.done in rw (e, f) (omega arith), refl)
    go signalling f = (_, close_signals f, refl, rw f (omega arith), refl)
    go unlocking f = (_, close_unlocks f, refl, rw f (omega arith), refl)
    go closed f = after f

Inv-Forward : (s : State) → Inv s → (s.main ≡ mutex_destroyed) ⊎ Forward s
Inv-Forward s v = go s.main refl
  where
    test : (b : Bool) → s.done ≡ b → s.main ≡ testing → Forward s
    test true d e = (_, main_sees_done e d, refl, rw (e, d) (omega arith), refl)
    test false d e = (_, main_waits e d, refl, rw (e, d) (omega arith), refl)

    signal : s.main ≡ waiting → s.close ≡ closed → s.signalled ≡ true
    signal e f = let w = v.woken in ground arith

    lock : s.main ≡ entering → s.holder ≡ nobody → Forward s
    lock e h = (_, main_locks e h, refl, let k = main_bounded s.done in rw e (omega arith), refl)

    go : (m : MainPoint) → s.main ≡ m → (s.main ≡ mutex_destroyed) ⊎ Forward s
    go entering e =
        let h = v.holder_is in
        let held = rw e at h in
        inr (
          close-Forward s entering e (λ b c. refl) (λ f. lock e (rw f at held))
            (λ f. lock e (rw f at held)))
    go testing e = inr (test s.done refl e)
    go waiting e =
        let h = v.holder_is in
        let held = rw e at h in
        let d = v.done_is in
        inr (
          close-Forward s waiting e (λ b c. refl)
            (λ f. (_, close_locks f (rw f at held), refl, rw f (omega arith), refl))
            (λ f. (
              _,
              main_wakes e (rw f at held) (signal e f),
              refl,
              let d' = rw f at d in rw (e, f, d') (omega arith),
              refl,
            )))
    go leaving e = inr (_, main_unlocks e, refl, rw e (omega arith), refl)
    go unlocked e = inr (_, main_destroys_cond e, refl, rw e (omega arith), refl)
    go cond_destroyed e = inr (_, main_destroys_mutex e, refl, rw e (omega arith), refl)
    go mutex_destroyed e = inl e

-- A way on from `s` to the end of the wait.
abbrev Completion : State → Type 0
Completion s = (t : State) × Steps s t × (t.main ≡ mutex_destroyed) × (t.timed_out ≡ s.timed_out)

complete_lem : (n : ℕ) (s : State) → ahead s < n → Inv s → Completion s
complete_lem zero s h v = absurd (omega arith)
complete_lem (suc n) s h v = go (complete_lem n) (Inv-Forward s v)
  where
    go :
        ((t : State) → ahead t < n → Inv t → Completion t)
        → (s.main ≡ mutex_destroyed) ⊎ Forward s
        → Completion s
    go rest (inl e) = (s, here, e, refl)
    go rest (inr (t, st, forced, less, same)) =
        let (u, sts, e, kept) = rest t (omega arith) (Step-Inv st v) in
        (u, step st forced sts, e, kept ∙ same)

-- From every state of z_get's wait that is reached, the two threads can go on, with no timeout and no
-- wakeup without a signal from there on, until `main` is through with the wait and has destroyed both
-- objects.
pub can_complete :
    {s : State}
    → Reach s
    → (t : State) × Steps s t × (t.main ≡ mutex_destroyed) × (t.timed_out ≡ s.timed_out)
can_complete {s} r = complete_lem (suc (ahead s)) s (omega arith) (Reach-Inv r)

-- No interleaving leads to a deadlock: from every state that is reached, `main` is through with the
-- wait, or some step is possible.
no_deadlock : {s : State} → Reach s → (s.main ≡ mutex_destroyed) ⊎ ((t : State) × Step s t)
no_deadlock {s} r = go (Inv-Forward s (Reach-Inv r))
  where
    go :
        (s.main ≡ mutex_destroyed) ⊎ Forward s
        → (s.main ≡ mutex_destroyed) ⊎ ((t : State) × Step s t)
    go (inl e) = inl e
    go (inr (t, st, _, _, _)) = inr (t, st)
