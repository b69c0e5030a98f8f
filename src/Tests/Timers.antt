-- ===== src/Tests/Timers.antt =====
-- A timer of tattle/timer.py: it runs, is started again, reset and stopped before it is due, and its old
-- handles do nothing.
use tattle.Prelude.{ℕ, ◌≡◌, ◌≤◌, refl, true, false, List, [], ◌∷◌}
use tattle.Exec.{raised, assertion_error}
use tattle.Timer.{
  TimerStep, start_step, stop_step, reset_step, due_step, new_timer, start, stop, timer_steps,
}
use tattle.Timer.Sole.{IsSole, count_starts, timer_steps-called}

abbrev lively : List (TimerStep ℕ)
lively =
    start_step 10
    ∷ due_step 0 true
    ∷ due_step 0 true
    ∷ stop_step
    ∷ start_step 20
    ∷ reset_step 22 7
    ∷ due_step 1 true
    ∷ []

abbrev late : List (TimerStep ℕ)
late = due_step 1 false ∷ due_step 2 false ∷ stop_step ∷ []

timer_steps-called_example :
    IsSole (timer_steps lively (new_timer 5))
    × ((timer_steps lively (new_timer 5)).called ≤ count_starts lively)
    × ((timer_steps late (stop (timer_steps lively (new_timer 5)))).called
        ≡ (timer_steps lively (new_timer 5)).called)
timer_steps-called_example = timer_steps-called 5 lively late (refl, (refl, (refl, tt)))

lively_called :
    ((timer_steps lively (new_timer 5)).called ≡ 1)
    × ((timer_steps lively (new_timer 5)).live ≡ 2 ∷ [])
    × ((timer_steps lively (new_timer 5)).time ≡ 7)
unfolding timer_steps new_timer
lively_called = (refl, refl, refl)

-- A timer that has run is to be stopped before it is started again.
started_twice :
    (start {F = ℕ} 30 (timer_steps (start_step 10 ∷ due_step 0 true ∷ []) (new_timer 5))).0
    ≡ raised assertion_error
unfolding start timer_steps new_timer
started_twice = refl
