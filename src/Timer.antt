-- ===== src/Timer.antt =====
-- tattle/timer.py: a `Timer` with the event loop that it is on. `F` is the type of the floats. The node manager
-- takes of it what its suspicion timers use (State/Manager.antt).
pub mod Sole
use tattle.Prelude.{
  ℕ, ◌+◌, Bool, false, not, ◌||◌, Option, none, some, List, [], ◌∷◌, ◌++◌, eqb, filter,
  if◌then◌else◌,
}
use tattle.Exec.{Exec, Result, ok, raised, assertion_error, modify, continue, ◌>>=◌, ◌>>◌}

-- The timer, and of the loop: the handles that it is to run, the next one, how often it has called the callback,
-- and how many tasks it has got.
pub record LoopTimer (F : Type 0) : Type 0 where
  pub time : F
  pub handle : Option ℕ
  pub started : Option F
  pub live : List ℕ
  pub next_handle : ℕ
  pub called : ℕ
  pub tasks : ℕ

-- What may happen: `start` and `reset` at a time, `stop`, `__del__`, and that a handle is due, where the callback
-- returns a coroutine or something else.
pub data TimerStep (F : Type 0) : Type 0 where
  start_step : F → TimerStep F
  stop_step del_step : TimerStep F
  reset_step : F → F → TimerStep F
  due_step : ℕ → Bool → TimerStep F

-- Is the handle to be run?
unfoldable pub is_live : ℕ → List ℕ → Bool
is_live h [] = false
is_live h (x ∷ xs) = eqb x h || is_live h xs

module _ {F : Type 0} where
  -- `Timer(callback, time)`
  unfoldable pub new_timer : F → LoopTimer F
  new_timer time = record {
    time = time;
    handle = none;
    started = none;
    live = [];
    next_handle = 0;
    called = 0;
    tasks = 0;
  }

  -- `start` at the time `now`: `call_later` makes a handle.
  unfoldable pub start : F → Exec (LoopTimer F) Unit
  start now s = elim s.handle [
    | some h ↦ (raised assertion_error, s)
    | none ↦ (
      ok tt,
      record s {
        started = some now;
        handle = some s.next_handle;
        live = s.live ++ s.next_handle ∷ [];
        next_handle = s.next_handle + 1;
      },
    )
  ]

  -- The handle is cancelled: the loop will not run it.
  unfoldable pub stop : LoopTimer F → LoopTimer F
  stop s = elim s.handle [
    | none ↦ s
    | some h ↦ record s { handle = none; live = filter (λ x. not (eqb x h)) s.live }
  ]

  unfoldable pub reset : F → F → Exec (LoopTimer F) Unit
  unfolding start stop
  reset now time = do modify stop; modify (λ s. record s { time = time }); start now

  -- `max(0, self.time - (time.time() - self._started))`, with the operations of the floats
  unfoldable pub remaining : (F → F) → (F → F → F) → F → LoopTimer F → F
  remaining max_zero sub now s = elim s.started [
    | none ↦ s.time
    | some started ↦ max_zero (sub s.time (sub now started))
  ]

  -- `_run`, where the callback returns a coroutine or not
  unfoldable pub timer_run : Bool → LoopTimer F → LoopTimer F
  timer_run coroutine s = record s {
    called = s.called + 1;
    tasks = if coroutine then s.tasks + 1 else s.tasks;
  }

  -- The loop comes to a handle.
  unfoldable pub due : ℕ → Bool → LoopTimer F → LoopTimer F
  unfolding is_live timer_run
  due h coroutine s =
      if is_live h s.live
      then timer_run coroutine (record s { live = filter (λ x. not (eqb x h)) s.live })
      else s

  -- `__del__`
  unfoldable pub delete : LoopTimer F → LoopTimer F
  unfolding stop
  delete s = stop s

  -- What an exception is to the caller is left to it.
  unfoldable pub timer_step : TimerStep F → LoopTimer F → LoopTimer F
  unfolding start stop reset due delete
  timer_step (start_step now) s = (start now s).1
  timer_step stop_step s = stop s
  timer_step del_step s = delete s
  timer_step (reset_step now time) s = (reset now time s).1
  timer_step (due_step h coroutine) s = due h coroutine s

  unfoldable pub timer_steps : List (TimerStep F) → LoopTimer F → LoopTimer F
  unfolding timer_step
  timer_steps [] s = s
  timer_steps (x ∷ xs) s = timer_steps xs (timer_step x s)
