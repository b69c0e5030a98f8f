-- ===== src/Schedule.antt =====
-- tattle/schedule.py: a callback that the event loop runs again and again. `S` is what the callback works on;
-- the calls of it are what the steps run.
pub mod Ending
use tattle.Prelude.{Bool, true, false, Option, none, some, List, [], ◌∷◌}
use tattle.Exec.{Exception, Exec, Result, ok, raised, attribute_error}

-- The task of `_run`: it sleeps, it waits for the coroutine that the callback returned, or it has ended.
pub data Task : Type 0 where
  sleeping awaiting cancelled : Task
  ended : Exception → Task

pub record ScheduledCallback (S : Type 0) : Type 0 where
  pub state : S
  pub started : Bool
  pub task : Option Task

-- What may happen: `start`, `stop`, the end of a sleep, with what the callback does, which returns whether
-- it returned a coroutine, and the end of the coroutine, with what it does.
pub data ScheduleStep (S : Type 0) : Type 0 where
  start_step stop_step : ScheduleStep S
  wake_step : Exec S Bool → ScheduleStep S
  awaited_step : Exec S (Unit {0}) → ScheduleStep S

abbrev pub cancel : Task → Task
cancel sleeping = cancelled
cancel awaiting = cancelled
cancel cancelled = cancelled
cancel (ended x) = ended x

-- `await self._task`, where a cancellation is suppressed
abbrev pub await : Task → Result (Unit {0})
await (ended x) = raised x
await sleeping = ok tt
await awaiting = ok tt
await cancelled = ok tt

-- A round of `_run` behind the sleep, with what the callback returned or raised
abbrev pub after_call : Result Bool → Task
after_call (raised x) = ended x
after_call (ok true) = awaiting
after_call (ok false) = sleeping

-- The end of a round
abbrev pub after_await : Result (Unit {0}) → Task
after_await (raised x) = ended x
after_await (ok u) = sleeping

module _ {S : Type 0} where
  abbrev pub scheduled_callback : S → ScheduledCallback S
  scheduled_callback s = record { state = s; started = false; task = none }

  unfoldable pub start : Bool → ScheduledCallback S → ScheduledCallback S
  start true s = s
  start false s = record s { started = true; task = some sleeping }

  unfoldable pub stop_task : Option Task → Exec (ScheduledCallback S) (Unit {0})
  stop_task none s = (raised attribute_error, s)
  stop_task (some task) s = (await (cancel task), record s { task = some (cancel task) })

  unfoldable pub stop : Bool → Exec (ScheduledCallback S) (Unit {0})
  unfolding stop_task
  stop false s = (ok tt, s)
  stop true s = stop_task s.task (record s { started = false })

  unfoldable pub wake : Option Task → Exec S Bool → ScheduledCallback S → ScheduledCallback S
  wake (some sleeping) callback s =
      let (result, left) = callback s.state in
      record s { state = left; task = some (after_call result) }
  wake (some awaiting) callback s = s
  wake (some cancelled) callback s = s
  wake (some (ended x)) callback s = s
  wake none callback s = s

  unfoldable pub awaited :
      Option Task → Exec S (Unit {0}) → ScheduledCallback S → ScheduledCallback S
  awaited (some awaiting) coroutine s =
      let (result, left) = coroutine s.state in
      record s { state = left; task = some (after_await result) }
  awaited (some sleeping) coroutine s = s
  awaited (some cancelled) coroutine s = s
  awaited (some (ended x)) coroutine s = s
  awaited none coroutine s = s

  unfoldable pub take_schedule : ScheduleStep S → ScheduledCallback S → ScheduledCallback S
  unfolding start stop wake awaited
  take_schedule start_step s = start s.started s
  take_schedule stop_step s = (stop s.started s).1
  take_schedule (wake_step callback) s = wake s.task callback s
  take_schedule (awaited_step coroutine) s = awaited s.task coroutine s

  unfoldable pub run_schedule : List (ScheduleStep S) → ScheduledCallback S → ScheduledCallback S
  unfolding take_schedule
  run_schedule [] s = s
  run_schedule (st ∷ steps) s = run_schedule steps (take_schedule st s)
