-- ===== src/Schedule/Ending.antt =====
-- tattle/schedule.py: when a schedule stops to call its callback.
use tattle.Prelude.{
  ◌≡◌, ◌≢◌, refl, sym, ap, ◌∙◌, Bool, true, false, Option, none, some, List, [], ◌∷◌, All,
  Bool-cases, inl, inr,
}
use mathlib.Core.Path.{subst}
use tattle.Exec.{Exception, Exec, raised}
use tattle.Schedule.{
  Task, sleeping, awaiting, cancelled, ended, ScheduledCallback, ScheduleStep, start_step,
  stop_step, wake_step, awaited_step, cancel, after_call, after_await, scheduled_callback, start,
  stop, stop_task, wake, awaited, take_schedule, run_schedule,
}

true_not_false : true ≢ false
true_not_false e = cc

-- The task, if there is one, calls nothing more.
abbrev pub Dead : Option Task → Type 0
Dead none = Unit
Dead (some sleeping) = ⊥
Dead (some awaiting) = ⊥
Dead (some cancelled) = Unit
Dead (some (ended x)) = Unit

cancel-Dead : (task : Task) → Dead (some (cancel task))
cancel-Dead sleeping = tt
cancel-Dead awaiting = tt
cancel-Dead cancelled = tt
cancel-Dead (ended x) = tt

module _ {S : Type 0} where
  -- Steps without a call of `stop`, and without one of `start`
  abbrev pub NoStop : ScheduleStep S → Type 0
  NoStop stop_step = ⊥
  NoStop start_step = Unit
  NoStop (wake_step callback) = Unit
  NoStop (awaited_step coroutine) = Unit

  abbrev pub NoStart : ScheduleStep S → Type 0
  NoStart start_step = ⊥
  NoStart stop_step = Unit
  NoStart (wake_step callback) = Unit
  NoStart (awaited_step coroutine) = Unit

  -- The schedule is started, and its task has ended.
  record Over (x : Exception) (s : ScheduledCallback S) : Type 0 where
    starts : s.started ≡ true
    over : s.task ≡ some (ended x)

  take_schedule-Over :
      (x : Exception) (st : ScheduleStep S) (s : ScheduledCallback S)
      → NoStop st
      → Over x s
      → take_schedule st s ≡ s
  unfolding take_schedule start wake awaited
  take_schedule-Over x stop_step s h o = absurd h
  take_schedule-Over x start_step s h o = ap (λ b. start b s) o.starts
  take_schedule-Over x (wake_step callback) s h o = ap (λ t. wake t callback s) o.over
  take_schedule-Over x (awaited_step coroutine) s h o = ap (λ t. awaited t coroutine s) o.over

  run_schedule-Over :
      (x : Exception) (steps : List (ScheduleStep S)) (s : ScheduledCallback S)
      → All NoStop steps
      → Over x s
      → run_schedule steps s ≡ s
  unfolding run_schedule
  run_schedule-Over x [] s h o = refl
  run_schedule-Over x (st ∷ steps) s h o =
      ap (run_schedule steps) (take_schedule-Over x st s h.0 o) ∙ run_schedule-Over x steps s h.1 o

  -- The step runs the callback, or the coroutine that it returned, and that raises.
  abbrev pub Raises : Exception → ScheduledCallback S → ScheduleStep S → Type 0
  Raises x s start_step = ⊥
  Raises x s stop_step = ⊥
  Raises x s (wake_step callback) = (s.task ≡ some sleeping) × ((callback s.state).0 ≡ raised x)
  Raises x s (awaited_step coroutine) =
      (s.task ≡ some awaiting) × ((coroutine s.state).0 ≡ raised x)

  -- What it has done before it raised
  abbrev pub left_by : ScheduleStep S → S → S
  left_by start_step s = s
  left_by stop_step s = s
  left_by (wake_step callback) s = (callback s).1
  left_by (awaited_step coroutine) s = (coroutine s).1

  -- The task has ended with the exception.
  take_schedule-Raises :
      (st : ScheduleStep S) (s : ScheduledCallback S) (x : Exception)
      → Raises x s st
      → take_schedule st s ≡ record s { state = left_by st s.state; task = some (ended x) }
  unfolding take_schedule wake awaited
  take_schedule-Raises start_step s x h = absurd h
  take_schedule-Raises stop_step s x h = absurd h
  take_schedule-Raises (wake_step callback) s x (asleep, raises) =
      ap (λ t. wake t callback s) asleep
      ∙ ap (λ r. record s { state = (callback s.state).1; task = some (after_call r) }) raises
  take_schedule-Raises (awaited_step coroutine) s x (waits, raises) =
      ap (λ t. awaited t coroutine s) waits
      ∙ ap (λ r. record s { state = (coroutine s.state).1; task = some (after_await r) }) raises

  -- A callback that raises in a schedule that has been started, when it is called or in the coroutine that
  -- it returned, ends the schedule: until `stop` is called nothing that happens, a `start` included, runs
  -- any more of it, and `stop` raises what was raised.
  pub run_schedule-ended :
      (st : ScheduleStep S) (later : List (ScheduleStep S)) (s : ScheduledCallback S)
      (x : Exception)
      → s.started ≡ true
      → Raises x s st
      → All NoStop later
      → let t = run_schedule later (take_schedule st s) in
        (t.state ≡ left_by st s.state) × ((stop t.started t).0 ≡ raised x)
  unfolding stop stop_task
  run_schedule-ended st later s x on raises h =
      let left : ScheduledCallback S = record s {
        state = left_by st s.state;
        task = some (ended x);
      } in
      let same =
        ap (run_schedule later) (take_schedule-Raises st s x raises)
        ∙ run_schedule-Over x later left h (record { starts = on; over = refl }) in
      (ap (λ t. t.state) same, ap (λ t. (stop t.started t).0) same ∙ ap (λ b. (stop b left).0) on)

  -- The schedule is not started.
  record Off (s : ScheduledCallback S) : Type 0 where
    stops : s.started ≡ false
    dead : Dead s.task

  wake-Dead :
      (t : Option Task) (callback : Exec S Bool) (s : ScheduledCallback S)
      → Dead t
      → wake t callback s ≡ s
  unfolding wake
  wake-Dead none callback s h = refl
  wake-Dead (some sleeping) callback s h = absurd h
  wake-Dead (some awaiting) callback s h = refl
  wake-Dead (some cancelled) callback s h = refl
  wake-Dead (some (ended x)) callback s h = refl

  awaited-Dead :
      (t : Option Task) (coroutine : Exec S (Unit {0})) (s : ScheduledCallback S)
      → Dead t
      → awaited t coroutine s ≡ s
  unfolding awaited
  awaited-Dead none coroutine s h = refl
  awaited-Dead (some sleeping) coroutine s h = refl
  awaited-Dead (some awaiting) coroutine s h = absurd h
  awaited-Dead (some cancelled) coroutine s h = refl
  awaited-Dead (some (ended x)) coroutine s h = refl

  run_schedule-Off :
      (steps : List (ScheduleStep S)) (s : ScheduledCallback S)
      → All NoStart steps
      → Off s
      → run_schedule steps s ≡ s
  unfolding run_schedule take_schedule stop
  run_schedule-Off [] s h o = refl
  run_schedule-Off (start_step ∷ steps) s h o = absurd h.0
  run_schedule-Off (stop_step ∷ steps) s h o =
      ap (λ b. run_schedule steps (stop b s).1) o.stops ∙ run_schedule-Off steps s h.1 o
  run_schedule-Off (wake_step callback ∷ steps) s h o =
      ap (run_schedule steps) (wake-Dead s.task callback s o.dead) ∙ run_schedule-Off steps s h.1 o
  run_schedule-Off (awaited_step coroutine ∷ steps) s h o =
      ap (run_schedule steps) (awaited-Dead s.task coroutine s o.dead)
      ∙ run_schedule-Off steps s h.1 o

  -- A schedule that is not started has no task that sleeps or waits.
  abbrev Sound : ScheduledCallback S → Type 0
  Sound s = s.started ≡ false → Dead s.task

  stop-Off : (b : Bool) (s : ScheduledCallback S) → s.started ≡ b → Sound s → Off (stop b s).1
  unfolding stop stop_task
  stop-Off false s e h = record { stops = e; dead = h e }
  stop-Off true s e h = task_off s.task refl
    where
      task_off : (t : Option Task) → s.task ≡ t → Off (stop_task t (record s { started = false })).1
      task_off none there = record { stops = refl; dead = subst Dead (sym there) tt }
      task_off (some task) there = record { stops = refl; dead = cancel-Dead task }

  stop-state : (b : Bool) (s : ScheduledCallback S) → (stop b s).1.state ≡ s.state
  unfolding stop stop_task
  stop-state false s = refl
  stop-state true s = task_state s.task
    where
      task_state :
          (t : Option Task) → (stop_task t (record s { started = false })).1.state ≡ s.state
      task_state none = refl
      task_state (some task) = refl

  start-Sound : (b : Bool) (s : ScheduledCallback S) → s.started ≡ b → Sound (start b s)
  unfolding start
  start-Sound true s e off = absurd (true_not_false (sym e ∙ off))
  start-Sound false s e off = absurd (true_not_false off)

  wake-Sound :
      (callback : Exec S Bool) (s : ScheduledCallback S) → Sound s → Sound (wake s.task callback s)
  unfolding wake
  wake-Sound callback s h = elim (Bool-cases s.started) [
    | inl on ↦ λ off. absurd (true_not_false (sym on ∙ sym (kept s.task) ∙ off))
    | inr off ↦ subst Sound (sym (wake-Dead s.task callback s (h off))) h
  ]
    where
      kept : (t : Option Task) → (wake t callback s).started ≡ s.started
      kept none = refl
      kept (some sleeping) = refl
      kept (some awaiting) = refl
      kept (some cancelled) = refl
      kept (some (ended x)) = refl

  awaited-Sound :
      (coroutine : Exec S (Unit {0})) (s : ScheduledCallback S)
      → Sound s
      → Sound (awaited s.task coroutine s)
  unfolding awaited
  awaited-Sound coroutine s h = elim (Bool-cases s.started) [
    | inl on ↦ λ off. absurd (true_not_false (sym on ∙ sym (kept s.task) ∙ off))
    | inr off ↦ subst Sound (sym (awaited-Dead s.task coroutine s (h off))) h
  ]
    where
      kept : (t : Option Task) → (awaited t coroutine s).started ≡ s.started
      kept none = refl
      kept (some sleeping) = refl
      kept (some awaiting) = refl
      kept (some cancelled) = refl
      kept (some (ended x)) = refl

  run_schedule-Sound :
      (steps : List (ScheduleStep S)) (s : ScheduledCallback S)
      → Sound s
      → Sound (run_schedule steps s)
  unfolding run_schedule take_schedule
  run_schedule-Sound [] s h = h
  run_schedule-Sound (start_step ∷ steps) s h =
      run_schedule-Sound steps (start s.started s) (start-Sound s.started s refl)
  run_schedule-Sound (stop_step ∷ steps) s h =
      run_schedule-Sound steps (stop s.started s).1 (λ off. (stop-Off s.started s refl h).dead)
  run_schedule-Sound (wake_step callback ∷ steps) s h =
      run_schedule-Sound steps (wake s.task callback s) (wake-Sound callback s h)
  run_schedule-Sound (awaited_step coroutine ∷ steps) s h =
      run_schedule-Sound steps (awaited s.task coroutine s) (awaited-Sound coroutine s h)

  -- Whatever has happened to a schedule, after `stop` its callback and the coroutines of it do nothing more
  -- until `start` is called.
  pub run_schedule-stopped :
      (earlier later : List (ScheduleStep S)) (s : S)
      → All NoStart later
      → let t = run_schedule earlier (scheduled_callback s) in
        (run_schedule later (stop t.started t).1).state ≡ t.state
  run_schedule-stopped earlier later s h =
      let t = run_schedule earlier (scheduled_callback s) in
      let sound : Sound t = run_schedule-Sound earlier (scheduled_callback s) (λ off. tt) in
      ap (λ u. u.state)
        (run_schedule-Off later (stop t.started t).1 h (stop-Off t.started t refl sound))
      ∙ stop-state t.started t
