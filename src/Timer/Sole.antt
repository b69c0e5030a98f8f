-- ===== src/Timer/Sole.antt =====
-- How often a timer of tattle/timer.py calls.
use tattle.Prelude.{
  ℕ, ◌+◌, ◌≤◌, ◌≡◌, refl, inl, inr, Bool, true, false, some, List, [], ◌∷◌, All, arith, length,
  Option-cases, eqb, Bool-cases, ◌∙◌, if◌then◌else◌,
}
use tattle.Timer.{
  LoopTimer, TimerStep, start_step, stop_step, del_step, reset_step, due_step, is_live, new_timer,
  start, stop, reset, due, delete, timer_step, timer_steps,
}

abbrev pub starts : {F : Type 0} → TimerStep F → Bool
starts (start_step now) = true
starts (reset_step now time) = true
starts stop_step = false
starts del_step = false
starts (due_step h coroutine) = false

-- How many of the steps start the timer
abbrev pub count_starts : {F : Type 0} → List (TimerStep F) → ℕ
count_starts [] = 0
count_starts (x ∷ xs) = if starts x then count_starts xs + 1 else count_starts xs

module _ {F : Type 0} where
  -- The loop holds no handle of the timer, or the one that the timer knows, and only that one.
  pub data IsSole (s : LoopTimer F) : Type 0 where
    idle : s.live ≡ [] → IsSole s
    armed : (h : ℕ) → s.live ≡ h ∷ [] → s.handle ≡ some h → IsSole s

  stop-idle : (s : LoopTimer F) → IsSole s → (stop s).live ≡ []
  unfolding stop
  stop-idle s (idle e) = elim (Option-cases s.handle) [
    | inl h ↦ ground (arith, e, h)
    | inr (r, h) ↦ ground (arith, e, h)
  ]
  stop-idle s (armed h e k) = ground (arith, e, k)

  start-IsSole : (now : F) (s : LoopTimer F) → IsSole s → IsSole (start now s).1
  unfolding start
  start-IsSole now s (idle e) = elim (Option-cases s.handle) [
    | inl h ↦ armed s.next_handle (ground (arith, e, h)) (ground (arith, h))
    | inr (r, h) ↦ idle (ground (arith, e, h))
  ]
  start-IsSole now s (armed h e k) = armed h (ground (arith, e, k)) (ground (arith, k))

  due-IsSole : (h : ℕ) (coroutine : Bool) (s : LoopTimer F) → IsSole s → IsSole (due h coroutine s)
  unfolding due is_live
  due-IsSole h coroutine s (idle e) = idle (ground (arith, e))
  due-IsSole h coroutine s (armed r e k) = elim (Bool-cases (eqb r h)) [
    | inl same ↦ idle (ground (arith, e, same))
    | inr other ↦ armed r (ground (arith, e, other)) (ground (arith, e, k, other))
  ]

  timer_step-IsSole : (x : TimerStep F) (s : LoopTimer F) → IsSole s → IsSole (timer_step x s)
  unfolding timer_step reset delete
  timer_step-IsSole (start_step now) s h = start-IsSole now s h
  timer_step-IsSole stop_step s h = idle (stop-idle s h)
  timer_step-IsSole del_step s h = idle (stop-idle s h)
  timer_step-IsSole (reset_step now time) s h =
      start-IsSole now (record (stop s) { time = time }) (idle (stop-idle s h))
  timer_step-IsSole (due_step r coroutine) s h = due-IsSole r coroutine s h

  pub timer_steps-IsSole :
      (steps : List (TimerStep F)) (s : LoopTimer F) → IsSole s → IsSole (timer_steps steps s)
  unfolding timer_steps
  timer_steps-IsSole [] s h = h
  timer_steps-IsSole (x ∷ xs) s h = timer_steps-IsSole xs (timer_step x s) (timer_step-IsSole x s h)

  -- The calls that were made and those that are to come
  abbrev calls : LoopTimer F → ℕ
  calls s = s.called + length s.live

  stop-calls : (s : LoopTimer F) → IsSole s → calls (stop s) ≤ calls s
  unfolding stop
  stop-calls s (idle e) = elim (Option-cases s.handle) [
    | inl h ↦ ground (arith, e, h)
    | inr (r, h) ↦ ground (arith, e, h)
  ]
  stop-calls s (armed h e k) = ground (arith, e, k)

  start-calls : (now : F) (s : LoopTimer F) → IsSole s → calls (start now s).1 ≤ calls s + 1
  unfolding start
  start-calls now s (idle e) = elim (Option-cases s.handle) [
    | inl h ↦ ground (arith, e, h)
    | inr (r, h) ↦ ground (arith, e, h)
  ]
  start-calls now s (armed h e k) = ground (arith, e, k)

  due-calls :
      (h : ℕ) (coroutine : Bool) (s : LoopTimer F) → IsSole s → calls (due h coroutine s) ≤ calls s
  unfolding due is_live
  due-calls h coroutine s (idle e) = ground (arith, e)
  due-calls h coroutine s (armed r e k) = elim (Bool-cases (eqb r h)) [
    | inl same ↦ ground (arith, e, same)
    | inr other ↦ ground (arith, e, other)
  ]

  timer_step-calls :
      (x : TimerStep F) (s : LoopTimer F)
      → IsSole s
      → calls (timer_step x s) ≤ (if starts x then calls s + 1 else calls s)
  unfolding timer_step reset delete
  timer_step-calls (start_step now) s h = start-calls now s h
  timer_step-calls stop_step s h = stop-calls s h
  timer_step-calls del_step s h = stop-calls s h
  timer_step-calls (reset_step now time) s h =
      let stopped : LoopTimer F = record (stop s) { time = time } in
      ground (arith, start-calls now stopped (idle (stop-idle s h)), stop-calls s h)
  timer_step-calls (due_step r coroutine) s h = due-calls r coroutine s h

  timer_steps-calls :
      (steps : List (TimerStep F)) (s : LoopTimer F)
      → IsSole s
      → calls (timer_steps steps s) ≤ calls s + count_starts steps
  unfolding timer_steps
  timer_steps-calls [] s h = omega arith
  timer_steps-calls (x ∷ xs) s h = ground (
    arith,
    timer_step-calls x s h,
    timer_steps-calls xs (timer_step x s) (timer_step-IsSole x s h),
  )

  new_timer-IsSole : (time : F) → IsSole (new_timer time)
  unfolding new_timer
  new_timer-IsSole time = idle refl

  timer_step-silent :
      (x : TimerStep F) (s : LoopTimer F)
      → starts x ≡ false
      → s.live ≡ []
      → ((timer_step x s).live ≡ []) × ((timer_step x s).called ≡ s.called)
  unfolding timer_step stop delete due is_live
  timer_step-silent (start_step now) s e h = ground (arith, e)
  timer_step-silent (reset_step now time) s e h = ground (arith, e)
  timer_step-silent stop_step s e h = elim (Option-cases s.handle) [
    | inl k ↦ ground (arith, h, k)
    | inr (r, k) ↦ ground (arith, h, k)
  ]
  timer_step-silent del_step s e h = elim (Option-cases s.handle) [
    | inl k ↦ ground (arith, h, k)
    | inr (r, k) ↦ ground (arith, h, k)
  ]
  timer_step-silent (due_step r coroutine) s e h = ground (arith, h)

  timer_steps-silent :
      (steps : List (TimerStep F)) (s : LoopTimer F)
      → All (λ x. starts x ≡ false) steps
      → s.live ≡ []
      → (timer_steps steps s).called ≡ s.called
  unfolding timer_steps
  timer_steps-silent [] s none_starts h = refl
  timer_steps-silent (x ∷ xs) s (e, none_starts) h =
      let (still, same) = timer_step-silent x s e h in
      timer_steps-silent xs (timer_step x s) none_starts still ∙ same

  stop-called : (s : LoopTimer F) → (stop s).called ≡ s.called
  unfolding stop
  stop-called s = elim (Option-cases s.handle) [
    | inl h ↦ ground (arith, h)
    | inr (r, h) ↦ ground (arith, h)
  ]

  -- Whatever happens to a timer after it is made, starts and resets while it runs included, the loop holds no
  -- handle of it but the one that the timer knows, so that stop can cancel it: the callback is called at most
  -- once for each start or reset, and after a stop, where neither start nor reset follows, it is not called again.
  pub timer_steps-called :
      (time : F) (before after : List (TimerStep F))
      → All (λ x. starts x ≡ false) after
      → let s = timer_steps before (new_timer time) in
        IsSole s
        × (s.called ≤ count_starts before)
        × ((timer_steps after (stop s)).called ≡ s.called)
  unfolding new_timer
  timer_steps-called time before after none_starts =
      let made = new_timer-IsSole time in
      let s = timer_steps before (new_timer time) in
      let sole = timer_steps-IsSole before (new_timer time) made in
      (
        sole,
        ground (arith, timer_steps-calls before (new_timer time) made),
        timer_steps-silent after (stop s) none_starts (stop-idle s sole) ∙ stop-called s,
      )
