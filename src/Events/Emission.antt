-- ===== src/Events/Emission.antt =====
-- What `emit` of tattle/event.py calls.
use mathlib.Core.List.{append_assoc, append-nil}
use tattle.Prelude.{
  ℕ, zero, suc, ◌≤◌, String, ◌≡◌, refl, ◌∙◌, Bool, false, Option, none, List, [], ◌∷◌, ◌++◌, arith,
  ltb, if◌then◌else◌, count, map, filter, eqb, All, Bool-cases, inl, inr,
}
use tattle.Prelude.Int.{ℤ, pos, negsuc}
use tattle.Exec.{Exception, ok}
use tattle.Exec.Does.{bind-ok}
use tattle.Events.Tree.{split}
use tattle.Events.{
  Listener, EventManager, off, emit, find_listeners, has_callback_key, sort_listeners,
  insert_listener, spend_ttl, call_listener, call_listeners, remove_expired,
}

module _ (heap : ℕ → Listener) where
  -- No listener stands in front of one that has an earlier time.
  abbrev pub IsSorted : List ℕ → Type 0
  IsSorted [] = Unit
  IsSorted (r ∷ ls) = All (λ q. (heap r).time ≤ (heap q).time) ls × IsSorted ls

  All-weaken :
      (a b : ℕ) (ls : List ℕ)
      → a ≤ b
      → All (λ q. b ≤ (heap q).time) ls
      → All (λ q. a ≤ (heap q).time) ls
  All-weaken a b [] h p = tt
  All-weaken a b (q ∷ ls) h p = (omega arith, All-weaken a b ls h p.1)

  insert_listener-All :
      (a r : ℕ) (ls : List ℕ)
      → a ≤ (heap r).time
      → All (λ q. a ≤ (heap q).time) ls
      → All (λ q. a ≤ (heap q).time) (insert_listener heap r ls)
  unfolding insert_listener
  insert_listener-All a r [] h p = (h, tt)
  insert_listener-All a r (q ∷ ls) h p = ground (arith, insert_listener-All a r ls h p.1)

  insert_listener-IsSorted :
      (r : ℕ) (ls : List ℕ) → IsSorted ls → IsSorted (insert_listener heap r ls)
  unfolding insert_listener
  insert_listener-IsSorted r [] v = (tt, tt)
  insert_listener-IsSorted r (q ∷ ls) v = elim (Bool-cases (ltb (heap q).time (heap r).time)) [
    | inl e ↦ rw e (
      insert_listener-All (heap q).time r ls (ground (arith, e)) v.0,
      insert_listener-IsSorted r ls v.1,
    )
    | inr e ↦
        let le : (heap r).time ≤ (heap q).time = ground (arith, e) in
        rw e ((le, All-weaken _ _ ls le v.0), v)
  ]

  sort_listeners-IsSorted : (ls : List ℕ) → IsSorted (sort_listeners heap ls)
  unfolding sort_listeners
  sort_listeners-IsSorted [] = tt
  sort_listeners-IsSorted (r ∷ ls) =
      insert_listener-IsSorted r (sort_listeners heap ls) (sort_listeners-IsSorted ls)

  count-insert_listener :
      (l r : ℕ) (ls : List ℕ) → count l (insert_listener heap r ls) ≡ count l (r ∷ ls)
  unfolding insert_listener
  count-insert_listener l r [] = refl
  count-insert_listener l r (q ∷ ls) = ground (arith, count-insert_listener l r ls)

  count-sort_listeners : (l : ℕ) (ls : List ℕ) → count l (sort_listeners heap ls) ≡ count l ls
  unfolding sort_listeners
  count-sort_listeners l [] = refl
  count-sort_listeners l (r ∷ ls) =
      count-insert_listener l r (sort_listeners heap ls) ∙ omega (arith, count-sort_listeners l ls)

  -- The listeners of one time
  abbrev pub at_time : ℕ → List ℕ → List ℕ
  at_time t = filter (λ r. eqb (heap r).time t)

  at_time-insert_listener :
      (t r : ℕ) (ls : List ℕ) → at_time t (insert_listener heap r ls) ≡ at_time t (r ∷ ls)
  unfolding insert_listener
  at_time-insert_listener t r [] = refl
  at_time-insert_listener t r (q ∷ ls) = ground (arith, at_time-insert_listener t r ls)

  at_time-sort_listeners : (t : ℕ) (ls : List ℕ) → at_time t (sort_listeners heap ls) ≡ at_time t ls
  unfolding sort_listeners
  at_time-sort_listeners t [] = refl
  at_time-sort_listeners t (r ∷ ls) =
      at_time-insert_listener t r (sort_listeners heap ls)
      ∙ ground (arith, at_time-sort_listeners t ls)

-- The functions of the listeners
abbrev pub funcs : EventManager → List ℕ → List ℕ
funcs s ls = map (λ r. (s.heap r).func) ls

-- The listeners were called, all of them and in this order, and they kept their functions.
record Calls (s t : EventManager) (ls : List ℕ) : Type 0 where
  called : t.called ≡ s.called ++ funcs s ls
  kept : (r : ℕ) → (t.heap r).func ≡ (s.heap r).func

funcs-kept :
    (s t : EventManager) (ls : List ℕ)
    → ((r : ℕ) → (t.heap r).func ≡ (s.heap r).func)
    → funcs t ls ≡ funcs s ls
funcs-kept s t [] h = refl
funcs-kept s t (r ∷ ls) h = rw (h r, funcs-kept s t ls h) refl

Calls-trans :
    (s t u : EventManager) (r : ℕ) (ls : List ℕ)
    → Calls s t (r ∷ [])
    → Calls t u ls
    → Calls s u (r ∷ ls)
Calls-trans s t u r ls a b = record {
  called = rw (b.called, a.called, funcs-kept s t ls a.kept) (append_assoc s.called _ _);
  kept = λ q. b.kept q ∙ a.kept q;
}

spend_ttl-kept :
    (r : ℕ) (ttl : ℤ) (s : EventManager)
    → ((spend_ttl r ttl s).1.called ≡ s.called)
      × ((q : ℕ) → ((spend_ttl r ttl s).1.heap q).func ≡ (s.heap q).func)
unfolding spend_ttl
spend_ttl-kept r (pos (suc n)) s = (refl, λ q. ground arith)
spend_ttl-kept r (pos zero) s = (refl, λ q. refl)
spend_ttl-kept r (negsuc n) s = (refl, λ q. refl)

remove_expired-called : (ls : List ℕ) (s : EventManager) → (remove_expired ls s).called ≡ s.called
unfolding remove_expired off
remove_expired-called [] s = refl
remove_expired-called (r ∷ ls) s =
    remove_expired-called ls (off (s.heap r).event (s.heap r).func s) ∙ ground arith

module _ (raises : ℕ → Option Exception) (quiet : (f : ℕ) → raises f ≡ none) where
  call_listener-Calls :
      (r : ℕ) (s : EventManager)
      → (stays : Bool) × ((call_listener raises r s).0 ≡ ok stays)
        × Calls s (call_listener raises r s).1 (r ∷ [])
  unfolding call_listener
  call_listener-Calls r s =
      let l = s.heap r in
      let s' = record s { called = s.called ++ l.func ∷ [] } in
      let kept = spend_ttl-kept r l.ttl s' in
      rw (quiet l.func, call_listener)
        ((spend_ttl r l.ttl s').0, refl, record { called = kept.0; kept = kept.1 })

  call_listeners-Calls :
      (ls : List ℕ) (s : EventManager)
      → (expired : List ℕ) × ((call_listeners raises ls s).0 ≡ ok expired)
        × Calls s (call_listeners raises ls s).1 ls
  unfolding call_listeners
  call_listeners-Calls [] s = ([], refl, record { called = rw append-nil refl; kept = λ q. refl })
  call_listeners-Calls (r ∷ ls) s =
      let (stays, e, first) = call_listener-Calls r s in
      let t = (call_listener raises r s).1 in
      let (expired, d, later) = call_listeners-Calls ls t in
      rw (bind-ok (call_listener raises r) _ s stays e) (
        rw (bind-ok (call_listeners raises ls) _ t expired d) (
          if stays then expired else r ∷ expired,
          refl,
          Calls-trans s t (call_listeners raises ls t).1 r ls first later,
        ))

  -- If no function raises and the event has no reserved part, `emit` returns. It calls the functions of
  -- the listeners that the event finds, each as often as it is found, by the times that were recorded
  -- when they were registered, and those of one time in the order in which they are found.
  pub emit-called :
      (event : String) (s : EventManager)
      → has_callback_key (split s.delimiter event) ≡ false
      → ((emit raises event s).0 ≡ ok tt)
        × (ls : List ℕ) × ((emit raises event s).1.called ≡ s.called ++ funcs s ls)
        × IsSorted s.heap ls
        × ((l : ℕ) → count l ls ≡ count l (find_listeners s (split s.delimiter event)))
        × ((t : ℕ)
            → at_time s.heap t ls ≡ at_time s.heap t (find_listeners s (split s.delimiter event)))
  unfolding emit
  emit-called event s allowed =
      let parts = split s.delimiter event in
      let ls = sort_listeners s.heap (find_listeners s parts) in
      let (expired, e, calls) = call_listeners-Calls ls s in
      let t = (call_listeners raises ls s).1 in
      rw (allowed, emit)
        (rw (bind-ok (call_listeners raises ls) _ s expired e) (
          refl,
          ls,
          remove_expired-called expired t ∙ calls.called,
          sort_listeners-IsSorted s.heap (find_listeners s parts),
          λ l. count-sort_listeners s.heap l (find_listeners s parts),
          λ u. at_time-sort_listeners s.heap u (find_listeners s parts),
        ))
