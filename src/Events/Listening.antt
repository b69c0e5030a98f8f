-- ===== src/Events/Listening.antt =====
-- What the operations of the `EventManager` of tattle/event.py make of the listeners that an event finds,
-- and which functions an event calls.
use Prim.Native.Char.{Char, code}
use tattle.Prelude.{
  ℕ, ◌+◌, String, ◌≡◌, refl, not, ◌&&◌, List, [], ◌∷◌, arith, eqb, if◌then◌else◌, count,
  count-append, Bool-cases, inl, inr,
}
use tattle.Prelude.Int.{ℤ}
use tattle.Events.Tree.{Branch, branch, callbacks, split, add_listener, change_listeners}
use tattle.Events.Matching.{matches, hit, found, add_listener-found}
use tattle.Events.Changing.{listeners_at, among, change_listeners-found}
use tattle.Events.{
  Listener, EventManager, on, off, find_listeners, has_callback_key, remove_listener,
}

-- An event has at least one part.
split-cons :
    (d : Char) (s : String) → (p : String) × (parts : List String) × (split d s ≡ p ∷ parts)
unfolding split
split-cons d String.[] = ("", [], refl)
split-cons d (String.◌∷◌ c s) =
    let (p, parts, e) = split-cons d s in
    elim (Bool-cases (eqb (code c) (code d))) [
      | inl h ↦ ("", split d s, rw h refl)
      | inr h ↦ (String.◌∷◌ c p, parts, rw (h, e) refl)
    ]

callbacks-add_listener :
    (p : String) (parts : List String) (l : ℕ) (b : Branch)
    → callbacks (add_listener (p ∷ parts) l b) ≡ callbacks b
unfolding add_listener
callbacks-add_listener p parts l (branch ls cs) = refl

callbacks-change_listeners :
    (p : String) (parts : List String) (change : List ℕ → List ℕ) (b : Branch)
    → callbacks (change_listeners (p ∷ parts) change b) ≡ callbacks b
unfolding change_listeners
callbacks-change_listeners p parts change (branch ls cs) = refl

count-find_listeners :
    (l : ℕ) (s : EventManager) (parts : List String)
    → count l (find_listeners s parts)
      ≡ count l (callbacks s.tree) + found s.wildcard l parts (s.tree ∷ [])
unfolding find_listeners
count-find_listeners l s parts = count-append l (callbacks s.tree) _

module _ (s t : EventManager) (same : t.wildcard ≡ s.wildcard) (p : String)
    (rest parts : List String) (l : ℕ) where
  find_listeners-add :
      (id : ℕ)
      → t.tree ≡ add_listener (p ∷ rest) id s.tree
      → count l (find_listeners t parts)
        ≡ count l (find_listeners s parts) + hit (matches s.wildcard (p ∷ rest) parts) id l
  find_listeners-add id e =
      rw (count-find_listeners l t parts, count-find_listeners l s parts, same, e)
        (rw (callbacks-add_listener p rest id s.tree)
          (omega (arith, add_listener-found s.wildcard id l (p ∷ rest) parts s.tree)))

  find_listeners-change :
      (change : List ℕ → List ℕ)
      → change [] ≡ []
      → t.tree ≡ change_listeners (p ∷ rest) change s.tree
      → count l (find_listeners t parts)
          + among (matches s.wildcard (p ∷ rest) parts) l (listeners_at (p ∷ rest) s.tree)
        ≡ count l (find_listeners s parts)
          + among (matches s.wildcard (p ∷ rest) parts) l (change (listeners_at (p ∷ rest) s.tree))
  find_listeners-change change nothing e =
      rw (count-find_listeners l t parts, count-find_listeners l s parts, same, e)
        (rw (callbacks-change_listeners p rest change s.tree) (
          omega
            (arith, change_listeners-found s.wildcard l change nothing (p ∷ rest) parts s.tree)))

-- A listener is found by an event, beside those found before, exactly if its own event matches it part by
-- part. Where the event of the listener has the reserved part, it is refused and nothing changes.
pub on-find_listeners :
    (now : ℕ) (event : String) (func : ℕ) (ttl : ℤ) (s : EventManager) (parts : List String) (l : ℕ)
    → count l (find_listeners (on now event func ttl s).1 parts)
      ≡ count l (find_listeners s parts)
        + (if has_callback_key (split s.delimiter event)
            then 0
            else hit (matches s.wildcard (split s.delimiter event) parts) s.next l)
unfolding on
on-find_listeners now event func ttl s parts l =
    let (p, rest, cut) = split-cons s.delimiter event in
    elim (Bool-cases (has_callback_key (split s.delimiter event))) [
      | inl e ↦ rw (e, on) (omega arith)
      | inr e ↦ rw (e, on, cut) (find_listeners-add s _ refl p rest parts l s.next refl)
    ]

count-remove_listener :
    (heap : ℕ → Listener) (func l : ℕ) (ls : List ℕ)
    → count l (remove_listener heap func ls) ≡ (if eqb (heap l).func func then 0 else count l ls)
count-remove_listener heap func l [] = ground arith
count-remove_listener heap func l (r ∷ ls) = elim (Bool-cases (eqb r l)) [
  | inl e ↦
      let same : r ≡ l = ground (arith, e) in
      rw same (ground (arith, count-remove_listener heap func l ls))
  | inr e ↦ ground (arith, e, count-remove_listener heap func l ls)
]

-- After `off` an event finds no listener less than before, but those of the function that are registered
-- for the very event that was given, if that matches.
pub off-find_listeners :
    (event : String) (func : ℕ) (s : EventManager) (parts : List String) (l : ℕ)
    → (let keys = split s.delimiter event in
        count l (find_listeners (off event func s) parts)
          + (if not (has_callback_key keys) && eqb (s.heap l).func func
              then among (matches s.wildcard keys parts) l (listeners_at keys s.tree)
              else 0)
        ≡ count l (find_listeners s parts))
unfolding off
off-find_listeners event func s parts l =
    let (p, rest, cut) = split-cons s.delimiter event in
    elim (Bool-cases (has_callback_key (split s.delimiter event))) [
      | inl e ↦ rw (e, off) (omega arith)
      | inr e ↦
          rw (e, off, cut)
            (ground (
              arith,
              find_listeners-change s
                  (record s {
                    tree = change_listeners (p ∷ rest) (remove_listener s.heap func) s.tree;
                  })
                  refl p rest parts l (remove_listener s.heap func) refl refl,
              count-remove_listener s.heap func l (listeners_at (p ∷ rest) s.tree),
            ))
    ]
