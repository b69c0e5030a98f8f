-- ===== src/Events.antt =====
-- `EventManager` of tattle/event.py: listeners are registered for patterns of events, called in the
-- order of their registration, and removed when they have been called as often as they asked for.
pub mod Tree
pub mod Matching
pub mod Changing
pub mod Listening
pub mod Emission
use Prim.Native.Char.{Char}
use tattle.Prelude.{
  ℕ, zero, suc, ◌+◌, String, Bool, true, false, not, ◌||◌, Option, none, some, List, [], ◌∷◌, ◌++◌,
  eqb, ltb, ◌==◌, if◌then◌else◌, filter,
}
use tattle.Prelude.Int.{ℤ, pos, negsuc}
use tattle.Exec.{Exec, Exception, ok, raised, value_error, ◌>>=◌, ◌>>◌, continue, pass}
use tattle.Events.Tree.{
  Branch, new_branch, callbacks, split, find_branch, add_listener, change_listeners, find_branches,
  all_callbacks,
}

-- `EventListener`. A function is a number here, by which functions are compared.
pub record Listener : Type 0 where
  pub func : ℕ
  pub event : String
  pub ttl : ℤ
  pub time : ℕ

-- `called` are the functions that were called so far.
pub record EventManager : Type 0 where
  pub delimiter : Char
  pub wildcard : Option String
  pub heap : ℕ → Listener
  pub next : ℕ
  pub tree : Branch
  pub called : List ℕ

abbrev pub callback_key : String
callback_key = "__callback__"

-- `self.__CALLBACK__ in parts`
unfoldable pub has_callback_key : List String → Bool
has_callback_key [] = false
has_callback_key (p ∷ parts) = p == callback_key || has_callback_key parts

-- `on(event, func, ttl)`, at the given time, with a function that can be called
unfoldable pub on : ℕ → String → ℕ → ℤ → Exec EventManager ℕ
unfolding has_callback_key split add_listener
on now event func ttl s =
    let parts = split s.delimiter event in
    if has_callback_key parts then (raised value_error, s) else (
      ok func,
      record s {
        heap = λ r.
            if eqb r s.next
            then record { func = func; event = event; ttl = ttl; time = now }
            else s.heap r;
        next = suc s.next;
        tree = add_listener parts s.next s.tree;
      },
    )

unfoldable pub once : ℕ → String → ℕ → Exec EventManager ℕ
unfolding on
once now event func = on now event func (pos 1)

-- `__remove_listener`, on the listeners of a branch
abbrev pub remove_listener : (ℕ → Listener) → ℕ → List ℕ → List ℕ
remove_listener heap func ls = filter (λ r. not (eqb (heap r).func func)) ls

unfoldable pub off : String → ℕ → EventManager → EventManager
unfolding has_callback_key split change_listeners
off event func s =
    let parts = split s.delimiter event in
    if has_callback_key parts
    then s
    else record s { tree = change_listeners parts (remove_listener s.heap func) s.tree }

-- `listeners.sort(key=lambda l: l.time)`, which is stable
unfoldable pub insert_listener : (ℕ → Listener) → ℕ → List ℕ → List ℕ
insert_listener heap r [] = r ∷ []
insert_listener heap r (q ∷ ls) =
    if ltb (heap q).time (heap r).time then q ∷ insert_listener heap r ls else r ∷ q ∷ ls

unfoldable pub sort_listeners : (ℕ → Listener) → List ℕ → List ℕ
unfolding insert_listener
sort_listeners heap [] = []
sort_listeners heap (r ∷ ls) = insert_listener heap r (sort_listeners heap ls)

-- The listeners that `emit` finds, before it sorts them
unfoldable pub find_listeners : EventManager → List String → List ℕ
unfolding find_branches all_callbacks
find_listeners s parts =
    callbacks s.tree ++ all_callbacks (find_branches s.wildcard parts (s.tree ∷ []))

-- What a listener with the given `ttl` does with it: the result is whether the listener stays.
unfoldable pub spend_ttl : ℕ → ℤ → EventManager → Bool × EventManager
spend_ttl r (pos (suc n)) s = (
  not (eqb n 0),
  record s { heap = λ q. if eqb q r then record (s.heap r) { ttl = pos n } else s.heap q },
)
spend_ttl r (pos zero) s = (true, s)
spend_ttl r (negsuc n) s = (true, s)

-- `l(*args)`: what the function raises goes on. The functions themselves are outside, and do not change
-- the manager.
unfoldable pub call_listener : (ℕ → Option Exception) → ℕ → Exec EventManager Bool
unfolding spend_ttl
call_listener raises r s =
    let l = s.heap r in
    let s' = record s { called = s.called ++ l.func ∷ [] } in
    elim (raises l.func) [
      | some x ↦ (raised x, s')
      | none ↦ let (stays, t) = spend_ttl r l.ttl s' in (ok stays, t)
    ]

-- `[l for l in listeners if not l(*args, **kwargs)]`
unfoldable pub call_listeners : (ℕ → Option Exception) → List ℕ → Exec EventManager (List ℕ)
unfolding call_listener
call_listeners raises [] = λ s. (ok [], s)
call_listeners raises (r ∷ ls) = do
  stays ← call_listener raises r
  expired ← call_listeners raises ls
  λ s. (ok (if stays then expired else r ∷ expired), s)

unfoldable pub remove_expired : List ℕ → EventManager → EventManager
unfolding off
remove_expired [] s = s
remove_expired (r ∷ ls) s = remove_expired ls (off (s.heap r).event (s.heap r).func s)

unfoldable pub emit : (ℕ → Option Exception) → String → Exec EventManager Unit
unfolding has_callback_key split find_listeners sort_listeners call_listeners remove_expired
emit raises event s =
    let parts = split s.delimiter event in
    if has_callback_key parts
    then (raised value_error, s)
    else (do
      expired ← call_listeners raises (sort_listeners s.heap (find_listeners s parts))
      λ t. (ok tt, remove_expired expired t))
        s
