-- ===== src/Tests/Listeners.antt =====
-- Listeners of tattle/event.py: a pattern with a wildcard, a listener that is called once, and two
-- registrations of one function.
use tattle.Prelude.{
  ℕ, ◌+◌, ◌≡◌, refl, not, ◌&&◌, none, some, List, [], ◌∷◌, ◌++◌, eqb, count, if◌then◌else◌,
}
use tattle.Prelude.Int.{negsuc}
use tattle.Exec.{ok}
use tattle.Events.{EventManager, on, once, off, emit, find_listeners, has_callback_key}
use tattle.Events.Tree.{new_branch, split}
use tattle.Events.Matching.{matches, hit}
use tattle.Events.Changing.{among, listeners_at}
use tattle.Events.Listening.{on-find_listeners, off-find_listeners}
use tattle.Events.Emission.{IsSorted, at_time, funcs, emit-called}

abbrev fresh : EventManager
fresh = record {
  delimiter = ".";
  wildcard = some "*";
  heap = λ r. record { func = 0; event = ""; ttl = negsuc 0; time = 0 };
  next = 0;
  tree = new_branch;
  called = [];
}

-- Function 7 for every event of nodes, function 8 for one of them, and once
abbrev listening : EventManager
listening = (once 2 "node.dead" 8 (on 1 "node.*" 7 (negsuc 0) fresh).1).1

emitted :
    ((emit (λ f. none) "node.dead" listening).1.called ≡ 7 ∷ 8 ∷ [])
    × (find_listeners (emit (λ f. none) "node.dead" listening).1 ("node" ∷ "dead" ∷ []) ≡ 0 ∷ [])
    × (find_listeners listening ("node" ∷ "alive" ∷ []) ≡ 0 ∷ [])
unfolding emit once
emitted = (refl, refl, refl)

-- A function that is registered for good and once: when the second has expired, both are gone.
abbrev twice : EventManager
twice = (once 2 "node.dead" 7 (on 1 "node.dead" 7 (negsuc 0) fresh).1).1

emitted_twice :
    ((emit (λ f. none) "node.dead" twice).1.called ≡ 7 ∷ 7 ∷ [])
    × (find_listeners (emit (λ f. none) "node.dead" twice).1 ("node" ∷ "dead" ∷ []) ≡ [])
unfolding emit once
emitted_twice = (refl, refl)

on-find_listeners_example :
    count 2 (find_listeners (on 3 "node.*" 9 (negsuc 0) listening).1 ("node" ∷ "dead" ∷ []))
    ≡ count 2 (find_listeners listening ("node" ∷ "dead" ∷ []))
      + (if has_callback_key (split listening.delimiter "node.*")
          then 0
          else hit
              (matches listening.wildcard
                (split listening.delimiter "node.*")
                ("node" ∷ "dead" ∷ []))
              listening.next
              2)
on-find_listeners_example =
    on-find_listeners 3 "node.*" 9 (negsuc 0) listening ("node" ∷ "dead" ∷ []) 2

off-find_listeners_example :
    count 1 (find_listeners (off "node.dead" 8 listening) ("node" ∷ "dead" ∷ []))
      + (if not (has_callback_key (split listening.delimiter "node.dead"))
            && eqb (listening.heap 1).func 8
          then among
              (matches listening.wildcard
                (split listening.delimiter "node.dead")
                ("node" ∷ "dead" ∷ []))
              1
              (listeners_at (split listening.delimiter "node.dead") listening.tree)
          else 0)
    ≡ count 1 (find_listeners listening ("node" ∷ "dead" ∷ []))
off-find_listeners_example = off-find_listeners "node.dead" 8 listening ("node" ∷ "dead" ∷ []) 1

emit-called_example :
    ((emit (λ f. none) "node.dead" listening).0 ≡ ok tt)
    × (ls : List ℕ) × ((emit (λ f. none) "node.dead" listening).1.called
        ≡ listening.called ++ funcs listening ls)
    × IsSorted listening.heap ls
    × ((l : ℕ)
        → count l ls ≡ count l (find_listeners listening (split listening.delimiter "node.dead")))
    × ((t : ℕ)
        → at_time listening.heap t ls
          ≡ at_time listening.heap t
              (find_listeners listening (split listening.delimiter "node.dead")))
unfolding split has_callback_key once
emit-called_example = emit-called (λ f. none) (λ f. refl) "node.dead" listening refl
