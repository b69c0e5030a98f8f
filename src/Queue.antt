-- ===== src/Queue.antt =====
-- tattle/queue.py: the queue of gossip messages, oldest first. Messages are bytes, already encoded.
pub mod Items
pub mod Fetching
pub mod Sorted
pub mod Budget
pub mod Invariant
pub mod Dissemination
pub mod Full
use tattle.Prelude.{
  ℕ, String, not, ◌&&◌, Option, none, some, List, [], ◌∷◌, ◌++◌, reverse, ltb, if◌then◌else◌,
  length, filter, ◌==◌,
}
use tattle.Prelude.Int.{ℤ}
use tattle.Exec.{Exec, ok, raised, not_implemented_error}
use Items.{Item, sort_items}
use Fetching.{pop_newest, fetch_newest}

pub record BroadcastQueue : Type 0 where
  pub max_size : ℕ
  pub items : List Item

-- `BroadcastQueue(max_size)`
abbrev pub empty : ℕ → BroadcastQueue
empty max_size = record { max_size = max_size; items = [] }

-- `prune` is not implemented in the source: it raises.
unfoldable pub prune : Exec BroadcastQueue Unit
prune q = (raised not_implemented_error, q)

unfoldable pub push_item : Item → Exec BroadcastQueue Unit
unfolding prune
push_item item q =
    let added = record q { items = filter (λ i. not (i.node == item.node)) q.items ++ item ∷ [] } in
    if ltb 0 q.max_size && ltb q.max_size (length added.items) then prune added else (ok tt, added)

unfoldable pub push : String → List ℕ → Exec BroadcastQueue Unit
unfolding push_item
push node message = push_item (record { node = node; message = message; transmits = 0 })

unfoldable pub sort : BroadcastQueue → BroadcastQueue
sort q = record q { items = sort_items q.items }

-- The loop runs from the newest item: it is given the queue reversed.
unfoldable pub pop_item : ℕ → BroadcastQueue → Option Item × BroadcastQueue
unfolding sort
pop_item max_transmits q =
    let (item, rest) = pop_newest max_transmits (reverse q.items) in
    (item, sort (record q { items = reverse rest }))

unfoldable pub pop : ℕ → BroadcastQueue → Option (List ℕ) × BroadcastQueue
unfolding pop_item
pop max_transmits q =
    let (item, q') = pop_item max_transmits q in
    (elim item [ none ↦ none | some i ↦ some i.message ], q')

unfoldable pub fetch : ℕ → ℤ → ℕ → BroadcastQueue → List (List ℕ) × BroadcastQueue
unfolding sort
fetch max_transmits max_bytes max_messages q =
    let (messages, rest) = fetch_newest max_transmits max_messages max_bytes 0 (reverse q.items) in
    let left = record q { items = reverse rest } in
    (messages, if ltb 0 (length messages) then sort left else left)
