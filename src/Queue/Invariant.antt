-- ===== src/Queue/Invariant.antt =====
-- The well-formed queues of tattle/queue.py: sorted, with one message for each node.
use mathlib.Core.List.{reverse-reverse}
use tattle.Prelude.{
  ℕ, ◌≤◌, String, ◌≡◌, refl, not, List, [], ◌∷◌, reverse, arith, if◌then◌else◌, ◌==◌, eq_iff,
  filter,
}
use tattle.Prelude.Int.{ℤ}
use tattle.Queue.Items.{Item, IsSorted}
use tattle.Queue.Fetching.{fetch_newest, pop_newest}
use tattle.Queue.Sorted.{
  total, total-append, total-reverse, total-sort_items, sort_items-IsSorted, filter-IsSorted,
  append-IsSorted,
}
use tattle.Queue.Budget.{fetch_newest-empty, total-fetch_newest, total-pop_newest}
use tattle.Queue.{BroadcastQueue, push, pop, fetch}

abbrev pub is_about : String → Item → ℕ
is_about node i = if i.node == node then 1 else 0

-- How many items of the queue are about the node.
abbrev pub about : String → List Item → ℕ
about node = total (is_about node)

pub record IsValid (q : BroadcastQueue) : Type 0 where
  pub sorted : IsSorted q.items
  pub unique : (node : String) → about node q.items ≤ 1

about-filter :
    (node other : String) (xs : List Item)
    → about other (filter (λ (i : Item). not (i.node == node)) xs)
      ≡ (if node == other then 0 else about other xs)
about-filter node other [] = ground arith
about-filter node other (x ∷ xs) =
    ground (
      arith,
      about-filter node other xs,
      eq_iff x.node node,
      eq_iff x.node other,
      eq_iff node other,
    )

-- Pushing a message keeps the queue well-formed: sorted by transmissions, with at most one message
-- for a node.
pub push-IsValid :
    (node : String) (message : List ℕ) (q : BroadcastQueue)
    → IsValid q
    → IsValid (push node message q).1
unfolding push
push-IsValid node message q v = record {
  sorted = ground (
    arith,
    append-IsSorted (filter (λ (i : Item). not (i.node == node)) q.items)
        (record { node = node; message = message; transmits = 0 }) refl
        (filter-IsSorted (λ (i : Item). not (i.node == node)) q.items v.sorted),
  );
  unique = λ other. ground (
    arith,
    v.unique other,
    about-filter node other q.items,
    total-append (is_about other) (filter (λ (i : Item). not (i.node == node)) q.items)
        (record { node = node; message = message; transmits = 0 } ∷ []),
    eq_iff node other,
  );
}

-- After a push the queue holds one message about the node, and as many about any other node as
-- before.
pub about-push :
    (node other : String) (message : List ℕ) (q : BroadcastQueue)
    → about other (push node message q).1.items ≡ (if node == other then 1 else about other q.items)
unfolding push
about-push node other message q = ground (
  arith,
  about-filter node other q.items,
  total-append (is_about other) (filter (λ (i : Item). not (i.node == node)) q.items)
      (record { node = node; message = message; transmits = 0 } ∷ []),
  eq_iff node other,
)

-- Popping, whether it finds an item or not, keeps the queue well-formed: sorted by transmissions,
-- with at most one message for a node.
pub pop-IsValid :
    (max_transmits : ℕ) (q : BroadcastQueue) → IsValid q → IsValid (pop max_transmits q).1
unfolding pop
pop-IsValid m q v = record {
  sorted = sort_items-IsSorted (reverse (pop_newest m (reverse q.items)).1);
  unique = λ node.
      let f = is_about node in
      let left = (pop_newest m (reverse q.items)).1 in
      omega (
        arith,
        v.unique node,
        total-sort_items f (reverse left),
        total-reverse f left,
        total-pop_newest f m (reverse q.items) (λ i n. refl),
        total-reverse f q.items,
      );
}

-- A fetch keeps the queue well-formed: sorted by transmissions, with at most one message for a
-- node.
pub fetch-IsValid :
    (max_transmits : ℕ) (max_bytes : ℤ) (max_messages : ℕ) (q : BroadcastQueue)
    → IsValid q
    → IsValid (fetch max_transmits max_bytes max_messages q).1
unfolding fetch
fetch-IsValid m b n q v =
    let left = (fetch_newest m n b 0 (reverse q.items)).1 in
    record {
      sorted = ground (
        arith,
        sort_items-IsSorted (reverse left),
        fetch_newest-empty m n b 0 (reverse q.items),
        reverse-reverse q.items,
        v.sorted,
      );
      unique = λ node.
          let f = is_about node in
          ground (
            arith,
            v.unique node,
            total-sort_items f (reverse left),
            total-reverse f left,
            total-fetch_newest m n f b 0 (reverse q.items) (λ i k. refl),
            total-reverse f q.items,
          );
    }
