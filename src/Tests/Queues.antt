-- ===== src/Tests/Queues.antt =====
-- tests/test_queue.py on the model of tattle/queue.py, and its theorems at a queue of two items.
use tattle.Prelude.{◌≡◌, refl, [], ◌∷◌, arith, length, some, eq_iff}
use tattle.Prelude.Int.{pos}
use tattle.Queue.{BroadcastQueue, push, pop, fetch}
use tattle.Queue.Items.{Item, sort_items}
use tattle.Queue.Fetching.{fetch_newest, pop_newest}
use tattle.Queue.Invariant.{IsValid}
use tattle.Queue.Dissemination.{drain, drain_empties}

abbrev older : Item
older = record { node = "node1"; message = 1 ∷ 2 ∷ 3 ∷ []; transmits = 1 }

abbrev newer : Item
newer = record { node = "node2"; message = 4 ∷ 5 ∷ []; transmits = 0 }

abbrev two : BroadcastQueue
two = record { max_size = 0; items = older ∷ newer ∷ [] }

two-IsValid : IsValid two
two-IsValid = record {
  sorted = omega arith;
  unique = λ node. ground (arith, eq_iff "node1" node, eq_iff "node2" node, eq_iff "node1" "node2");
}

-- Both fit, the newest first; the older one has then been sent twice and is dropped.
fetch-two : fetch 2 (pos 5) 0 two ≡ (
  (4 ∷ 5 ∷ []) ∷ (1 ∷ 2 ∷ 3 ∷ []) ∷ [],
  record two { items = record newer { transmits = 1 } ∷ [] },
)
unfolding fetch fetch_newest sort_items
fetch-two = refl

-- A limit of one message lets two pass.
fetch_limit : length (fetch 2 (pos 5) 1 two).0 ≡ 2
unfolding fetch fetch_newest
fetch_limit = refl

pop-two : (pop 1 two).0 ≡ some (4 ∷ 5 ∷ [])
unfolding pop pop_newest sort_items
pop-two = refl

push-two :
    (push "node1" (9 ∷ []) two).1.items
    ≡ newer ∷ record { node = "node1"; message = 9 ∷ []; transmits = 0 } ∷ []
unfolding push
push-two = refl

drain_empties_example : (drain 3 2 4 two).items ≡ []
drain_empties_example = drain_empties 3 2 4 two (omega arith) (omega arith) (omega arith)
