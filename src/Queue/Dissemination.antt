-- ===== src/Queue/Dissemination.antt =====
-- How often tattle/queue.py hands a message out, and that it comes to an end.
use tattle.Prelude.{
  ℕ, zero, suc, ◌+◌, ◌*◌, ◌≤◌, ◌<◌, ◌≡◌, refl, ap, List, [], ◌∷◌, ◌++◌, map, reverse, arith, length,
  length-append, length-reverse, take, All, All-reverse, Bool-cases, inl, inr, ltb,
}
use tattle.Prelude.Int.{ℤ, pos, pos_part, ◌-ℤ◌}
use tattle.Queue.Items.{Item, sort_items}
use tattle.Queue.Fetching.{fetch_newest}
use tattle.Queue.Sorted.{total-reverse, total-sort_items, All-sort_items}
use tattle.Queue.Budget.{
  bytes, remaining, credit, Below, bytes-fetch_newest, length-fetch_newest, fetch_newest-take,
  credit-fetch_newest,
}
use tattle.Queue.{BroadcastQueue, fetch}

-- A fetch leaves the rest of its loop, sorted or as it stands.
fetch_cases :
    (P : List (List ℕ) → List Item → Type 0) (m : ℕ) (b : ℤ) (n : ℕ) (q : BroadcastQueue)
    → P
        (fetch_newest m n b 0 (reverse q.items)).0
        (sort_items (reverse (fetch_newest m n b 0 (reverse q.items)).1))
    → P
        (fetch_newest m n b 0 (reverse q.items)).0
        (reverse (fetch_newest m n b 0 (reverse q.items)).1)
    → P (fetch m b n q).0 (fetch m b n q).1.items
unfolding fetch
fetch_cases P m b n q sorted plain =
    elim (Bool-cases (ltb 0 (length (fetch_newest m n b 0 (reverse q.items)).0))) [
      | inl e ↦ rw e sorted
      | inr e ↦ rw e plain
    ]

module _ (max_transmits : ℕ) (max_bytes : ℤ) (max_messages : ℕ) (q : BroadcastQueue) where
  -- The messages of a fetch are those of the newest items, newest first, and together they have at
  -- most `max_bytes` bytes.
  pub fetch_newest_first :
      let messages = (fetch max_transmits max_bytes max_messages q).0 in
      (messages ≡ map (λ (i : Item). i.message) (take (length messages) (reverse q.items)))
      × (bytes messages ≤ pos_part max_bytes)
  unfolding fetch
  fetch_newest_first = (
    fetch_newest-take max_transmits max_messages max_bytes 0 (reverse q.items),
    bytes-fetch_newest max_transmits max_messages max_bytes 0 (reverse q.items),
  )

  -- A fetch with a positive `max_messages` returns at most one message more than that.
  pub length-fetch :
      0 < max_messages → length (fetch max_transmits max_bytes max_messages q).0 ≤ max_messages + 1
  unfolding fetch
  length-fetch p = omega (
    arith,
    length-fetch_newest max_transmits max_messages max_bytes 0 (reverse q.items) p (omega arith),
  )

  -- Where no item has been sent `max_transmits` times, a fetch spends one transmission for each
  -- message that it returns, and leaves no item that has been sent `max_transmits` times.
  pub credit-fetch :
      Below max_transmits q.items
      → (credit max_transmits (fetch max_transmits max_bytes max_messages q).1.items
            + length (fetch max_transmits max_bytes max_messages q).0
          ≡ credit max_transmits q.items)
        × Below max_transmits (fetch max_transmits max_bytes max_messages q).1.items
  credit-fetch h =
      let (messages, left) =
        fetch_newest max_transmits max_messages max_bytes 0 (reverse q.items) in
      let f = remaining max_transmits in
      let P = λ (i : Item). i.transmits < max_transmits in
      let (spent, below) =
        credit-fetch_newest max_transmits max_messages max_bytes 0 (reverse q.items)
          (All-reverse P q.items h) in
      let below' = All-reverse P left below in
      fetch_cases
        (λ ms xs.
          (credit max_transmits xs + length ms ≡ credit max_transmits q.items)
          × Below max_transmits xs)
        max_transmits max_bytes max_messages q
        (
          omega (
            arith,
            spent,
            total-reverse f q.items,
            total-reverse f left,
            total-sort_items f (reverse left),
          ),
          All-sort_items P (reverse left) below',
        )
        (omega (arith, spent, total-reverse f q.items, total-reverse f left), below')

-- Fetches one after another, each within its own budget of bytes.
unfoldable pub fetches : ℕ → List ℤ → BroadcastQueue → List (List ℕ) × BroadcastQueue
fetches max_transmits [] q = ([], q)
fetches max_transmits (b ∷ bs) q =
    let (messages, q') = fetch max_transmits b 0 q in
    let (more, q'') = fetches max_transmits bs q' in (messages ++ more, q'')

-- Whatever the budgets of the fetches, they send at most `max_transmits` messages for each item.
pub length-fetches :
    (max_transmits : ℕ) (budgets : List ℤ) (q : BroadcastQueue)
    → Below max_transmits q.items
    → length (fetches max_transmits budgets q).0 ≤ max_transmits * length q.items
unfolding fetches
length-fetches m budgets q h = omega (arith, spent budgets q h, credit-le q.items)
  where
    credit-le : (xs : List Item) → credit m xs ≤ m * length xs
    credit-le [] = omega arith
    credit-le (x ∷ xs) = omega (arith, credit-le xs)

    spent :
        (budgets : List ℤ) (q : BroadcastQueue)
        → Below m q.items
        → length (fetches m budgets q).0 ≤ credit m q.items
    spent [] q h = omega arith
    spent (b ∷ bs) q h =
        let (messages, q') = fetch m b 0 q in
        let (now, below) = credit-fetch m b 0 q h in
        omega (arith, now, spent bs q' below, length-append messages (fetches m bs q').0)

-- The queue after `n` fetches with the same budget.
unfoldable pub drain : ℕ → ℕ → ℕ → BroadcastQueue → BroadcastQueue
drain zero max_transmits max_bytes q = q
drain (suc n) max_transmits max_bytes q =
    drain n max_transmits max_bytes (fetch max_transmits (pos max_bytes) 0 q).1

-- The message of each item has at most `max_bytes` bytes.
abbrev pub Fits : ℕ → List Item → Type 0
Fits max_bytes = All (λ (i : Item). length i.message ≤ max_bytes)

Fits-fetch_newest :
    (max_transmits max_bytes : ℕ) (budget : ℤ) (fetched : ℕ) (xs : List Item)
    → Fits max_bytes xs
    → Fits max_bytes (fetch_newest max_transmits 0 budget fetched xs).1
unfolding fetch_newest
Fits-fetch_newest m b budget fetched [] h = tt
Fits-fetch_newest m b budget fetched (i ∷ rest) h =
    ground (arith, Fits-fetch_newest m b (budget -ℤ pos (length i.message)) (fetched + 1) rest h.1)

fetch_newest_progress :
    (max_transmits max_bytes : ℕ) (xs : List Item)
    → Fits max_bytes xs
    → 0 < length xs
    → 0 < length (fetch_newest max_transmits 0 (pos max_bytes) 0 xs).0
unfolding fetch_newest
fetch_newest_progress m b [] h p = elim p [ ]
fetch_newest_progress m b (i ∷ rest) h p = ground arith

Fits-fetch :
    (max_transmits max_bytes : ℕ) (q : BroadcastQueue)
    → Fits max_bytes q.items
    → Fits max_bytes (fetch max_transmits (pos max_bytes) 0 q).1.items
Fits-fetch m b q h =
    let P = λ (i : Item). length i.message ≤ b in
    let left = (fetch_newest m 0 (pos b) 0 (reverse q.items)).1 in
    let kept =
      All-reverse P left
        (Fits-fetch_newest m b (pos b) 0 (reverse q.items) (All-reverse P q.items h)) in
    fetch_cases (λ ms xs. Fits b xs) m (pos b) 0 q (All-sort_items P (reverse left) kept) kept

fetch_progress :
    (max_transmits max_bytes : ℕ) (q : BroadcastQueue)
    → Fits max_bytes q.items
    → 0 < length q.items
    → 0 < length (fetch max_transmits (pos max_bytes) 0 q).0
unfolding fetch
fetch_progress m b q h p =
    fetch_newest_progress m b (reverse q.items)
      (All-reverse (λ (i : Item). length i.message ≤ b) q.items h)
      (omega (arith, length-reverse q.items))

nothing_left : (m : ℕ) (xs : List Item) → Below m xs → credit m xs ≡ 0 → xs ≡ []
nothing_left m [] h e = refl
nothing_left m (x ∷ xs) h e = absurd (omega arith)

-- If each queued message fits the budget and none has been sent `max_transmits` times, then as many
-- fetches as there are transmissions left, or more, empty the queue.
pub drain_empties :
    (n max_transmits max_bytes : ℕ) (q : BroadcastQueue)
    → Below max_transmits q.items
    → Fits max_bytes q.items
    → credit max_transmits q.items ≤ n
    → (drain n max_transmits max_bytes q).items ≡ []
unfolding drain
drain_empties zero m b q below fits c = nothing_left m q.items below (omega arith)
drain_empties (suc n) m b q below fits c =
    let q' = (fetch m (pos b) 0 q).1 in
    let (spent, below') = credit-fetch m (pos b) 0 q below in
    drain_empties n m b q' below' (Fits-fetch m b q fits) (enough q.items refl)
  where
    enough : (xs : List Item) → q.items ≡ xs → credit m (fetch m (pos b) 0 q).1.items ≤ n
    enough [] e = omega (arith, (credit-fetch m (pos b) 0 q below).0, ap (credit m) e)
    enough (x ∷ xs) e = omega (
      arith,
      (credit-fetch m (pos b) 0 q below).0,
      fetch_progress m b q fits (rw e (omega arith)),
    )
