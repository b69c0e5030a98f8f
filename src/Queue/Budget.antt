-- ===== src/Queue/Budget.antt =====
-- What one `fetch` of tattle/queue.py returns, and what is left after it.
use tattle.Prelude.{ℕ, ◌+◌, ◌-◌, ◌≤◌, ◌<◌, ◌≡◌, refl, List, [], ◌∷◌, map, arith, length, take, All}
use tattle.Prelude.Int.{ℤ, pos, pos_part, ◌-ℤ◌}
use tattle.Queue.Items.{Item}
use tattle.Queue.Sorted.{total}
use tattle.Queue.Fetching.{fetch_newest, pop_newest}

abbrev pub bytes : List (List ℕ) → ℕ
bytes [] = 0
bytes (m ∷ ms) = length m + bytes ms

module _ (max_transmits max_messages : ℕ) where
  pub bytes-fetch_newest :
      (budget : ℤ) (fetched : ℕ) (xs : List Item)
      → bytes (fetch_newest max_transmits max_messages budget fetched xs).0 ≤ pos_part budget
  unfolding fetch_newest
  bytes-fetch_newest budget fetched [] = omega arith
  bytes-fetch_newest budget fetched (i ∷ rest) =
      ground (arith, bytes-fetch_newest (budget -ℤ pos (length i.message)) (fetched + 1) rest)

  pub length-fetch_newest :
      (budget : ℤ) (fetched : ℕ) (xs : List Item)
      → 0 < max_messages
      → fetched ≤ max_messages + 1
      → fetched + length (fetch_newest max_transmits max_messages budget fetched xs).0
        ≤ max_messages + 1
  unfolding fetch_newest
  length-fetch_newest budget fetched [] p h = omega arith
  length-fetch_newest budget fetched (i ∷ rest) p h =
      ground (arith, length-fetch_newest (budget -ℤ pos (length i.message)) (fetched + 1) rest p)

  pub fetch_newest-take :
      (budget : ℤ) (fetched : ℕ) (xs : List Item)
      → let messages = (fetch_newest max_transmits max_messages budget fetched xs).0 in
        messages ≡ map (λ (i : Item). i.message) (take (length messages) xs)
  unfolding fetch_newest
  fetch_newest-take budget fetched [] = refl
  fetch_newest-take budget fetched (i ∷ rest) =
      ground (arith, fetch_newest-take (budget -ℤ pos (length i.message)) (fetched + 1) rest)

  pub fetch_newest-empty :
      (budget : ℤ) (fetched : ℕ) (xs : List Item)
      → (fetch_newest max_transmits max_messages budget fetched xs).0 ≡ []
      → (fetch_newest max_transmits max_messages budget fetched xs).1 ≡ xs
  unfolding fetch_newest
  fetch_newest-empty budget fetched [] e = refl
  fetch_newest-empty budget fetched (i ∷ rest) e = ground arith

  -- A measure that does not read the counter of an item grows in no item.
  pub total-fetch_newest :
      (f : Item → ℕ) (budget : ℤ) (fetched : ℕ) (xs : List Item)
      → ((i : Item) (n : ℕ) → f (record i { transmits = n }) ≡ f i)
      → total f (fetch_newest max_transmits max_messages budget fetched xs).1 ≤ total f xs
  unfolding fetch_newest
  total-fetch_newest f budget fetched [] same = omega arith
  total-fetch_newest f budget fetched (i ∷ rest) same = ground (
    arith,
    same i (i.transmits + 1),
    total-fetch_newest f (budget -ℤ pos (length i.message)) (fetched + 1) rest same,
  )

pub total-pop_newest :
    (f : Item → ℕ) (max_transmits : ℕ) (xs : List Item)
    → ((i : Item) (n : ℕ) → f (record i { transmits = n }) ≡ f i)
    → total f (pop_newest max_transmits xs).1 ≤ total f xs
unfolding pop_newest
total-pop_newest f max_transmits [] same = omega arith
total-pop_newest f max_transmits (i ∷ rest) same =
    ground (arith, same i (i.transmits + 1), total-pop_newest f max_transmits rest same)

-- How many more times an item, and the items together, may be sent.
abbrev pub remaining : ℕ → Item → ℕ
remaining max_transmits i = max_transmits - i.transmits

abbrev pub credit : ℕ → List Item → ℕ
credit max_transmits = total (remaining max_transmits)

abbrev pub Below : ℕ → List Item → Type 0
Below max_transmits = All (λ (i : Item). i.transmits < max_transmits)

module _ (max_transmits max_messages : ℕ) where
  pub credit-fetch_newest :
      (budget : ℤ) (fetched : ℕ) (xs : List Item)
      → Below max_transmits xs
      → let (messages, left) = fetch_newest max_transmits max_messages budget fetched xs in
        (credit max_transmits left + length messages ≡ credit max_transmits xs)
        × Below max_transmits left
  unfolding fetch_newest
  credit-fetch_newest budget fetched [] h = (refl, tt)
  credit-fetch_newest budget fetched (i ∷ rest) h =
      ground (arith, credit-fetch_newest (budget -ℤ pos (length i.message)) (fetched + 1) rest h.1)
