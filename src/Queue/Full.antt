-- ===== src/Queue/Full.antt =====
-- `fetch` of tattle/queue.py stops only where the next message does not fit.
use tattle.Prelude.{ℕ, ◌+◌, ◌≡◌, true, List, [], ◌∷◌, length, drop, reverse, Bool-cases, inl, inr}
use tattle.Prelude.Int
use tattle.Prelude.Int.{ℤ, pos, ◌-ℤ◌}
use tattle.Queue.Items.{Item}
use tattle.Queue.Fetching.{fetch_newest, fetch_stops}
use tattle.Queue.{BroadcastQueue, fetch}

-- What the messages leave of the bytes
abbrev pub spend : ℤ → List (List ℕ) → ℤ
spend room [] = room
spend room (message ∷ messages) = spend (room -ℤ pos (length message)) messages

-- The first item, if there is one, has a message that does not fit.
abbrev pub NoRoom : ℤ → List Item → Type 0
NoRoom room [] = Unit
NoRoom room (i ∷ rest) = Int.ltb room (pos (length i.message)) ≡ true

fetch_newest-NoRoom :
    (max_transmits : ℕ) (room : ℤ) (n : ℕ) (items : List Item)
    → let messages = (fetch_newest max_transmits 0 room n items).0 in
      NoRoom (spend room messages) (drop (length messages) items)
unfolding fetch_newest fetch_stops
fetch_newest-NoRoom max_transmits room n [] = tt
fetch_newest-NoRoom max_transmits room n (i ∷ rest) =
    elim (Bool-cases (Int.ltb room (pos (length i.message)))) [
      | inl h ↦ rw (fetch_newest, fetch_stops, h) h
      | inr h ↦
          rw (fetch_newest, fetch_stops, h)
            (fetch_newest-NoRoom max_transmits (room -ℤ pos (length i.message)) (n + 1) rest)
    ]

-- Without a limit on their number, behind the messages of a fetch the next newest does not fit.
pub fetch-NoRoom :
    (max_transmits : ℕ) (room : ℤ) (q : BroadcastQueue)
    → let messages = (fetch max_transmits room 0 q).0 in
      NoRoom (spend room messages) (drop (length messages) (reverse q.items))
unfolding fetch
fetch-NoRoom max_transmits room q = fetch_newest-NoRoom max_transmits room 0 (reverse q.items)
