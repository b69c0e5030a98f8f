-- ===== src/Queue/Fetching.antt =====
-- The loops of `_pop_item` and `fetch` in tattle/queue.py. Both walk from the newest item, the last
-- of the queue: here they are given the queue reversed, and return what is left of it reversed.
use tattle.Prelude.{
  ℕ, ◌+◌, ◌&&◌, Bool, true, Option, none, some, List, [], ◌∷◌, ltb, leb, if◌then◌else◌, length,
}
use tattle.Prelude.Int
use tattle.Prelude.Int.{ℤ, pos, ◌-ℤ◌}
use tattle.Queue.Items.{Item}

unfoldable pub transmitted : Item → Item
transmitted i = record i { transmits = i.transmits + 1 }

-- `while True: item = self._next_item() …`
unfoldable pub pop_newest : ℕ → List Item → Option Item × List Item
unfolding transmitted
pop_newest max_transmits [] = (none, [])
pop_newest max_transmits (i ∷ rest) =
    let dropped = pop_newest max_transmits rest in
    if ltb i.transmits max_transmits then (some (transmitted i), transmitted i ∷ rest) else dropped

-- The two tests that leave the loop of `fetch`.
unfoldable pub fetch_stops : ℕ → ℤ → ℕ → Item → Bool
fetch_stops max_messages remaining fetched i =
    if ltb 0 max_messages && ltb max_messages fetched
    then true
    else Int.ltb remaining (pos (length i.message))

-- `for i in reversed(range(len(self._queue))) …`, with the number of messages so far.
unfoldable pub fetch_newest : ℕ → ℕ → ℤ → ℕ → List Item → List (List ℕ) × List Item
unfolding transmitted fetch_stops
fetch_newest max_transmits max_messages remaining fetched [] = ([], [])
fetch_newest max_transmits max_messages remaining fetched (i ∷ rest) =
    let (messages, left) =
      fetch_newest max_transmits max_messages (remaining -ℤ pos (length i.message)) (fetched + 1)
        rest in
    if fetch_stops max_messages remaining fetched i then ([], i ∷ rest) else (
      i.message ∷ messages,
      if leb max_transmits (i.transmits + 1) then left else transmitted i ∷ left,
    )
