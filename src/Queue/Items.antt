-- ===== src/Queue/Items.antt =====
-- The items of tattle/queue.py and `list.sort(key=transmits, reverse=True)` on them: stable, and
-- those that were sent most come first.
use tattle.Prelude.{ℕ, ◌≤◌, String, List, [], ◌∷◌, ltb, if◌then◌else◌, All}

-- `_BroadcastQueueItem`
pub record Item : Type 0 where
  pub node : String
  pub message : List ℕ
  pub transmits : ℕ

unfoldable pub insert_item : Item → List Item → List Item
insert_item x [] = x ∷ []
insert_item x (y ∷ ys) = if ltb x.transmits y.transmits then y ∷ insert_item x ys else x ∷ y ∷ ys

unfoldable pub sort_items : List Item → List Item
unfolding insert_item
sort_items [] = []
sort_items (x ∷ xs) = insert_item x (sort_items xs)

-- No item stands behind one that was sent less often.
abbrev pub IsSorted : List Item → Type 0
IsSorted [] = Unit
IsSorted (x ∷ xs) = All (λ (y : Item). y.transmits ≤ x.transmits) xs × IsSorted xs
