-- ===== src/Queue/Sorted.antt =====
-- The sort of tattle/queue.py: what it keeps, and the order that it leaves.
use mathlib.Core.List.{reverse-cons}
use tattle.Prelude.{
  ℕ, ◌+◌, ◌≤◌, ◌≡◌, refl, ap, List, [], ◌∷◌, ◌++◌, reverse, arith, eqb, All, All-append, All-filter,
  filter, Bool,
}
use tattle.Queue.Items.{Item, insert_item, sort_items, IsSorted}

-- The sum of a measure over the items.
abbrev pub total : (Item → ℕ) → List Item → ℕ
total f [] = 0
total f (x ∷ xs) = f x + total f xs

pub total-append : (f : Item → ℕ) (xs ys : List Item) → total f (xs ++ ys) ≡ total f xs + total f ys
total-append f [] ys = omega arith
total-append f (x ∷ xs) ys = omega (arith, total-append f xs ys)

pub total-reverse : (f : Item → ℕ) (xs : List Item) → total f (reverse xs) ≡ total f xs
total-reverse f [] = refl
total-reverse f (x ∷ xs) = omega (
  arith,
  ap (total f) (reverse-cons x xs),
  total-append f (reverse xs) (x ∷ []),
  total-reverse f xs,
)

total-insert_item :
    (f : Item → ℕ) (x : Item) (xs : List Item) → total f (insert_item x xs) ≡ f x + total f xs
unfolding insert_item
total-insert_item f x [] = refl
total-insert_item f x (y ∷ ys) = ground (arith, total-insert_item f x ys)

pub total-sort_items : (f : Item → ℕ) (xs : List Item) → total f (sort_items xs) ≡ total f xs
unfolding sort_items
total-sort_items f [] = refl
total-sort_items f (x ∷ xs) =
    omega (arith, total-insert_item f x (sort_items xs), total-sort_items f xs)

module _ (P : Item → Type 0) where
  All-insert_item : (x : Item) (xs : List Item) → P x → All P xs → All P (insert_item x xs)
  unfolding insert_item
  All-insert_item x [] p h = (p, tt)
  All-insert_item x (y ∷ ys) p h = ground (arith, All-insert_item x ys p h.1)

  pub All-sort_items : (xs : List Item) → All P xs → All P (sort_items xs)
  unfolding sort_items
  All-sort_items [] h = tt
  All-sort_items (x ∷ xs) h = All-insert_item x (sort_items xs) h.0 (All-sort_items xs h.1)

abbrev AtMost : ℕ → Item → Type 0
AtMost n i = i.transmits ≤ n

AtMost-mono : {m n : ℕ} (xs : List Item) → m ≤ n → All (AtMost m) xs → All (AtMost n) xs
AtMost-mono [] h p = tt
AtMost-mono {m} {n} (x ∷ xs) h p = (omega arith, AtMost-mono xs h p.1)

insert_item-IsSorted : (x : Item) (xs : List Item) → IsSorted xs → IsSorted (insert_item x xs)
unfolding insert_item
insert_item-IsSorted x [] h = (tt, tt)
insert_item-IsSorted x (y ∷ ys) h = ground (
  arith,
  insert_item-IsSorted x ys h.1,
  All-insert_item (AtMost y.transmits) x ys,
  AtMost-mono {m = y.transmits} {n = x.transmits} ys,
)

pub sort_items-IsSorted : (xs : List Item) → IsSorted (sort_items xs)
unfolding sort_items
sort_items-IsSorted [] = tt
sort_items-IsSorted (x ∷ xs) = insert_item-IsSorted x (sort_items xs) (sort_items-IsSorted xs)

-- The items that were sent `t` times.
abbrev pub sent : ℕ → List Item → List Item
sent t = filter (λ (i : Item). eqb i.transmits t)

sent-insert_item : (t : ℕ) (x : Item) (xs : List Item) → sent t (insert_item x xs) ≡ sent t (x ∷ xs)
unfolding insert_item
sent-insert_item t x [] = refl
sent-insert_item t x (y ∷ ys) = ground (arith, sent-insert_item t x ys)

sent-sort_items : (t : ℕ) (xs : List Item) → sent t (sort_items xs) ≡ sent t xs
unfolding sort_items
sent-sort_items t [] = refl
sent-sort_items t (x ∷ xs) =
    ground (arith, sent-insert_item t x (sort_items xs), sent-sort_items t xs)

-- The sort leaves the items sent most in front, and among the items that were sent equally often it
-- keeps the order, none lost and none added.
pub sort_items-stable :
    (xs : List Item) → IsSorted (sort_items xs) × ((t : ℕ) → sent t (sort_items xs) ≡ sent t xs)
sort_items-stable xs = (sort_items-IsSorted xs, λ t. sent-sort_items t xs)

pub filter-IsSorted :
    (keep : Item → Bool) (xs : List Item) → IsSorted xs → IsSorted (filter keep xs)
filter-IsSorted keep [] h = tt
filter-IsSorted keep (x ∷ xs) h =
    ground (arith, filter-IsSorted keep xs h.1, All-filter (AtMost x.transmits) keep xs h.0)

-- A new item may stand last: it was never sent.
pub append-IsSorted :
    (xs : List Item) (y : Item) → y.transmits ≡ 0 → IsSorted xs → IsSorted (xs ++ y ∷ [])
append-IsSorted [] y e h = (tt, tt)
append-IsSorted (x ∷ xs) y e h =
    (All-append (AtMost x.transmits) xs (y ∷ []) h.0 (omega arith, tt), append-IsSorted xs y e h.1)
