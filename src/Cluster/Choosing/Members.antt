-- ===== src/Cluster/Choosing/Members.antt =====
-- The list of `members` of tattle/cluster.py.
use tattle.Prelude.{ℕ, ◌≡◌, refl, Bool, false, List, [], ◌∷◌, arith, count, Bool-cases, inl, inr}
use tattle.Prelude.Order.{compare_asym}
use Prim.Native.String.{compare}
use text.Mathlib.Text.{is_lt}
use tattle.State.Node.{NodeManager}
use tattle.Cluster.Choosing.{insert_member, sort_members, members}

module _ {F : Type 0} (s : NodeManager F) where
  -- Is the name of the one before that of the other?
  abbrev pub is_before : ℕ → ℕ → Bool
  is_before q r = is_lt (compare (s.heap q).name (s.heap r).name)

  -- The first of the nodes, if any, is not before the given one.
  abbrev pub NotBefore : ℕ → List ℕ → Type 0
  NotBefore r [] = Unit
  NotBefore r (q ∷ rest) = is_before q r ≡ false

  -- Each node of the list is not before the one in front of it.
  abbrev pub IsOrdered : List ℕ → Type 0
  IsOrdered [] = Unit
  IsOrdered (r ∷ rest) = NotBefore r rest × IsOrdered rest

  insert_member-NotBefore :
      (q r : ℕ) (rest : List ℕ)
      → is_before r q ≡ false
      → NotBefore q rest
      → NotBefore q (insert_member s r rest)
  unfolding insert_member
  insert_member-NotBefore q r [] h k = h
  insert_member-NotBefore q r (x ∷ rest) h k = elim (Bool-cases (is_before x r)) [
    | inl a ↦ rw (insert_member, a) k
    | inr a ↦ rw (insert_member, a) h
  ]

  insert_member-IsOrdered : (r : ℕ) (xs : List ℕ) → IsOrdered xs → IsOrdered (insert_member s r xs)
  unfolding insert_member
  insert_member-IsOrdered r [] h = (tt, tt)
  insert_member-IsOrdered r (q ∷ rest) (front, h) = elim (Bool-cases (is_before q r)) [
    | inl a ↦
        let asym = compare_asym (s.heap q).name (s.heap r).name a in
        rw (insert_member, a)
          (insert_member-NotBefore q r rest asym front, insert_member-IsOrdered r rest h)
    | inr a ↦ rw (insert_member, a) (a, (front, h))
  ]

  sort_members-IsOrdered : (xs : List ℕ) → IsOrdered (sort_members s xs)
  unfolding sort_members
  sort_members-IsOrdered [] = tt
  sort_members-IsOrdered (r ∷ rest) =
      insert_member-IsOrdered r (sort_members s rest) (sort_members-IsOrdered rest)

  count-insert_member : (q r : ℕ) (xs : List ℕ) → count q (insert_member s r xs) ≡ count q (r ∷ xs)
  unfolding insert_member
  count-insert_member q r [] = refl
  count-insert_member q r (x ∷ rest) = ground (arith, count-insert_member q r rest)

  count-sort_members : (q : ℕ) (xs : List ℕ) → count q (sort_members s xs) ≡ count q xs
  unfolding sort_members
  count-sort_members q [] = refl
  count-sort_members q (r ∷ rest) =
      ground (arith, count-insert_member q r (sort_members s rest), count-sort_members q rest)

  -- The members are the nodes of the list, as often as they are in it, in the order of their names.
  pub members-IsOrdered : IsOrdered (members s) × ((q : ℕ) → count q (members s) ≡ count q s.nodes)
  unfolding members
  members-IsOrdered = (sort_members-IsOrdered s.nodes, λ q. count-sort_members q s.nodes)
