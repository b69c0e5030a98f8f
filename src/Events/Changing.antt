-- ===== src/Events/Changing.antt =====
-- What a change of the listeners of one branch makes of those that an event finds, in the tree of
-- tattle/event.py.
use tattle.Prelude.{
  ℕ, ◌+◌, String, ◌≡◌, refl, Bool, false, ◌&&◌, Option, none, some, List, [], ◌∷◌, arith, ◌==◌,
  eq_iff, if◌then◌else◌, count, Bool-cases, inl, inr,
}
use tattle.Events.Tree.{
  Branch, branch, Children, end, child, callbacks, child_of, find_branch, change_child,
  change_listeners, part_matches, matching_children,
}
use tattle.Events.Matching.{part_matches-fits, matches, found, found-here, found-step, found-child}

-- The listeners of the branch that the path leads to
unfoldable pub listeners_at : List String → Branch → List ℕ
listeners_at parts b = elim (find_branch parts b) [ none ↦ [] | some c ↦ callbacks c ]

listeners_at-child :
    (q k : String) (keys : List String) (b : Branch) (cs : Children)
    → k == q ≡ false
    → listeners_at (q ∷ keys) (branch [] (child k b cs)) ≡ listeners_at (q ∷ keys) (branch [] cs)
unfolding listeners_at find_branch child_of
listeners_at-child q k keys b cs e = rw (e, listeners_at, find_branch, child_of) refl

-- How often the listener stands among the listeners, if they match
abbrev pub among : Bool → ℕ → List ℕ → ℕ
among matched l ls = if matched then count l ls else 0

module _ (wildcard : Option String) where
  module _ (l : ℕ) (change : List ℕ → List ℕ) (nothing : change [] ≡ []) where
    change_child-found :
        (q p : String) (keys parts : List String)
        → ((b : Branch)
            → found wildcard l parts (change_listeners keys change b ∷ [])
                + among (matches wildcard keys parts) l (listeners_at keys b)
              ≡ found wildcard l parts (b ∷ [])
                + among (matches wildcard keys parts) l (change (listeners_at keys b)))
        → (cs : Children)
        → found wildcard l parts
              (matching_children wildcard p (change_child q (change_listeners keys change) cs))
            + among
                (part_matches wildcard q p && matches wildcard keys parts)
                l
                (listeners_at (q ∷ keys) (branch [] cs))
          ≡ found wildcard l parts (matching_children wildcard p cs)
            + among
                (part_matches wildcard q p && matches wildcard keys parts)
                l
                (change (listeners_at (q ∷ keys) (branch [] cs)))
    unfolding change_child child_of find_branch listeners_at
    change_child-found q p keys parts ih end = rw nothing (omega arith)
    change_child-found q p keys parts ih (child k b cs) = elim (Bool-cases (k == q)) [
      | inl e ↦
          let same : k ≡ q = (eq_iff k q).0 e in
          rw (e, change_child, child_of)
            (ground (
              arith,
              same,
              ih b,
              found-child wildcard l p k parts b cs,
              found-child wildcard l p k parts (change_listeners keys change b) cs,
            ))
      | inr e ↦ rw (listeners_at-child q k keys b cs e) (
          rw (e, change_child)
            (omega (
              arith,
              change_child-found q p keys parts ih cs,
              found-child wildcard l p k parts b cs,
              found-child wildcard l p k parts b (change_child q (change_listeners keys change) cs),
            )))
    ]

    pub change_listeners-found :
        (keys parts : List String) (b : Branch)
        → found wildcard l parts (change_listeners keys change b ∷ [])
            + among (matches wildcard keys parts) l (listeners_at keys b)
          ≡ found wildcard l parts (b ∷ [])
            + among (matches wildcard keys parts) l (change (listeners_at keys b))
    unfolding change_listeners matches listeners_at find_branch
    change_listeners-found [] [] (branch ls cs) =
        rw (found-here wildcard l (branch ls cs), found-here wildcard l (branch (change ls) cs))
          (omega arith)
    change_listeners-found [] (p ∷ parts) (branch ls cs) =
        rw (found-step wildcard l p parts ls cs, found-step wildcard l p parts (change ls) cs)
          (omega arith)
    change_listeners-found (q ∷ keys) [] (branch ls cs) =
        rw
          (
            found-here wildcard l (branch ls cs),
            found-here wildcard l (branch ls (change_child q (change_listeners keys change) cs)),
          )
          (omega arith)
    change_listeners-found (q ∷ keys) (p ∷ parts) (branch ls cs) =
        rw
          (
            found-step wildcard l p parts ls cs,
            found-step wildcard l p parts ls (change_child q (change_listeners keys change) cs),
            ← part_matches-fits wildcard q p,
          )
          (change_child-found q p keys parts (change_listeners-found keys parts) cs)
