-- ===== src/Events/Matching.antt =====
-- Which listeners of the tree of tattle/event.py an event finds: those whose event matches it part by
-- part.
use mathlib.Core.List.{append_assoc, append-nil}
use tattle.Prelude.{
  ℕ, ◌+◌, String, ◌≡◌, refl, ap, Bool, true, false, ◌&&◌, Option, none, some, List, [], ◌∷◌, ◌++◌,
  arith, eqb, ◌==◌, eq_iff, if◌then◌else◌, count, count-append, Bool-cases, Option-cases, ◌||◌, inl,
  inr,
}
use tattle.Events.Tree.{
  Branch, branch, Children, end, child, new_branch, callbacks, set_default, add_listener,
  part_matches, matching_children, matching_branches, find_branches, all_callbacks,
}

all_callbacks-count_append :
    (l : ℕ) (bs cs : List Branch)
    → count l (all_callbacks (bs ++ cs)) ≡ count l (all_callbacks bs) + count l (all_callbacks cs)
unfolding all_callbacks
all_callbacks-count_append l [] cs = omega arith
all_callbacks-count_append l (b ∷ bs) cs = omega (
  arith,
  all_callbacks-count_append l bs cs,
  count-append l (callbacks b) (all_callbacks (bs ++ cs)),
  count-append l (callbacks b) (all_callbacks bs),
)

-- What a new listener adds
abbrev pub hit : Bool → ℕ → ℕ → ℕ
hit matched id l = if matched then (if eqb id l then 1 else 0) else 0

module _ (wildcard : Option String) where
  unfoldable is_wildcard : String → Bool
  is_wildcard part = elim wildcard [ none ↦ false | some w ↦ part == w ]

  -- A part of a listener's event fits one of an emitted event if one of them is the wildcard, or they are
  -- the same.
  unfoldable pub fits : String → String → Bool
  unfolding is_wildcard
  fits k p = is_wildcard k || (is_wildcard p || k == p)

  pub part_matches-fits : (k p : String) → part_matches wildcard k p ≡ fits k p
  unfolding part_matches fits is_wildcard
  part_matches-fits k p = elim (Option-cases wildcard) [
    | inl e ↦ rw (part_matches, fits, is_wildcard, e) (ground arith)
    | inr (w, e) ↦ rw (part_matches, fits, is_wildcard, e) (ground arith)
  ]

  -- Does the event of a listener match the event that is emitted? Both are given by their parts.
  unfoldable pub matches : List String → List String → Bool
  unfolding fits
  matches [] [] = true
  matches [] (p ∷ parts) = false
  matches (k ∷ keys) [] = false
  matches (k ∷ keys) (p ∷ parts) = fits k p && matches keys parts

  -- How often the event finds the listener below the branches
  abbrev pub found : ℕ → List String → List Branch → ℕ
  found l parts bs = count l (all_callbacks (find_branches wildcard parts bs))

  matching_branches-append :
      (p : String) (bs cs : List Branch)
      → matching_branches wildcard p (bs ++ cs)
        ≡ matching_branches wildcard p bs ++ matching_branches wildcard p cs
  unfolding matching_branches
  matching_branches-append p [] cs = refl
  matching_branches-append p (branch ls ks ∷ bs) cs =
      simp (matching_branches-append p bs cs, append_assoc)

  found-append :
      (l : ℕ) (parts : List String) (bs cs : List Branch)
      → found l parts (bs ++ cs) ≡ found l parts bs + found l parts cs
  unfolding find_branches
  found-append l [] bs cs = all_callbacks-count_append l bs cs
  found-append l (p ∷ parts) bs cs =
      rw (matching_branches-append p bs cs) (found-append l parts _ _)

  found-nil : (l : ℕ) (parts : List String) → found l parts [] ≡ 0
  unfolding find_branches matching_branches all_callbacks
  found-nil l [] = refl
  found-nil l (p ∷ parts) = found-nil l parts

  found-new_branch : (l : ℕ) (parts : List String) → found l parts (new_branch ∷ []) ≡ 0
  unfolding find_branches matching_branches matching_children all_callbacks
  found-new_branch l [] = refl
  found-new_branch l (p ∷ parts) = found-nil l parts

  pub found-step :
      (l : ℕ) (p : String) (parts : List String) (ls : List ℕ) (cs : Children)
      → found l (p ∷ parts) (branch ls cs ∷ []) ≡ found l parts (matching_children wildcard p cs)
  unfolding find_branches matching_branches
  found-step l p parts ls cs = ap (found l parts) (append-nil _)

  pub found-here : (l : ℕ) (b : Branch) → found l [] (b ∷ []) ≡ count l (callbacks b)
  unfolding find_branches all_callbacks
  found-here l b = ap (count l) (append-nil (callbacks b))

  pub found-child :
      (l : ℕ) (p k : String) (parts : List String) (b : Branch) (cs : Children)
      → found l parts (matching_children wildcard p (child k b cs))
        ≡ (if part_matches wildcard k p then found l parts (b ∷ []) else 0)
          + found l parts (matching_children wildcard p cs)
  unfolding matching_children
  found-child l p k parts b cs = elim (Bool-cases (part_matches wildcard k p)) [
    | inl e ↦ rw e (found-append l parts (b ∷ []) (matching_children wildcard p cs))
    | inr e ↦ rw e (omega arith)
  ]

  module _ (id l : ℕ) where
    set_default-found :
        (q p : String) (keys parts : List String)
        → ((b : Branch)
            → found l parts (add_listener keys id b ∷ [])
              ≡ found l parts (b ∷ []) + hit (matches keys parts) id l)
        → (cs : Children)
        → found l parts (matching_children wildcard p (set_default q (add_listener keys id) cs))
          ≡ found l parts (matching_children wildcard p cs)
            + hit (part_matches wildcard q p && matches keys parts) id l
    unfolding set_default matching_children
    set_default-found q p keys parts ih end = elim (Bool-cases (part_matches wildcard q p)) [
      | inl e ↦ rw e (omega (arith, ih new_branch, found-new_branch l parts, found-nil l parts))
      | inr e ↦ rw e (omega arith)
    ]
    set_default-found q p keys parts ih (child k b cs) = elim (Bool-cases (k == q)) [
      | inl e ↦
          let same : k ≡ q = (eq_iff k q).0 e in
          rw (e, set_default)
            (ground (
              arith,
              same,
              ih b,
              found-child l p k parts b cs,
              found-child l p k parts (add_listener keys id b) cs,
            ))
      | inr e ↦
          rw (e, set_default)
            (omega (
              arith,
              set_default-found q p keys parts ih cs,
              found-child l p k parts b cs,
              found-child l p k parts b (set_default q (add_listener keys id) cs),
            ))
    ]

    pub add_listener-found :
        (keys parts : List String) (b : Branch)
        → found l parts (add_listener keys id b ∷ [])
          ≡ found l parts (b ∷ []) + hit (matches keys parts) id l
    unfolding add_listener matches
    add_listener-found [] [] (branch ls cs) =
        rw (found-here l (branch ls cs), found-here l (branch (ls ++ id ∷ []) cs))
          (omega (arith, count-append l ls (id ∷ [])))
    add_listener-found [] (p ∷ parts) (branch ls cs) =
        rw (found-step l p parts ls cs, found-step l p parts (ls ++ id ∷ []) cs) (omega arith)
    add_listener-found (q ∷ keys) [] (branch ls cs) =
        rw
          (
            found-here l (branch ls cs),
            found-here l (branch ls (set_default q (add_listener keys id) cs)),
          )
          (omega arith)
    add_listener-found (q ∷ keys) (p ∷ parts) (branch ls cs) =
        rw
          (
            found-step l p parts ls cs,
            found-step l p parts ls (set_default q (add_listener keys id) cs),
            ← part_matches-fits q p,
          )
          (set_default-found q p keys parts (add_listener-found keys parts) cs)
