-- ===== src/Events/Tree.antt =====
-- The tree of listeners in tattle/event.py. A branch is a dictionary: its list of listeners, under the
-- key `__callback__` that no part of an event may have, and the branches below it. Listeners are
-- references, since a listener is an object that the tree shares with the lists of `emit`.
use Prim.Native.Char.{Char, code}
use tattle.Prelude.{
  ℕ, String, Bool, true, false, ◌||◌, Option, none, some, List, [], ◌∷◌, ◌++◌, eqb, ◌==◌,
  if◌then◌else◌,
}

mutual
  pub data Branch : Type 0 where
    branch : List ℕ → Children → Branch

  pub data Children : Type 0 where
    end : Children
    child : String → Branch → Children → Children

abbrev pub new_branch : Branch
new_branch = branch [] end

abbrev pub callbacks : Branch → List ℕ
callbacks (branch ls cs) = ls

-- `event.split(delimiter)`, for a delimiter of one character
abbrev prepend : Char → List String → List String
prepend c [] = (String.◌∷◌ c String.[]) ∷ []
prepend c (p ∷ ps) = (String.◌∷◌ c p) ∷ ps

unfoldable pub split : Char → String → List String
split d String.[] = "" ∷ []
split d (String.◌∷◌ c s) =
    let parts = split d s in if eqb (code c) (code d) then "" ∷ parts else prepend c parts

-- `__find_branch`, without the test of the parts
unfoldable pub child_of : String → Children → Option Branch
child_of p end = none
child_of p (child k b cs) = if k == p then some b else child_of p cs

unfoldable pub find_branch : List String → Branch → Option Branch
unfolding child_of
find_branch [] b = some b
find_branch (p ∷ parts) (branch ls cs) = elim (child_of p cs) [
  | none ↦ none
  | some b ↦ find_branch parts b
]

-- `branch.setdefault(p, new_branch)`, and a change of the branch
unfoldable pub set_default : String → (Branch → Branch) → Children → Children
set_default p change end = child p (change new_branch) end
set_default p change (child k b cs) =
    if k == p then child k (change b) cs else child k b (set_default p change cs)

-- The walk of `on`, and `__add_listener`
unfoldable pub add_listener : List String → ℕ → Branch → Branch
unfolding set_default
add_listener [] l (branch ls cs) = branch (ls ++ l ∷ []) cs
add_listener (p ∷ parts) l (branch ls cs) = branch ls (set_default p (add_listener parts l) cs)

-- A change of the listeners of the branch, if there is such a branch
unfoldable pub change_child : String → (Branch → Branch) → Children → Children
change_child p change end = end
change_child p change (child k b cs) =
    if k == p then child k (change b) cs else child k b (change_child p change cs)

unfoldable pub change_listeners : List String → (List ℕ → List ℕ) → Branch → Branch
unfolding change_child
change_listeners [] change (branch ls cs) = branch (change ls) cs
change_listeners (p ∷ parts) change (branch ls cs) =
    branch ls (change_child p (change_listeners parts change) cs)

module _ (wildcard : Option String) where
  -- Does the key of a branch match the part of an event?
  unfoldable pub part_matches : String → String → Bool
  part_matches k p =
      if k == p then true else (elim wildcard [ none ↦ false | some w ↦ p == w || k == w ])

  -- The branches below that match the part
  unfoldable pub matching_children : String → Children → List Branch
  unfolding part_matches
  matching_children p end = []
  matching_children p (child k b cs) =
      let rest = matching_children p cs in if part_matches k p then b ∷ rest else rest

  unfoldable pub matching_branches : String → List Branch → List Branch
  unfolding matching_children
  matching_branches p [] = []
  matching_branches p (branch ls cs ∷ bs) = matching_children p cs ++ matching_branches p bs

  -- The loop of `emit` over the parts, and the listeners of the branches that it ends with
  unfoldable pub find_branches : List String → List Branch → List Branch
  unfolding matching_branches
  find_branches [] bs = bs
  find_branches (p ∷ parts) bs = find_branches parts (matching_branches p bs)

unfoldable pub all_callbacks : List Branch → List ℕ
all_callbacks [] = []
all_callbacks (b ∷ bs) = callbacks b ++ all_callbacks bs
