-- ===== src/Cluster/Probing.antt =====
-- The choice of nodes: `_do_probe` of tattle/cluster.py and `select_random_nodes` of tattle/state.py.
use native.Mathlib.Nat.{mod-lt}
use tattle.Prelude.{
  ℕ, zero, suc, ◌+◌, ◌*◌, ◌%◌, ◌≤◌, ◌<◌, ◌≡◌, ◌⊎◌, ◌≢◌, Bool, true, false, not, ◌||◌, Option, none,
  some, List, [], ◌∷◌, ◌++◌, arith, ltb, leb, eqb, if◌then◌else◌, length, length-append, get_or,
  count, count-append, All, All-append, Bool-cases, Option-cases, inl, inr,
}
use Prim.Native.Nat.{min}
use tattle.State.Node.{status_eq, dead, NodeManager}
use tattle.State.Manager.{is_local}

-- The loop of `_do_probe`, with the number of nodes that are still to be checked and the index. A turn
-- that only wraps the index around is one with the turn after it: it leaves `checked` as it is.
unfoldable pub probe_loop : List ℕ → (ℕ → Bool) → ℕ → ℕ → Option ℕ × ℕ
probe_loop nodes skip zero index = (none, index)
probe_loop nodes skip (suc remaining) index =
    let i = if leb (length nodes) index then 0 else index in
    let node = get_or nodes i 0 in
    let later = probe_loop nodes skip remaining (i + 1) in
    if skip node then later else (some node, i + 1)

-- The local node and dead nodes are skipped.
unfoldable pub skips : {F : Type 0} → NodeManager F → ℕ → Bool
unfolding is_local
skips s r = is_local s r || status_eq (s.heap r).status dead

-- The node that is probed, if any, and the new index
unfoldable pub do_probe : {F : Type 0} → NodeManager F → ℕ → Option ℕ × ℕ
unfolding probe_loop skips
do_probe s index = probe_loop s.nodes (skips s) (length s.nodes) index

count-get_or : (xs : List ℕ) (i : ℕ) → i < length xs → 0 < count (get_or xs i 0) xs
count-get_or [] i h = elim h [ ]
count-get_or (x ∷ xs) zero h = ground arith
count-get_or (x ∷ xs) (suc i) h = ground (arith, count-get_or xs i)

module _ (nodes : List ℕ) (skip : ℕ → Bool) where
  probe_loop-some :
      (k index r : ℕ)
      → 0 < length nodes
      → (probe_loop nodes skip k index).0 ≡ some r
      → (skip r ≡ false) × (0 < count r nodes)
  unfolding probe_loop
  probe_loop-some zero index r p h = cc
  probe_loop-some (suc k) index r p h =
      let i = if leb (length nodes) index then 0 else index in
      ground (arith, probe_loop-some k (i + 1) r p, count-get_or nodes i)

  -- The positions that the rest of the loop comes to, if it skips all of them
  abbrev InWindow : ℕ → ℕ → ℕ → Type 0
  InWindow start k p = ((start ≤ p) × (p < start + k)) ⊎ (p + length nodes < start + k)

  window_next :
      (i k p : ℕ)
      → i < length nodes
      → p < length nodes
      → p ≢ i
      → InWindow i (suc k) p
      → InWindow (if leb (length nodes) (i + 1) then 0 else i + 1) k p
  window_next i k p h lt ne w = ground arith

  probe_loop-none :
      (k index p : ℕ)
      → k ≤ length nodes
      → (probe_loop nodes skip k index).0 ≡ none
      → p < length nodes
      → InWindow (if leb (length nodes) index then 0 else index) k p
      → skip (get_or nodes p 0) ≡ true
  unfolding probe_loop
  probe_loop-none zero index p le h lt w = absurd (ground arith)
  probe_loop-none (suc k) index p le h lt w =
      let i = if leb (length nodes) index then 0 else index in
      let here : skip (get_or nodes i 0) ≡ true = ground (arith, h) in
      let later : (probe_loop nodes skip k (i + 1)).0 ≡ none = ground (arith, h, here) in
      elim (Bool-cases (eqb p i)) [
        | inl e ↦ let same : p ≡ i = ground (arith, e) in rw same here
        | inr e ↦
            probe_loop-none k (i + 1) p (omega arith) later lt
              (window_next i k p (ground arith) lt (ground (arith, e)) w)
      ]

All-positions :
    (P : ℕ → Type 0) (xs : List ℕ) → ((p : ℕ) → p < length xs → P (get_or xs p 0)) → All P xs
All-positions P [] h = tt
All-positions P (x ∷ xs) h =
    (h 0 (omega arith), All-positions P xs (λ p lt. h (suc p) (omega arith)))

-- A node of the list that is not skipped, or none because all are skipped
abbrev pub IsProbe : List ℕ → (ℕ → Bool) → Option ℕ → Type 0
IsProbe nodes skip none = All (λ r. skip r ≡ true) nodes
IsProbe nodes skip (some r) = (skip r ≡ false) × (0 < count r nodes)

some_nodes :
    (nodes : List ℕ) (skip : ℕ → Bool) (index r : ℕ)
    → (probe_loop nodes skip (length nodes) index).0 ≡ some r
    → 0 < length nodes
unfolding probe_loop
some_nodes [] skip index r h = cc
some_nodes (x ∷ xs) skip index r h = omega arith

-- Whatever the index was, a probe is sent to a node of the list that is neither the local node nor
-- dead, and none is sent only if every node of the list is one of these.
pub do_probe-IsProbe :
    {F : Type 0} → (s : NodeManager F) (index : ℕ) → IsProbe s.nodes (skips s) (do_probe s index).0
unfolding do_probe
do_probe-IsProbe s index =
    let loop = probe_loop s.nodes (skips s) (length s.nodes) index in
    elim (Option-cases loop.0) [
      | inl h ↦ rw h (
          All-positions (λ r. skips s r ≡ true) s.nodes
            (λ p lt.
              probe_loop-none s.nodes (skips s) (length s.nodes) index p (omega arith) h lt
                (ground arith)))
      | inr (r, h) ↦ rw h (
          probe_loop-some s.nodes (skips s) (length s.nodes) index r
            (some_nodes s.nodes (skips s) index r h) h)
    ]

-- `select_random_nodes`: `draw c` is the random index that is drawn in turn `c`. The loop has at most
-- `3 * len(nodes) + 1` turns.
unfoldable pub select_loop : (ℕ → ℕ) → ℕ → List ℕ → (ℕ → Bool) → ℕ → ℕ → List ℕ → List ℕ
select_loop draw k nodes predicate zero c selected = selected
select_loop draw k nodes predicate (suc turns) c selected =
    let node = get_or nodes (draw c % length nodes) 0 in
    let skip = ltb 0 (count node selected) || not (predicate node) in
    let more =
      select_loop draw k nodes predicate turns (c + 1)
        (if skip then selected else selected ++ node ∷ []) in
    if ltb (length selected) k then more else selected

unfoldable pub select_random_nodes : (ℕ → ℕ) → ℕ → List ℕ → (ℕ → Bool) → List ℕ
unfolding select_loop
select_random_nodes draw k nodes predicate =
    select_loop draw (min k (length nodes)) nodes predicate (3 * length nodes + 1) 0 []

-- At most `k` nodes, none of them twice, all from the list and such that the predicate holds
pub record IsSelection (k : ℕ) (nodes : List ℕ) (predicate : ℕ → Bool) (selected : List ℕ)
    : Type 0 where
  pub few : length selected ≤ k
  pub at_most_once : (r : ℕ) → count r selected ≤ 1
  pub chosen : All (λ r. (predicate r ≡ true) × (0 < count r nodes)) selected

module _ (draw : ℕ → ℕ) (k : ℕ) (nodes : List ℕ) (predicate : ℕ → Bool)
    (room : k ≤ length nodes) where
  choose :
      (node : ℕ) (selected : List ℕ)
      → IsSelection k nodes predicate selected
      → length selected < k
      → 0 < count node nodes
      → IsSelection k nodes predicate (
          if ltb 0 (count node selected) || not (predicate node)
          then selected
          else selected ++ node ∷ [])
  choose node selected v less here =
      elim (Bool-cases (ltb 0 (count node selected) || not (predicate node))) [
        | inl e ↦ rw e v
        | inr e ↦ rw e (record {
          few = omega (arith, length-append selected (node ∷ []));
          at_most_once =
              λ r. ground (arith, e, v.at_most_once r, count-append r selected (node ∷ []));
          chosen = All-append _ selected (node ∷ []) v.chosen ((ground (arith, e), here), tt);
        })
      ]

  select_loop-IsSelection :
      (turns c : ℕ) (selected : List ℕ)
      → IsSelection k nodes predicate selected
      → IsSelection k nodes predicate (select_loop draw k nodes predicate turns c selected)
  unfolding select_loop
  select_loop-IsSelection zero c selected v = v
  select_loop-IsSelection (suc turns) c selected v = elim (Bool-cases (ltb (length selected) k)) [
    | inr e ↦ rw (e, select_loop) v
    | inl e ↦
        let less : length selected < k = ground (arith, e) in
        let node = get_or nodes (draw c % length nodes) 0 in
        rw (e, select_loop)
          (select_loop-IsSelection turns (c + 1) _ (
            choose node selected v less
              (count-get_or nodes (draw c % length nodes) (mod-lt (draw c) (omega arith)))))
  ]

-- Whatever is drawn, `select_random_nodes` selects at most `k` nodes and at most as many as the list
-- has, no node twice, and only nodes of the list for which the predicate holds.
pub select_random_nodes-IsSelection :
    (draw : ℕ → ℕ) (k : ℕ) (nodes : List ℕ) (predicate : ℕ → Bool)
    → IsSelection
        (min k (length nodes))
        nodes
        predicate
        (select_random_nodes draw k nodes predicate)
unfolding select_random_nodes
select_random_nodes-IsSelection draw k nodes predicate =
    select_loop-IsSelection draw (min k (length nodes)) nodes predicate (omega arith)
      (3 * length nodes + 1) 0 []
      (record { few = omega arith; at_most_once = λ r. omega arith; chosen = tt })
