-- ===== src/State/Forgetting.antt =====
-- `forget_node` of tattle/state.py.
use native.Mathlib.Nat.{mod-lt}
use tattle.Prelude.{
  ℕ, ◌+◌, ◌%◌, ◌<◌, String, ◌≡◌, refl, ◌∙◌, inl, inr, none, some, List, [], ◌∷◌, arith, eqb,
  if◌then◌else◌, length, count, eq_iff, Option-cases, Bool-cases,
}
use tattle.Prelude.Dict.{get, remove, contains, get-remove, contains-remove}
use tattle.State.Node.{dead, status_eq, NodeManager, Env}
use tattle.State.Manager.{swap_random_nodes, remove_ref}
use tattle.State.Handlers.{forget_dead, forget_node}
use tattle.State.Shape.{Inv, is_mapped, is_suspect, view, Steady-refl}
use tattle.State.Knowledge.{Knowledge, Learns, Learns-Steady}
use tattle.State.Entering.{count-swap_last}

-- A node that stands in the list is found, and taken out once.
count-remove_ref :
    (r : ℕ) (xs : List ℕ)
    → 0 < count r xs
    → (ys : List ℕ) × (remove_ref r xs ≡ some ys)
      × ((a : ℕ) → count a ys + (if eqb r a then 1 else 0) ≡ count a xs)
unfolding remove_ref
count-remove_ref r [] h = elim h [ ]
count-remove_ref r (x ∷ xs) h = elim (Bool-cases (eqb x r)) [
  | inl e ↦ (xs, ground (arith, e), λ a. ground (arith, e))
  | inr e ↦
      let (ys, found, counts) = count-remove_ref r xs (ground (arith, e)) in
      (x ∷ ys, ground (arith, e, found), λ a. omega (arith, counts a))
]

-- What is left of the knowledge of a node that is to be forgotten: only the dead are.
abbrev pub forgets : Knowledge → Knowledge
forgets none = none
forgets (some (dead, j)) = none
forgets (some (st, j)) = some (st, j)

module _ {F : Type 0} where
  -- The swap at the end of `forget_node` changes the order of the list at most.
  swap_random_nodes-Learns :
      (random : ℕ) (name : String) (k : Knowledge) (s t : NodeManager F)
      → Learns name k s t
      → Learns name k s (swap_random_nodes random t).1
  unfolding swap_random_nodes
  swap_random_nodes-Learns random name k s t l = elim (Bool-cases (eqb (length t.nodes) 0)) [
    | inl h ↦ rw h l
    | inr h ↦ rw h (record {
      inv = record {
        listed = λ r.
            count-swap_last r (random % length t.nodes) t.nodes (mod-lt random (ground (arith, h)))
            ∙ l.inv.listed r;
        named = l.inv.named;
        suspected = l.inv.suspected;
        queued = l.inv.queued;
      };
      views = l.views;
      local_node_name = l.local_node_name;
      leaving = l.leaving;
    })
  ]

  module _ (name : String) (r : ℕ) (rest : List ℕ) (s : NodeManager F) (v : Inv s)
      (m : get s.nodes_map name ≡ some r)
      (counts : (a : ℕ) → count a rest + (if eqb r a then 1 else 0) ≡ count a s.nodes) where
    abbrev forgotten : NodeManager F
    forgotten = record s {
      nodes = rest;
      nodes_map = remove s.nodes_map name;
      suspect_nodes =
          if contains s.suspect_nodes name then remove s.suspect_nodes name else s.suspect_nodes;
    }

    listed-forgotten : (a : ℕ) → count a rest ≡ is_mapped forgotten a
    listed-forgotten a = ground (
      arith,
      counts a,
      v.listed a,
      v.named name r m,
      m,
      get-remove s.nodes_map name (s.heap a).name,
      eq_iff name (s.heap a).name,
    )

    suspected-forgotten : (n : String) → contains forgotten.suspect_nodes n ≡ is_suspect forgotten n
    suspected-forgotten n = ground (
      arith,
      v.suspected n,
      contains-remove s.suspect_nodes name n,
      get-remove s.nodes_map name n,
      eq_iff name n,
    )

    forgotten-Learns : Learns name none s forgotten
    forgotten-Learns = record {
      inv = record {
        listed = listed-forgotten;
        named =
            λ n q h. v.named n q (ground (arith, h, get-remove s.nodes_map name n, eq_iff name n));
        suspected = suspected-forgotten;
        queued = v.queued;
      };
      views = λ n. ground (arith, get-remove s.nodes_map name n, eq_iff name n);
      local_node_name = refl;
      leaving = refl;
    }

  -- In a well-formed state, forgetting a node, whether it returns or raises, removes a dead node
  -- and nothing else, and keeps the state well-formed; of a node that is not dead it removes
  -- nothing.
  pub forget_node-Learns :
      (e : Env F) (name : String) (s : NodeManager F)
      → Inv s
      → Learns name (forgets (view s name)) s (forget_node e name s).1
  unfolding forget_node
  forget_node-Learns e name s v = elim (Option-cases (get s.nodes_map name)) [
    | inl h ↦ rw (h, forget_node) (Learns-Steady name _ s s v (Steady-refl s) (ground (arith, h)))
    | inr (r, h) ↦ elim (Bool-cases (status_eq (s.heap r).status dead)) [
      | inr k ↦
          rw (h, forget_node, k) (Learns-Steady name _ s s v (Steady-refl s) (ground (arith, h, k)))
      | inl k ↦
          let (rest, found, counts) =
            count-remove_ref r s.nodes (ground (arith, v.listed r, v.named name r h, h)) in
          let gone : forgets (view s name) ≡ none = ground (arith, h, k) in
          rw (h, forget_node, k, gone, found, forget_dead)
            (swap_random_nodes-Learns e.random name none s _
              (forgotten-Learns name r rest s v h counts))
    ]
  ]
