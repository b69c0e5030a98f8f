-- ===== src/State/Entering.antt =====
-- A node that tattle/state.py hears of for the first time, and the swap of two nodes in the list.
use native.Mathlib.Nat.{mod-lt}
use tattle.Prelude.{
  ℕ, suc, ◌-◌, ◌%◌, ◌<◌, String, ◌≡◌, refl, ◌∙◌, inl, inr, Option, none, some, List, [], ◌∷◌, ◌++◌,
  arith, if◌then◌else◌, length, length-append, length-set, get_or, set, count, count-append,
  count-set, get_or-set, ◌==◌, eq_iff, Option-cases,
}
use tattle.Prelude.Dict.{get, put, contains, get-put}
use tattle.Exec.{Result, ok}
use tattle.State.Node.{dead, new_node, NodeManager}
use tattle.State.Manager.{swap_last, swap_random_nodes, write}
use tattle.State.Handlers.{find_or_create}
use tattle.State.Shape.{Inv, is_mapped, is_suspect, view, Steady-refl}
use tattle.State.Knowledge.{entry, Learns, Learns-Steady}

-- The swap keeps how often each node stands in the list.
pub count-swap_last :
    (a i : ℕ) (xs : List ℕ) → i < length xs → count a (swap_last i xs) ≡ count a xs
unfolding swap_last
count-swap_last a i xs h =
    let last = length xs - 1 in
    let x = get_or xs i 0 in
    let y = get_or xs last 0 in
    let once = set xs i y in
    ground (
      arith,
      count-set a xs i 0 y h,
      count-set a once last 0 x (omega (arith, length-set xs i y)),
      get_or-set xs i last y 0 h,
    )

module _ {F : Type 0} where
  -- The state before the swap
  abbrev entered : String → Option String → ℕ → NodeManager F → NodeManager F
  entered name host port s =
      let s' = write s.next (new_node name host port) s in
      record s' {
        next = suc s.next;
        nodes_map = put s.nodes_map name s.next;
        nodes = s.nodes ++ s.next ∷ [];
      }

  swap_random_nodes-ok :
      (random : ℕ) (s : NodeManager F)
      → 0 < length s.nodes
      → swap_random_nodes random s
        ≡ (ok tt, record s { nodes = swap_last (random % length s.nodes) s.nodes })
  unfolding swap_random_nodes
  swap_random_nodes-ok random s h = ground arith

  module _ (name : String) (host : Option String) (port : ℕ) (s : NodeManager F) (v : Inv s)
      (new : get s.nodes_map name ≡ none) where
    abbrev t : NodeManager F
    t = entered name host port s

    listed-entered : (r : ℕ) → count r t.nodes ≡ is_mapped t r
    listed-entered r = elim (Option-cases (get s.nodes_map (s.heap r).name)) [
      | inl h ↦ ground (
        arith,
        h,
        v.listed r,
        count-append r s.nodes (s.next ∷ []),
        get-put s.nodes_map name (t.heap r).name s.next,
        new,
        eq_iff name (s.heap r).name,
        eq_iff name name,
      )
      | inr (q, h) ↦ ground (
        arith,
        h,
        v.listed r,
        v.named (s.heap r).name q h,
        count-append r s.nodes (s.next ∷ []),
        get-put s.nodes_map name (t.heap r).name s.next,
        new,
        eq_iff name (s.heap r).name,
        eq_iff name name,
      )
    ]

    named-entered :
        (n : String) (r : ℕ) → get t.nodes_map n ≡ some r → ((t.heap r).name ≡ n) × (r < t.next)
    named-entered n r h = elim (Option-cases (get s.nodes_map n)) [
      | inl k ↦ ground (arith, k, get-put s.nodes_map name n s.next, eq_iff name n)
      | inr (q, k) ↦
          ground (arith, k, v.named n q k, get-put s.nodes_map name n s.next, eq_iff name n)
    ]

    -- The knowledge of the name is that of a new node.
    view-entered : (n : String) → view t n ≡ (if name == n then some (dead, 0) else view s n)
    view-entered n = elim (Option-cases (get s.nodes_map n)) [
      | inl k ↦ ground (arith, k, get-put s.nodes_map name n s.next, eq_iff name n)
      | inr (q, k) ↦
          ground (arith, k, v.named n q k, get-put s.nodes_map name n s.next, eq_iff name n)
    ]

    suspected-entered : (n : String) → contains t.suspect_nodes n ≡ is_suspect t n
    suspected-entered n = elim (Option-cases (get s.nodes_map n)) [
      | inl k ↦ ground (arith, k, v.suspected n, get-put s.nodes_map name n s.next, eq_iff name n)
      | inr (q, k) ↦ ground (
        arith,
        k,
        new,
        v.suspected n,
        v.named n q k,
        get-put s.nodes_map name n s.next,
        eq_iff name n,
      )
    ]

    -- After the swap
    abbrev u : ℕ → NodeManager F
    u random = record t { nodes = swap_last (random % length t.nodes) t.nodes }

    some_nodes : 0 < length t.nodes
    some_nodes = omega (arith, length-append s.nodes (s.next ∷ []))

    Learns-entered : (random : ℕ) → Learns name (some (dead, 0)) s (u random)
    Learns-entered random = record {
      inv = record {
        listed = λ r.
            count-swap_last r (random % length t.nodes) t.nodes (mod-lt random some_nodes)
            ∙ listed-entered r;
        named = named-entered;
        suspected = suspected-entered;
        queued = v.queued;
      };
      views = view-entered;
      local_node_name = refl;
      leaving = refl;
    }

  -- It returns the node that the map holds under the name.
  pub record Finds (name : String) (s : NodeManager F) (result : Result ℕ × NodeManager F)
      : Type 0 where
    pub ref : ℕ
    pub returns : result.0 ≡ ok ref
    pub mapped : get result.1.nodes_map name ≡ some ref
    pub learns : Learns name (entry (view s name)) s result.1

  pub find_or_create-Finds :
      (random : ℕ) (name : String) (host : Option String) (port : ℕ) (s : NodeManager F)
      → Inv s
      → Finds name s (find_or_create random name host port s)
  unfolding find_or_create
  find_or_create-Finds random name host port s v = cases (get s.nodes_map name) refl
    where
      cases :
          (o : Option ℕ)
          → get s.nodes_map name ≡ o
          → Finds name s (find_or_create random name host port s)
      cases none h =
          let known : entry (view s name) ≡ some (dead, 0) = ground (arith, h) in
          rw
            (
              h,
              find_or_create,
              swap_random_nodes-ok random (entered name host port s)
                  (some_nodes name host port s v h),
            )
            (record {
              ref = s.next;
              returns = refl;
              mapped = ground (arith, get-put s.nodes_map name name s.next, eq_iff name name);
              learns = rw known (Learns-entered name host port s v h random);
            })
      cases (some r) h =
          let known : view s name ≡ entry (view s name) = ground (arith, h) in
          rw (h, find_or_create)
            (record {
              ref = r;
              returns = refl;
              mapped = h;
              learns = Learns-Steady name _ s s v (Steady-refl s) known;
            })
