-- ===== src/Cluster/Choosing/Requests.antt =====
-- The ping requests of `_probe_node_indirect` in tattle/cluster.py.
use tattle.Prelude.{
  ℕ, ◌≤◌, ◌≡◌, refl, ap, ◌∙◌, String, true, Option, List, [], ◌∷◌, ◌++◌, arith, length,
  length-append, count, All, All-append, inl, inr, ◌<◌,
}
use mathlib.Core.List.{append_assoc}
use tattle.Exec.{ok, modify, raised, continue, Result}
use tattle.Exec.Does.{Result-cases}
use tattle.Sequence.{increment}
use tattle.Messages.{Bytes, Message}
use tattle.State.Node.{NodeManager}
use tattle.Cluster.Probing.{select_random_nodes, select_random_nodes-IsSelection}
use tattle.Cluster.Handling.{
  Cluster, ClusterEnv, wait_for_probe, probe_node_indirect_via, send_udp_message,
}
use tattle.Cluster.Choosing.{may_probe, probe_each, probe_node_indirect}

-- The same nodes, and the datagrams that were sent meanwhile: at most so many, each with the property
pub record Sends {F : Type 0} (k : ℕ) (P : Option String × ℕ × Bytes → Type 0) (s t : Cluster F)
    : Type 0 where
  pub heap : t.manager.heap ≡ s.manager.heap
  pub datagrams : List (Option String × ℕ × Bytes)
  pub sent : t.sent ≡ s.sent ++ datagrams
  pub few : length datagrams ≤ k
  pub each : All P datagrams

-- The address of a node
abbrev pub GoesTo : {F : Type 0} → NodeManager F → ℕ → Option String × ℕ × Bytes → Type 0
GoesTo s r (host, port, raw) = (host ≡ (s.heap r).host) × (port ≡ (s.heap r).port)

append-[] : {A : Type 0} → (xs : List A) → xs ≡ xs ++ []
append-[] [] = refl
append-[] (x ∷ xs) = ap (λ ys. x ∷ ys) (append-[] xs)

module _ {F : Type 0} (e : ClusterEnv F) where
  send_udp_message-Sends :
      (r : ℕ) (message : Message) (s : Cluster F)
      → Sends 1
          (GoesTo s.manager r)
          s
          (send_udp_message e (s.manager.heap r).host (s.manager.heap r).port message s).1
  unfolding send_udp_message
  send_udp_message-Sends r message s = elim (Result-cases (e.env.encode message)) [
    | inl (x, h) ↦
        rw (send_udp_message, h)
          (record {
            heap = refl;
            datagrams = [];
            sent = append-[] s.sent;
            few = omega arith;
            each = tt;
          })
    | inr (buf, h) ↦
        rw (send_udp_message, h)
          (record {
            heap = refl;
            datagrams = _;
            sent = refl;
            few = omega arith;
            each = ((refl, refl), tt);
          })
  ]

  after_wait :
      (n : ℕ) (P : Option String × ℕ × Bytes → Type 0) (s t : Cluster F) (result : Result Unit)
      → Sends 1 P s t
      → Sends 1 P s (continue result (λ u. modify (wait_for_probe n)) t).1
  unfolding wait_for_probe
  after_wait n P s t (raised x) v = v
  after_wait n P s t (ok u) v = record {
    heap = v.heap;
    datagrams = v.datagrams;
    sent = v.sent;
    few = v.few;
    each = v.each;
  }

  probe_node_indirect_via-Sends :
      (target r : ℕ) (s : Cluster F)
      → Sends 1 (GoesTo s.manager r) s (probe_node_indirect_via e target r s).1
  unfolding probe_node_indirect_via
  probe_node_indirect_via-Sends target r s =
      let u = record s { probe_seq = (increment s.probe_seq).1 } in
      let v = send_udp_message-Sends r _ u in
      after_wait _ _ s _ _ (record {
        heap = v.heap;
        datagrams = v.datagrams;
        sent = v.sent;
        few = v.few;
        each = v.each;
      })

  -- The property of a request, with the node that it goes to
  abbrev IsRequest : (ℕ → Type 0) → NodeManager F → Option String × ℕ × Bytes → Type 0
  IsRequest Q s datagram = (r : ℕ) × Q r × GoesTo s r datagram

  All-map :
      {P Q : Option String × ℕ × Bytes → Type 0} (ds : List (Option String × ℕ × Bytes))
      → ((d : Option String × ℕ × Bytes) → P d → Q d)
      → All P ds
      → All Q ds
  All-map [] f p = tt
  All-map (d ∷ ds) f p = (f d p.0, All-map ds f p.1)

  GoesTo-same :
      (s t : NodeManager F) (r : ℕ) (d : Option String × ℕ × Bytes)
      → t.heap ≡ s.heap
      → GoesTo t r d
      → GoesTo s r d
  GoesTo-same s t r d h (a, b) =
      (a ∙ ap (λ heap. (heap r).host) h, b ∙ ap (λ heap. (heap r).port) h)

  probe_each-Sends :
      (Q : ℕ → Type 0) (target : ℕ) (rs : List ℕ) (s : Cluster F)
      → All Q rs
      → Sends (length rs) (IsRequest Q s.manager) s (probe_each e target rs s)
  unfolding probe_each
  probe_each-Sends Q target [] s q = record {
    heap = refl;
    datagrams = [];
    sent = append-[] s.sent;
    few = omega arith;
    each = tt;
  }
  probe_each-Sends Q target (r ∷ rs) s q =
      let t = (probe_node_indirect_via e target r s).1 in
      let v = probe_node_indirect_via-Sends target r s in
      let w = probe_each-Sends Q target rs t q.1 in
      record {
        heap = w.heap ∙ v.heap;
        datagrams = v.datagrams ++ w.datagrams;
        sent =
            w.sent
            ∙ ap (λ ds. ds ++ w.datagrams) v.sent
            ∙ append_assoc s.sent v.datagrams w.datagrams;
        few = omega (arith, v.few, w.few, length-append v.datagrams w.datagrams);
        each =
            All-append _ v.datagrams w.datagrams (All-map v.datagrams (λ d g. (r, q.0, g)) v.each) (
              All-map w.datagrams
                (λ d (p, a, g). (p, a, GoesTo-same s.manager t.manager p d v.heap g)) w.each);
      }

-- The indirect probe of a node sends at most `k` datagrams, whatever nodes are drawn. Each goes to the
-- address of a node of the list that is held for alive, and is neither the probed node nor the local one.
pub probe_node_indirect-Sends :
    {F : Type 0} (e : ClusterEnv F) (draw : ℕ → ℕ) (target k : ℕ) (s : Cluster F)
    → Sends k
        (λ d.
          (r : ℕ) × ((may_probe s.manager target e.local_node_name r ≡ true)
            × (0 < count r s.manager.nodes))
          × GoesTo s.manager r d)
        s
        (probe_node_indirect e draw target k s)
unfolding probe_node_indirect
probe_node_indirect-Sends e draw target k s =
    let p = may_probe s.manager target e.local_node_name in
    let chosen = select_random_nodes-IsSelection draw k s.manager.nodes p in
    let v =
      probe_each-Sends e (λ r. (p r ≡ true) × (0 < count r s.manager.nodes)) target
        (select_random_nodes draw k s.manager.nodes p) s chosen.chosen in
    record {
      heap = v.heap;
      datagrams = v.datagrams;
      sent = v.sent;
      few = ground (arith, v.few, chosen.few);
      each = v.each;
    }
