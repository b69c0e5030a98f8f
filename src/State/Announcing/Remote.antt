-- ===== src/State/Announcing/Remote.antt =====
-- What a rumor about a remote node makes the handlers of tattle/state.py announce, by what is known of the node.
use mathlib.Core.Path.{subst}
use tattle.Prelude.{
  ℕ, String, ◌≡◌, refl, some, ltb, not, ◌&&◌, Bool, true, false, Bool-cases, inl, inr,
}
use tattle.Prelude.Dict.{get}
use tattle.Exec.{ok}
use tattle.Messages.{Message, Metadata, Bytes}
use tattle.State.Node.{suspect, dead, status_eq, Node, NodeManager, Env}
use tattle.State.Manager.{local_ref, is_local}
use tattle.State.Handlers.{accept_dead, on_node_dead, on_node_suspect}
use tattle.State.Shape.{Inv}
use tattle.State.Announcing.{Announced, rumor_of, accept_dead-Announced, accept_suspect-Announced}

-- Is a rumor with the incarnation news of the node?
abbrev pub is_news : Node → ℕ → Bool
is_news node i = not (status_eq node.status dead) && not (ltb i node.incarnation)

module _ {F : Type 0} (e : Env F) (name : String) (r l i : ℕ) (s : NodeManager F) (v : Inv s)
    (m : get s.nodes_map name ≡ some r) (known : local_ref s ≡ some l)
    (remote : is_local s r ≡ false) (unlimited : s.queue.max_size ≡ 0) where
  -- A death: the event goes with the message.
  pub on_node_dead-Announced :
      (raw : Bytes)
      → e.encode (rumor_of Message.dead name i (s.heap l).name) ≡ ok raw
      → Announced name raw
          (record { event = "node.dead"; node = r })
          (is_news (s.heap r) i)
          (is_news (s.heap r) i)
          s
          (on_node_dead e name i s)
  unfolding on_node_dead
  on_node_dead-Announced raw h =
      let accepted = accept_dead-Announced e name r l i raw s v m known unlimited h in
      elim (Bool-cases (status_eq (s.heap r).status dead)) [
        | inl a ↦
            rw (on_node_dead, m, a) (record { returned = refl; queued = refl; emitted = refl })
        | inr a ↦ elim (Bool-cases (ltb i (s.heap r).incarnation)) [
          | inl b ↦
              rw (on_node_dead, m, a, b) (record { returned = refl; queued = refl; emitted = refl })
          | inr b ↦
              rw (on_node_dead, m, a, b, remote)
                (subst
                  (λ (same : Bool).
                    Announced name raw (record { event = "node.dead"; node = r }) true (not same) s
                      (accept_dead e r i s))
                  a accepted)
        ]
      ]

  -- A suspicion: there is an event where the node was not suspect before.
  pub on_node_suspect-Announced :
      (raw : Bytes) (metadata : Metadata)
      → e.encode (rumor_of Message.suspect name i (s.heap l).name) ≡ ok raw
      → Announced name raw
          (record { event = "node.suspect"; node = r })
          (is_news (s.heap r) i)
          (is_news (s.heap r) i && not (status_eq (s.heap r).status suspect))
          s
          (on_node_suspect e name i (some metadata) s)
  unfolding on_node_suspect
  on_node_suspect-Announced raw metadata h =
      let accepted = accept_suspect-Announced e name r l i raw s v m known unlimited metadata h in
      elim (Bool-cases (status_eq (s.heap r).status dead)) [
        | inl a ↦
            rw (on_node_suspect, m, a) (record { returned = refl; queued = refl; emitted = refl })
        | inr a ↦ elim (Bool-cases (ltb i (s.heap r).incarnation)) [
          | inl b ↦
              rw (on_node_suspect, m, a, b)
                (record { returned = refl; queued = refl; emitted = refl })
          | inr b ↦ rw (on_node_suspect, m, a, b, remote) accepted
        ]
      ]

  -- Rumors about a remote node that is known, in a well-formed state whose queue has no limit and that has a
  -- local node, where their messages can be encoded: the handlers return. If a rumor is news, the node not
  -- known as dead and the incarnation not older than the known one, its message, in the name of the local node,
  -- takes the place of what waits about the node, and the event follows, for a suspicion only of a node
  -- that was not suspect; otherwise neither the queue nor the events change.
  pub rumor-Announced :
      (raw_dead raw_suspect : Bytes) (metadata : Metadata)
      → e.encode (rumor_of Message.dead name i (s.heap l).name) ≡ ok raw_dead
      → e.encode (rumor_of Message.suspect name i (s.heap l).name) ≡ ok raw_suspect
      → Announced name raw_dead
          (record { event = "node.dead"; node = r })
          (is_news (s.heap r) i)
          (is_news (s.heap r) i)
          s
          (on_node_dead e name i s)
        × Announced name raw_suspect
            (record { event = "node.suspect"; node = r })
            (is_news (s.heap r) i)
            (is_news (s.heap r) i && not (status_eq (s.heap r).status suspect))
            s
            (on_node_suspect e name i (some metadata) s)
  rumor-Announced raw_dead raw_suspect metadata h k =
      (on_node_dead-Announced raw_dead h, on_node_suspect-Announced raw_suspect metadata k)
