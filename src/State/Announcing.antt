-- ===== src/State/Announcing.antt =====
-- What a rumor about a remote node makes the handlers of tattle/state.py announce: a message in the queue, and an
-- event to the callbacks.
pub mod Remote
use mathlib.Core.Path.{subst}
use tattle.Prelude.{
  ℕ, String, ◌≡◌, refl, sym, ap, ◌∙◌, Option, some, arith, ltb, not, ◌&&◌, if◌then◌else◌, Bool,
  true, false, Bool-cases, Option-cases, inl, inr, List, [], ◌∷◌, ◌++◌,
}
use tattle.Prelude.Dict.{get, contains}
use tattle.Exec.{Exec, Result, ok, ◌>>=◌, ◌>>◌, continue}
use tattle.Exec.Does.{bind-ok}
use tattle.Messages.{Message, RumorMessage, Metadata, Bytes}
use tattle.Queue
use tattle.State.Node.{Status, suspect, dead, status_eq, NodeManager, Env, Event}
use tattle.State.Manager.{
  local_ref, is_local, merge_metadata, send_broadcast, broadcast_suspect, broadcast_dead,
  emit_change, with_name,
}
use tattle.State.Handlers.{
  settle, raise_suspicion, accept_dead, accept_suspect, on_node_dead, on_node_suspect,
}
use tattle.State.Shape.{Inv, view}
use tattle.State.Changes.{Changed, settle-ok, settle-Changed, raise_suspicion-Changed}
use tattle.State.Telling.{push-returns}

-- A message about a node, from a local node
abbrev pub rumor_of : (RumorMessage → Message) → String → ℕ → String → Message
rumor_of kind name i sender = kind (record { node = name; incarnation = i; sender = some sender })

module _ {F : Type 0} where
  -- The action returned; the message is in the queue if it is told, and the event is emitted if the status has
  -- changed.
  pub record Announced (name : String) (raw : Bytes) (event : Event) (told changed : Bool)
      (s : NodeManager F) (outcome : Result (Unit {0}) × NodeManager F) : Type 0 where
    pub returned : outcome.0 ≡ ok tt
    pub queued : outcome.1.queue ≡ (if told then (Queue.push name raw s.queue).1 else s.queue)
    pub emitted : outcome.1.emitted ≡ (if changed then s.emitted ++ event ∷ [] else s.emitted)

  settle-emitted :
      (now : ℕ) (name : String) (r : ℕ) (status : Status) (i : ℕ) (s : NodeManager F)
      → Inv s
      → get s.nodes_map name ≡ some r
      → (settle now r status i s).1.emitted ≡ s.emitted
  unfolding settle contains
  settle-emitted now name r status i s v m =
      let known = v.named name r m in ground (arith, v.suspected name, m, known)

  raise_suspicion-emitted :
      (e : Env F) (r i : ℕ) (s : NodeManager F) → (raise_suspicion e r i s).1.emitted ≡ s.emitted
  unfolding raise_suspicion
  raise_suspicion-emitted e r i s = ground arith

  merge_metadata-Changed :
      (r i : ℕ) (metadata : Metadata) (s t : NodeManager F)
      → Changed r suspect i s t
      → Changed r suspect i s (merge_metadata r (some metadata) t).1
  unfolding merge_metadata
  merge_metadata-Changed r i metadata s t c = record {
    frame = record {
      nodes = c.frame.nodes;
      nodes_map = c.frame.nodes_map;
      next = c.frame.next;
      local_node_name = c.frame.local_node_name;
      leaving = c.frame.leaving;
      tasks = c.frame.tasks;
      names = λ q. ground (arith, c.frame.names q);
    };
    statuses = λ q. ground (arith, c.statuses q);
    incarnations = λ q. ground (arith, c.incarnations q);
    queue = c.queue;
  }

  -- A message that is encoded goes to the queue.
  send_broadcast-pushes :
      (e : Env F) (r : ℕ) (msg : Message) (raw : Bytes) (s : NodeManager F)
      → e.encode msg ≡ ok raw
      → s.queue.max_size ≡ 0
      → send_broadcast e r msg s
        ≡ (ok tt, record s { queue = (Queue.push (s.heap r).name raw s.queue).1 })
  unfolding send_broadcast
  send_broadcast-pushes e r msg raw s h unlimited =
      rw (h, send_broadcast, (push-returns (s.heap r).name raw s.queue unlimited).0) refl

  broadcast_dead-pushes :
      (e : Env F) (r l : ℕ) (raw : Bytes) (s : NodeManager F)
      → local_ref s ≡ some l
      → e.encode (
          Message.dead (record {
            node = (s.heap r).name;
            incarnation = (s.heap r).incarnation;
            sender = some (s.heap l).name;
          }))
        ≡ ok raw
      → s.queue.max_size ≡ 0
      → broadcast_dead e r s
        ≡ (ok tt, record s { queue = (Queue.push (s.heap r).name raw s.queue).1 })
  unfolding broadcast_dead with_name
  broadcast_dead-pushes e r l raw s known h unlimited =
      rw (broadcast_dead, known, with_name) (send_broadcast-pushes e r _ raw s h unlimited)

  broadcast_suspect-pushes :
      (e : Env F) (r l : ℕ) (raw : Bytes) (s : NodeManager F)
      → local_ref s ≡ some l
      → e.encode (
          Message.suspect (record {
            node = (s.heap r).name;
            incarnation = (s.heap r).incarnation;
            sender = some (s.heap l).name;
          }))
        ≡ ok raw
      → s.queue.max_size ≡ 0
      → broadcast_suspect e r s
        ≡ (ok tt, record s { queue = (Queue.push (s.heap r).name raw s.queue).1 })
  unfolding broadcast_suspect with_name
  broadcast_suspect-pushes e r l raw s known h unlimited =
      rw (broadcast_suspect, known, with_name) (send_broadcast-pushes e r _ raw s h unlimited)

  -- What a handler does at its end: it pushes the message, and emits the event if the status has changed.
  told-Announced :
      (broadcast : Exec (NodeManager F) Unit) (event : String) (old status : Status) (r : ℕ)
      (name : String) (raw : Bytes) (s t : NodeManager F)
      → broadcast t ≡ (ok tt, record t { queue = (Queue.push name raw s.queue).1 })
      → t.emitted ≡ s.emitted
      → Announced name raw
          (record { event = event; node = r })
          true
          (not (status_eq old status))
          s
          ((broadcast >> emit_change event old status r) t)
  unfolding emit_change
  told-Announced broadcast event old status r name raw s t sent same =
      elim (Bool-cases (status_eq old status)) [
        | inl e ↦
            rw (sent, emit_change, e) (record { returned = refl; queued = refl; emitted = same })
        | inr e ↦
            rw (sent, emit_change, e)
              (record {
                returned = refl;
                queued = refl;
                emitted =
                    ap (λ (x : List Event). x ++ record { event = event; node = r } ∷ []) same;
              })
      ]

  -- A node of the name, and the local node, in a well-formed state whose queue has no limit
  module _ (e : Env F) (name : String) (r l i : ℕ) (raw : Bytes) (s : NodeManager F) (v : Inv s)
      (m : get s.nodes_map name ≡ some r) (known : local_ref s ≡ some l)
      (unlimited : s.queue.max_size ≡ 0) where
    -- After a change of the node the message is what it would have been with the new incarnation before it.
    module _ (status : Status) (kind : RumorMessage → Message) (t : NodeManager F)
        (c : Changed r status i s t)
        (h : e.encode (rumor_of kind name i (s.heap l).name) ≡ ok raw) where
      still_known : local_ref t ≡ some l
      unfolding local_ref
      still_known = ground (arith, c.frame.local_node_name, c.frame.nodes_map, known)

      same_name : (t.heap r).name ≡ name
      same_name = c.frame.names r ∙ (v.named name r m).0

      new_incarnation : (t.heap r).incarnation ≡ i
      new_incarnation = ground (arith, c.incarnations r)

      encoded :
          e.encode (rumor_of kind (t.heap r).name (t.heap r).incarnation (t.heap l).name) ≡ ok raw
      encoded = rw (same_name, new_incarnation, c.frame.names l) h

      still_unlimited : t.queue.max_size ≡ 0
      still_unlimited = ap (λ q. q.max_size) c.queue ∙ unlimited

      same_queue : (Queue.push (t.heap r).name raw t.queue).1 ≡ (Queue.push name raw s.queue).1
      same_queue = rw (same_name, c.queue) refl

    pub accept_dead-Announced :
        e.encode (rumor_of Message.dead name i (s.heap l).name) ≡ ok raw
        → Announced name raw
            (record { event = "node.dead"; node = r })
            true
            (not (status_eq (s.heap r).status dead))
            s
            (accept_dead e r i s)
    unfolding accept_dead
    accept_dead-Announced h =
        let c = settle-Changed e.now name r dead i s v m in
        let t = (settle e.now r dead i s).1 in
        let after : Status → Exec (NodeManager F) Unit =
          λ old. broadcast_dead e r >> emit_change "node.dead" old dead r in
        rw
          (bind-ok (settle e.now r dead i) after s (s.heap r).status
            (settle-ok e.now name r dead i s v m))
          (told-Announced (broadcast_dead e r) "node.dead" (s.heap r).status dead r name raw s t
            (broadcast_dead-pushes e r l raw t (still_known dead Message.dead t c h)
                (encoded dead Message.dead t c h) (still_unlimited dead Message.dead t c h)
              ∙ ap (λ q. (ok tt, record t { queue = q })) (same_queue dead Message.dead t c h))
            (settle-emitted e.now name r dead i s v m))

    pub accept_suspect-Announced :
        (metadata : Metadata)
        → e.encode (rumor_of Message.suspect name i (s.heap l).name) ≡ ok raw
        → Announced name raw
            (record { event = "node.suspect"; node = r })
            true
            (not (status_eq (s.heap r).status suspect))
            s
            (accept_suspect e r i (some metadata) s)
    unfolding accept_suspect merge_metadata raise_suspicion
    accept_suspect-Announced metadata h =
        let u = (raise_suspicion e r i s).1 in
        let t = (merge_metadata r (some metadata) u).1 in
        let c = raise_suspicion-Changed e r i s in
        let d = merge_metadata-Changed r i metadata s u c in
        told-Announced (broadcast_suspect e r) "node.suspect" (s.heap r).status suspect r name raw s
          t
          (broadcast_suspect-pushes e r l raw t (still_known suspect Message.suspect t d h)
              (encoded suspect Message.suspect t d h)
              (still_unlimited suspect Message.suspect t d h)
            ∙ ap (λ q. (ok tt, record t { queue = q })) (same_queue suspect Message.suspect t d h))
          (raise_suspicion-emitted e r i s)
