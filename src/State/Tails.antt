-- ===== src/State/Tails.antt =====
-- The ends of the handlers of tattle/state.py: metadata, broadcast and event. They change neither a
-- status nor an incarnation nor a suspicion, whether they return or raise.
use tattle.Prelude.{ℕ, String, ◌≡◌, refl, Option, none, some, List, arith, Bool-cases, inl, inr}
use tattle.Exec.{Exec, Result, ok, raised, ◌>>◌}
use tattle.Exec.Does.{Does, Does-bind}
use tattle.Messages.{Bytes, Metadata}
use tattle.Queue.{BroadcastQueue}
use tattle.Queue.Invariant.{IsValid, push-IsValid}
use tattle.State.Node.{Status, alive, suspect, dead, status_eq, Node, Event, NodeManager, Env}
use tattle.State.Manager.{
  write, local_ref, merge_metadata, push_encoded, send_broadcast, with_name, broadcast_alive,
  broadcast_suspect, broadcast_dead, emit_change,
}
use tattle.State.Shape.{Steady, Steady-refl, Steady-trans}

module _ {F : Type 0} where
  -- A new value of one node with the same name, status and incarnation.
  pub write-Steady :
      (r : ℕ) (node : Node) (s : NodeManager F)
      → node.name ≡ (s.heap r).name
      → node.status ≡ (s.heap r).status
      → node.incarnation ≡ (s.heap r).incarnation
      → Steady s (write r node s)
  write-Steady r node s n st i = record {
    frame = record {
      nodes = refl;
      nodes_map = refl;
      next = refl;
      local_node_name = refl;
      leaving = refl;
      tasks = refl;
      names = λ q. ground arith;
    };
    statuses = λ q. ground arith;
    incarnations = λ q. ground arith;
    suspect_nodes = refl;
    scheduled = refl;
    queued = λ v. v;
  }

  -- Another queue and other events
  outputs-Steady :
      (queue : BroadcastQueue) (emitted : List Event) (s : NodeManager F)
      → (IsValid s.queue → IsValid queue)
      → Steady s (record s { queue = queue; emitted = emitted })
  outputs-Steady queue emitted s h = record {
    frame = record {
      nodes = refl;
      nodes_map = refl;
      next = refl;
      local_node_name = refl;
      leaving = refl;
      tasks = refl;
      names = λ q. refl;
    };
    statuses = λ q. refl;
    incarnations = λ q. refl;
    suspect_nodes = refl;
    scheduled = refl;
    queued = h;
  }

  merge_metadata-Steady : (r : ℕ) (m : Option Metadata) → Does Steady (merge_metadata {F = F} r m)
  unfolding merge_metadata
  merge_metadata-Steady r none = record { at = Steady-refl }
  merge_metadata-Steady r (some m) = record { at = λ s. write-Steady r _ s refl refl refl }

  push_encoded-Steady : (r : ℕ) (raw : Result Bytes) → Does Steady (push_encoded {F = F} r raw)
  unfolding push_encoded
  push_encoded-Steady r (raised x) = record { at = Steady-refl }
  push_encoded-Steady r (ok raw) = record {
    at = λ s. outputs-Steady _ s.emitted s (push-IsValid (s.heap r).name raw s.queue);
  }

  pub broadcast_alive-Steady : (e : Env F) (r : ℕ) → Does Steady (broadcast_alive e r)
  unfolding broadcast_alive send_broadcast
  broadcast_alive-Steady e r = record { at = λ s. (push_encoded-Steady r (e.encode _)).at s }

  with_name-Steady :
      (o : Option ℕ) (send : String → Exec (NodeManager F) Unit)
      → ((name : String) → Does Steady (send name))
      → Does Steady (with_name o send)
  unfolding with_name
  with_name-Steady none send h = record { at = Steady-refl }
  with_name-Steady (some l) send h = record { at = λ s. (h (s.heap l).name).at s }

  broadcast_suspect-Steady : (e : Env F) (r : ℕ) → Does Steady (broadcast_suspect e r)
  unfolding broadcast_suspect send_broadcast
  broadcast_suspect-Steady e r = record {
    at = λ s. (with_name-Steady (local_ref s) _ (λ name. push_encoded-Steady r (e.encode _))).at s;
  }

  broadcast_dead-Steady : (e : Env F) (r : ℕ) → Does Steady (broadcast_dead e r)
  unfolding broadcast_dead send_broadcast
  broadcast_dead-Steady e r = record {
    at = λ s. (with_name-Steady (local_ref s) _ (λ name. push_encoded-Steady r (e.encode _))).at s;
  }

  emit_change-Steady :
      (event : String) (old status : Status) (r : ℕ)
      → Does Steady (emit_change {F = F} event old status r)
  unfolding emit_change
  emit_change-Steady event old status r = record {
    at = λ s. elim (Bool-cases (status_eq old status)) [
      | inl h ↦ rw h (Steady-refl s)
      | inr h ↦ rw h (outputs-Steady s.queue _ s (λ v. v))
    ];
  }

  abbrev pub alive_tail : Env F → Status → ℕ → Option Metadata → Exec (NodeManager F) Unit
  alive_tail e old r m = do
    merge_metadata r m
    broadcast_alive e r
    emit_change "node.alive" old alive r

  abbrev pub dead_tail : Env F → Status → ℕ → Exec (NodeManager F) Unit
  dead_tail e old r = do broadcast_dead e r; emit_change "node.dead" old dead r

  abbrev pub suspect_tail : Env F → Status → ℕ → Option Metadata → Exec (NodeManager F) Unit
  suspect_tail e old r m = do
    merge_metadata r m
    broadcast_suspect e r
    emit_change "node.suspect" old suspect r

  module _ (e : Env F) (old : Status) (r : ℕ) where
    pub alive_tail-Steady : (m : Option Metadata) → Does Steady (alive_tail e old r m)
    alive_tail-Steady m = Does-bind Steady-trans _ _ (merge_metadata-Steady r m) λ _.
        Does-bind Steady-trans _ _ (broadcast_alive-Steady e r)
          λ _. emit_change-Steady "node.alive" old alive r

    pub dead_tail-Steady : Does Steady (dead_tail e old r)
    dead_tail-Steady =
        Does-bind Steady-trans _ _ (broadcast_dead-Steady e r)
          λ _. emit_change-Steady "node.dead" old dead r

    pub suspect_tail-Steady : (m : Option Metadata) → Does Steady (suspect_tail e old r m)
    suspect_tail-Steady m = Does-bind Steady-trans _ _ (merge_metadata-Steady r m) λ _.
        Does-bind Steady-trans _ _ (broadcast_suspect-Steady e r)
          λ _. emit_change-Steady "node.suspect" old suspect r
