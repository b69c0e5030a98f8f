-- ===== src/State/Manager.antt =====
-- The helpers of the `NodeManager` of tattle/state.py.
use Prim.Native.Nat.{max}
use tattle.Prelude.{
  ℕ, ◌+◌, ◌-◌, ◌%◌, String, Bool, true, false, not, Option, none, some, List, [], ◌∷◌, ◌++◌, eqb,
  if◌then◌else◌, length, get_or, set, filter, ◌==◌,
}
use tattle.Prelude.Dict.{get, put, remove, contains}
use tattle.Prelude.Int
use tattle.Prelude.Int.{ℤ, pos, ◌-ℤ◌}
use tattle.Exec.{Exec, Result, ok, raised, key_error, value_error, type_error, attribute_error}
use tattle.Messages.{Message, Bytes, Metadata, internet_address}
use tattle.Queue
use tattle.Queue.{BroadcastQueue}
use tattle.State.Node.{Status, status_eq, Node, Timer, SuspectNode, NodeManager, Env}

-- `_calculate_suspicion_timeout`
unfoldable pub calculate_suspicion_timeout : {F : Type 0} → Env F → ℕ → F → F
calculate_suspicion_timeout e n interval =
    e.mul (e.max_float (e.from_int 1) (e.log10 (e.from_int (max 1 n)))) interval

-- `_calculate_expected_confirmations`
unfoldable pub calculate_expected_confirmations : ℕ → ℕ → ℤ
calculate_expected_confirmations n multi =
    let k = pos multi -ℤ pos 2 in if Int.ltb (pos n -ℤ pos 2) k then pos 0 else k

-- `self._nodes[i], self._nodes[-1]` change places.
unfoldable pub swap_last : ℕ → List ℕ → List ℕ
swap_last i nodes =
    let last = length nodes - 1 in
    let random_node = get_or nodes i 0 in
    let last_node = get_or nodes last 0 in set (set nodes i last_node) last random_node

-- `self._nodes.remove(node)`: nodes are compared by identity.
unfoldable pub remove_ref : ℕ → List ℕ → Option (List ℕ)
remove_ref r [] = none
remove_ref r (x ∷ xs) =
    let rest : Option (List ℕ) = elim (remove_ref r xs) [ none ↦ none | some ys ↦ some (x ∷ ys) ] in
    if eqb x r then some xs else rest

-- `left | right` on dicts
unfoldable pub union : Metadata → Metadata → Metadata
union left [] = left
union left ((k, v) ∷ right) = union (put left k v) right

abbrev pub option_eq : Option String → Option String → Bool
option_eq none none = true
option_eq (some a) (some b) = a == b
option_eq _ _ = false

module _ {F : Type 0} where
  abbrev pub write : ℕ → Node → NodeManager F → NodeManager F
  write r node s = record s { heap = λ k. if eqb k r then node else s.heap k }

  -- The reference of `local_node`
  unfoldable pub local_ref : NodeManager F → Option ℕ
  local_ref s = elim s.local_node_name [ none ↦ none | some name ↦ get s.nodes_map name ]

  -- `node is self.local_node`
  unfoldable pub is_local : NodeManager F → ℕ → Bool
  unfolding local_ref
  is_local s r = elim (local_ref s) [ none ↦ false | some l ↦ eqb l r ]

  -- `random.randint(0, n - 1)` raises if `n` is 0, and is any number below `n` otherwise.
  unfoldable pub swap_random_nodes : ℕ → Exec (NodeManager F) Unit
  unfolding swap_last
  swap_random_nodes random s =
      if eqb (length s.nodes) 0
      then (raised value_error, s)
      else (ok tt, record s { nodes = swap_last (random % length s.nodes) s.nodes })

  -- The property `status`, with the incarnation that the handlers set before it.
  unfoldable pub set_status : ℕ → ℕ → Status → ℕ → NodeManager F → NodeManager F
  set_status now r status incarnation s =
      let node = s.heap r in
      write r
        (record node {
          incarnation = incarnation;
          status = status;
          status_change_timestamp =
              if status_eq status node.status then node.status_change_timestamp else some now;
        })
        s

  -- `node.metadata = node.metadata | metadata`
  unfoldable pub merge_metadata : ℕ → Option Metadata → Exec (NodeManager F) Unit
  merge_metadata r none s = (raised type_error, s)
  merge_metadata r (some metadata) s =
      let node = s.heap r in
      (ok tt, write r (record node { metadata = union node.metadata metadata }) s)

  -- `self._queue.push(node.name, raw)`, where `raw` could be encoded
  unfoldable pub push_encoded : ℕ → Result Bytes → Exec (NodeManager F) Unit
  push_encoded r (raised x) s = (raised x, s)
  push_encoded r (ok raw) s =
      let (result, queue) = Queue.push (s.heap r).name raw s.queue in
      (result, record s { queue = queue })

  unfoldable pub send_broadcast : Env F → ℕ → Message → Exec (NodeManager F) Unit
  unfolding push_encoded
  send_broadcast e r msg = push_encoded r (e.encode msg)

  unfoldable pub broadcast_alive : Env F → ℕ → Exec (NodeManager F) Unit
  unfolding send_broadcast
  broadcast_alive e r s =
      let node = s.heap r in
      send_broadcast e r
        (Message.alive (record {
          node = node.name;
          addr = some (internet_address node.host node.port);
          incarnation = node.incarnation;
          metadata = some node.metadata;
        }))
        s

  -- What needs the name of a node that may be missing, `self.local_node.name`
  unfoldable pub with_name :
      Option ℕ → (String → Exec (NodeManager F) Unit) → Exec (NodeManager F) Unit
  with_name none send s = (raised attribute_error, s)
  with_name (some l) send s = send (s.heap l).name s

  unfoldable pub broadcast_suspect : Env F → ℕ → Exec (NodeManager F) Unit
  unfolding send_broadcast with_name local_ref
  broadcast_suspect e r s =
      let node = s.heap r in
      with_name (local_ref s)
        (λ sender. send_broadcast e r (
          Message.suspect
            (record { node = node.name; incarnation = node.incarnation; sender = some sender })))
        s

  unfoldable pub broadcast_dead : Env F → ℕ → Exec (NodeManager F) Unit
  unfolding send_broadcast with_name local_ref
  broadcast_dead e r s =
      let node = s.heap r in
      with_name (local_ref s)
        (λ sender. send_broadcast e r (
          Message.dead
            (record { node = node.name; incarnation = node.incarnation; sender = some sender })))
        s

  -- `if old_status != status: self._events.emit(event, node)`
  unfoldable pub emit_change : String → Status → Status → ℕ → Exec (NodeManager F) Unit
  emit_change event old status r s =
      if status_eq old status
      then (ok tt, s)
      else (ok tt, record s { emitted = s.emitted ++ record { event = event; node = r } ∷ [] })

  -- `Timer(...)` and `start()`
  unfoldable pub start_timer : ℕ → F → NodeManager F → NodeManager F
  start_timer r timeout s = record s {
    scheduled = s.scheduled ++ record { id = s.next_timer; node = r; time = timeout } ∷ [];
    next_timer = s.next_timer + 1;
  }

  -- `suspect.timer.stop()`
  unfoldable pub stop_timer : ℕ → NodeManager F → NodeManager F
  stop_timer id s = record s { scheduled = filter (λ (t : Timer F). not (eqb t.id id)) s.scheduled }

  -- The entry that `_create_suspect_node` makes
  unfoldable pub suspect_node : Env F → NodeManager F → SuspectNode F
  unfolding calculate_expected_confirmations calculate_suspicion_timeout
  suspect_node e s =
      let n = length s.nodes in
      let min_timeout =
        e.mul (e.from_int e.suspicion_min_timeout_multi)
          (calculate_suspicion_timeout e n e.probe_interval) in
      record {
        timer = s.next_timer;
        k = calculate_expected_confirmations n e.suspicion_min_timeout_multi;
        min_timeout = min_timeout;
        max_timeout = e.mul (e.from_int e.suspicion_max_timeout_multi) min_timeout;
        confirmations = [];
      }

  -- Its time
  unfoldable pub suspect_timeout : SuspectNode F → F
  suspect_timeout node = if Int.ltb node.k (pos 1) then node.max_timeout else node.min_timeout

  unfoldable pub create_suspect_node : Env F → ℕ → NodeManager F → NodeManager F
  unfolding start_timer
  create_suspect_node e r s =
      let name = (s.heap r).name in
      let node = suspect_node e s in
      if contains s.suspect_nodes name
      then s
      else start_timer r (suspect_timeout node)
          (record s { suspect_nodes = put s.suspect_nodes name node })

  unfoldable pub cancel_suspect_node : ℕ → Exec (NodeManager F) Unit
  unfolding stop_timer
  cancel_suspect_node r s =
      let name = (s.heap r).name in
      elim (get s.suspect_nodes name) [
        | none ↦ (raised key_error, s)
        | some node ↦ (
          ok tt,
          let s' = stop_timer node.timer s in
              record s' { suspect_nodes = remove s'.suspect_nodes name },
        )
      ]
