-- ===== src/State/Handlers.antt =====
-- The operations of the `NodeManager` of tattle/state.py. Each handler holds the lock of the nodes
-- from its first read to its end, so it is one step.
use tattle.Prelude.{
  ℕ, String, Bool, true, false, not, ◌&&◌, Option, none, some, [], ◌∷◌, ◌++◌, ltb, leb, eqb,
  if◌then◌else◌, filter,
}
use tattle.Prelude.Dict.{get, put, remove, contains}
use tattle.Exec.{
  Exec, ok, raised, value_error, attribute_error, assertion_error, pass, modify, ◌>>=◌, ◌>>◌,
}
use tattle.Sequence.{sequence, increment}
use tattle.Messages.{Metadata}
use tattle.Queue.{BroadcastQueue}
use tattle.State.Node.{Status, alive, suspect, dead, status_eq, new_node, Timer, NodeManager, Env}
use tattle.State.Manager.{
  write, local_ref, is_local, swap_random_nodes, set_status, merge_metadata, broadcast_alive,
  broadcast_suspect, broadcast_dead, emit_change, create_suspect_node, cancel_suspect_node,
  remove_ref, option_eq,
}

module _ {F : Type 0} where
  -- `NodeManager(config, queue, events)`
  unfoldable pub node_manager : BroadcastQueue → NodeManager F
  node_manager queue = record {
    heap = λ r. new_node "" none 0;
    next = 0;
    queue = queue;
    leaving = false;
    nodes = [];
    nodes_map = [];
    suspect_nodes = [];
    local_node_name = none;
    local_node_seq = sequence;
    scheduled = [];
    next_timer = 0;
    tasks = [];
    emitted = [];
  }

  -- The node of the name; a new one, if the name is unknown.
  unfoldable pub find_or_create : ℕ → String → Option String → ℕ → Exec (NodeManager F) ℕ
  unfolding swap_random_nodes
  find_or_create random name host port s = elim (get s.nodes_map name) [
    | some r ↦ (ok r, s)
    | none ↦
        let r = s.next in
        let s' = write r (new_node name host port) s in
        (do swap_random_nodes random; λ t. (ok r, t))
          (record s' {
            next = ℕ.suc r;
            nodes_map = put s'.nodes_map name r;
            nodes = s'.nodes ++ r ∷ [];
          })
  ]

  -- The branch on a conflicting address: the new address is taken.
  unfoldable pub update_address : ℕ → Option String → ℕ → NodeManager F → NodeManager F
  update_address r host port s =
      let node = s.heap r in
      if option_eq node.host host && eqb node.port port
      then s
      else write r (record node { host = host; port = port }) s

  -- A suspicion of the node is cancelled; then it has the status and the incarnation. The result is
  -- the old status.
  unfoldable pub settle : ℕ → ℕ → Status → ℕ → Exec (NodeManager F) Status
  unfolding cancel_suspect_node set_status
  settle now r status incarnation s =
      (do
        if status_eq (s.heap r).status suspect then cancel_suspect_node r else pass
        λ t. (ok (t.heap r).status, set_status now r status incarnation t))
        s

  unfoldable pub accept_alive : Env F → ℕ → ℕ → Option Metadata → Exec (NodeManager F) Unit
  unfolding settle merge_metadata broadcast_alive emit_change
  accept_alive e r incarnation metadata = do
    old_status ← settle e.now r alive incarnation
    merge_metadata r metadata
    broadcast_alive e r
    emit_change "node.alive" old_status alive r

  -- Is an alive message too old? For the local node the same incarnation is not.
  unfoldable pub alive_is_old : NodeManager F → ℕ → ℕ → Bool
  unfolding is_local
  alive_is_old s r incarnation =
      if is_local s r
      then ltb incarnation (s.heap r).incarnation
      else leb incarnation (s.heap r).incarnation

  unfoldable pub on_node_alive :
      Env F → String → ℕ → Option String → ℕ → Option Metadata → Exec (NodeManager F) Unit
  unfolding find_or_create update_address alive_is_old accept_alive
  on_node_alive e name incarnation host port metadata = do
    r ← find_or_create e.random name host port
    modify (update_address r host port)
    λ s. (if alive_is_old s r incarnation then pass else accept_alive e r incarnation metadata) s

  unfoldable pub refute : Env F → Exec (NodeManager F) Unit
  unfolding local_ref broadcast_alive
  refute e s =
      let (incarnation, seq) = increment s.local_node_seq in
      let s' = record s { local_node_seq = seq } in
      elim (local_ref s') [
        | none ↦ (raised attribute_error, s')
        | some l ↦
            broadcast_alive e l (write l (record (s'.heap l) { incarnation = incarnation }) s')
      ]

  unfoldable pub accept_dead : Env F → ℕ → ℕ → Exec (NodeManager F) Unit
  unfolding settle broadcast_dead emit_change
  accept_dead e r incarnation = do
    old_status ← settle e.now r dead incarnation
    broadcast_dead e r
    emit_change "node.dead" old_status dead r

  unfoldable pub on_node_dead : Env F → String → ℕ → Exec (NodeManager F) Unit
  unfolding is_local refute accept_dead
  on_node_dead e name incarnation s = elim (get s.nodes_map name) [
    | none ↦ (ok tt, s)
    | some r ↦
        if status_eq (s.heap r).status dead
        then (ok tt, s)
        else if ltb incarnation (s.heap r).incarnation
        then (ok tt, s)
        else if is_local s r && not s.leaving
        then refute e s
        else accept_dead e r incarnation s
  ]

  -- The status and the incarnation, and the suspicion. The result is the old status.
  unfoldable pub raise_suspicion : Env F → ℕ → ℕ → Exec (NodeManager F) Status
  unfolding set_status create_suspect_node
  raise_suspicion e r incarnation s =
      (ok (s.heap r).status, create_suspect_node e r (set_status e.now r suspect incarnation s))

  unfoldable pub accept_suspect : Env F → ℕ → ℕ → Option Metadata → Exec (NodeManager F) Unit
  unfolding raise_suspicion merge_metadata broadcast_suspect emit_change
  accept_suspect e r incarnation metadata = do
    old_status ← raise_suspicion e r incarnation
    merge_metadata r metadata
    broadcast_suspect e r
    emit_change "node.suspect" old_status suspect r

  unfoldable pub on_node_suspect : Env F → String → ℕ → Option Metadata → Exec (NodeManager F) Unit
  unfolding is_local refute accept_suspect
  on_node_suspect e name incarnation metadata s = elim (get s.nodes_map name) [
    | none ↦ (ok tt, s)
    | some r ↦
        if status_eq (s.heap r).status dead
        then (ok tt, s)
        else if ltb incarnation (s.heap r).incarnation
        then (ok tt, s)
        else if is_local s r
        then refute e s
        else accept_suspect e r incarnation metadata s
  ]

  unfoldable pub set_local_node :
      Env F → String → Option String → ℕ → Option Metadata → Exec (NodeManager F) Unit
  unfolding on_node_alive
  set_local_node e name host port metadata s =
      let (incarnation, seq) = increment s.local_node_seq in
      on_node_alive e name incarnation host port metadata
        (record s { local_node_name = some name; local_node_seq = seq })

  unfoldable pub leave_local_node : Env F → Exec (NodeManager F) Unit
  unfolding local_ref on_node_dead
  leave_local_node e s = elim s.local_node_name [
    | none ↦ (raised assertion_error, s)
    | some name ↦
        let s' = record s { leaving = true } in
        elim (local_ref s') [
          | none ↦ (raised attribute_error, s')
          | some l ↦ on_node_dead e (s'.heap l).name (s'.heap l).incarnation s'
        ]
  ]

  -- `self._nodes.remove(current_node)` and what follows it
  unfoldable pub forget_dead : Env F → String → ℕ → Exec (NodeManager F) Unit
  unfolding swap_random_nodes
  forget_dead e name r s = elim (remove_ref r s.nodes) [
    | none ↦ (raised value_error, s)
    | some rest ↦ swap_random_nodes e.random (record s {
      nodes = rest;
      nodes_map = remove s.nodes_map name;
      suspect_nodes =
          if contains s.suspect_nodes name then remove s.suspect_nodes name else s.suspect_nodes;
    })
  ]

  unfoldable pub forget_node : Env F → String → Exec (NodeManager F) Unit
  unfolding forget_dead
  forget_node e name s = elim (get s.nodes_map name) [
    | none ↦ (ok tt, s)
    | some r ↦
        if status_eq (s.heap r).status dead
        then forget_dead e name r s
        else (raised assertion_error, s)
  ]

  -- The event loop runs a timer: `_run` makes a task of the callback.
  unfoldable pub run_timer : Timer F → NodeManager F → NodeManager F
  run_timer timer s = record s {
    scheduled = filter (λ (t : Timer F). not (eqb t.id timer.id)) s.scheduled;
    tasks = s.tasks ++ timer.node ∷ [];
  }

  -- `_handle_suspect_timer`, when the event loop comes to the first task.
  unfoldable pub handle_suspect_timer : Env F → Exec (NodeManager F) Unit
  unfolding on_node_dead
  handle_suspect_timer e s = elim s.tasks [
    | [] ↦ (ok tt, s)
    | r ∷ tasks ↦
        let s' = record s { tasks = tasks } in
        on_node_dead e (s'.heap r).name (s'.heap r).incarnation s'
  ]
