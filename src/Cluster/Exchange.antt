-- ===== src/Cluster/Exchange.antt =====
-- What tattle/cluster.py hands on to the node manager: the states that a peer sends in a sync, and
-- what a probe has shown.
pub mod Merging
pub mod Probed
pub mod Reporting
pub mod Spreading
use tattle.Prelude.{
  ℕ, String, ◌≡◌, refl, Bool, true, false, Option, none, some, List, [], ◌∷◌, arith, if◌then◌else◌,
  map, ◌==◌, eq_iff, Bool-cases, inl, inr,
}
use tattle.Exec.{Exec, raised, attribute_error, not_implemented_error, pass, ◌>>=◌, ◌>>◌}
use tattle.Messages.{RemoteNodeState, InternetAddress, address, internet_address}
use tattle.State.Node.{status_text, status_eq, alive, suspect, dead, NodeManager, Env}
use tattle.State.Handlers.{on_node_alive, on_node_suspect}

module _ {F : Type 0} where
  -- The branch on an alive state. `remote_state.addr` may be `None`.
  unfoldable pub merge_alive : Env F → RemoteNodeState → Exec (NodeManager F) Unit
  unfolding on_node_alive
  merge_alive e remote s = elim remote.addr [
    | none ↦ (raised attribute_error, s)
    | some addr ↦
        on_node_alive e remote.node remote.incarnation (address addr) addr.port remote.metadata s
  ]

  -- A dead state is taken for a suspicion, and an unknown one is logged.
  unfoldable pub merge_remote_state : Env F → RemoteNodeState → Exec (NodeManager F) Unit
  unfolding merge_alive on_node_suspect
  merge_remote_state e remote s =
      if remote.status == status_text alive
      then merge_alive e remote s
      else if remote.status == status_text suspect
      then on_node_suspect e remote.node remote.incarnation remote.metadata s
      else if remote.status == status_text dead
      then on_node_suspect e remote.node remote.incarnation remote.metadata s
      else pass s

  -- The loop over the states of a `SyncMessage`
  unfoldable pub merge_remote_states : Env F → List RemoteNodeState → Exec (NodeManager F) Unit
  unfolding merge_remote_state
  merge_remote_states e [] = pass
  merge_remote_states e (remote ∷ rest) = do merge_remote_state e remote; merge_remote_states e rest

  -- The state of a node that `_send_local_state` sends
  unfoldable pub remote_node_state : NodeManager F → ℕ → RemoteNodeState
  remote_node_state s r =
      let node = s.heap r in
      record {
        node = node.name;
        addr = some (internet_address node.host node.port);
        version = node.version;
        incarnation = node.incarnation;
        status = status_text node.status;
        metadata = some node.metadata;
      }

  unfoldable pub local_state : NodeManager F → List RemoteNodeState
  unfolding remote_node_state
  local_state s = map (remote_node_state s) s.nodes

  unfoldable pub handle_probe_result : Env F → ℕ → Bool → Exec (NodeManager F) Unit
  unfolding on_node_alive
  handle_probe_result e r result s =
      let node = s.heap r in
      if result
      then (if status_eq node.status suspect
          then on_node_alive e node.name node.incarnation node.host node.port (some node.metadata) s
          else pass s)
      else (raised not_implemented_error, s)

  unfoldable pub handle_probe_timeout : Env F → ℕ → Exec (NodeManager F) Unit
  unfolding on_node_suspect
  handle_probe_timeout e r s =
      let node = s.heap r in on_node_suspect e node.name node.incarnation (some node.metadata) s
