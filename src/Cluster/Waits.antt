-- ===== src/Cluster/Waits.antt =====
-- What comes behind the wait for a probe in tattle/cluster.py: of a node that probes, by itself or by another
-- node, and of a node that probes for another; and `ping`.
pub mod Relaying
pub mod Safe
use tattle.Prelude.{
  ℕ, String, Bool, true, false, not, ◌||◌, Option, none, some, List, [], ◌∷◌, eqb, filter,
  if◌then◌else◌, length,
}
use tattle.Prelude.Dict.{get}
use tattle.Exec.{Exec, Result, ok, raised, attribute_error, continue, modify, ◌>>=◌, ◌>>◌}
use tattle.Sequence.{increment}
use tattle.Messages.{Message, PingRequestMessage}
use tattle.Cluster.Exchange.{handle_probe_result, handle_probe_timeout}
use tattle.Cluster.Handling.{
  Cluster, ClusterEnv, on_manager, send_to, probe_node, forward_indirect_probe_result,
}
use tattle.Cluster.Choosing.{probe_node_indirect}

module _ {F : Type 0} where
  -- `del self._probe_status[seq]` at the end of a wait
  unfoldable pub stop_waiting : ℕ → Cluster F → Cluster F
  stop_waiting seq s = record s {
    probe_status = filter (λ (f : ℕ × Option Bool). not (eqb f.0 seq)) s.probe_status;
  }

  -- `_probe_node` behind its wait, where an answer has come
  unfoldable pub probe_answered : ClusterEnv F → ℕ → ℕ → Bool → Exec (Cluster F) Unit
  unfolding stop_waiting on_manager handle_probe_result
  probe_answered e r seq result s =
      on_manager (handle_probe_result e.env r result) (stop_waiting seq s)

  -- `_probe_node` behind its wait, where none has come in time: the node is suspected, and probed
  -- indirectly.
  unfoldable pub probe_timed_out : ClusterEnv F → ℕ → ℕ → (ℕ → ℕ) → ℕ → Exec (Cluster F) Unit
  unfolding stop_waiting on_manager handle_probe_timeout probe_node_indirect
  probe_timed_out e r seq draw k s =
      (do on_manager (handle_probe_timeout e.env r); modify (probe_node_indirect e draw r k))
        (stop_waiting seq s)

  -- `_probe_node_indirect_via` behind its wait, with the answer if one has come in time
  unfoldable pub indirect_ended : ClusterEnv F → ℕ → ℕ → Option Bool → Exec (Cluster F) Unit
  unfolding stop_waiting on_manager handle_probe_result handle_probe_timeout
  indirect_ended e r seq none s = on_manager (handle_probe_timeout e.env r) (stop_waiting seq s)
  indirect_ended e r seq (some result) s =
      on_manager (handle_probe_result e.env r result) (stop_waiting seq s)

  -- `_handle_ping_request_message` behind its wait: an answer is forwarded, whatever its result, and where
  -- none has come in time nothing is sent.
  unfoldable pub request_ended :
      ClusterEnv F → PingRequestMessage → ℕ → Option Bool → Exec (Cluster F) Unit
  unfolding stop_waiting forward_indirect_probe_result
  request_ended e msg seq none s = (ok tt, stop_waiting seq s)
  request_ended e msg seq (some result) s = forward_indirect_probe_result e msg (stop_waiting seq s)

  -- `ping` of a node that is not known: `_probe_node(None)` takes a sequence number before it reads the name
  -- of `None`, and `_probe_node_indirect(None, k)` reads it for the first node that is drawn.
  unfoldable pub ping_unknown : ℕ → Bool → Exec (Cluster F) Unit
  ping_unknown k true s =
      if eqb k 0 || eqb (length s.manager.nodes) 0 then (ok tt, s) else (raised attribute_error, s)
  ping_unknown k false s =
      (raised attribute_error, record s { probe_seq = (increment s.probe_seq).1 })

  -- `ping`, until it waits
  unfoldable pub ping_named : ClusterEnv F → (ℕ → ℕ) → ℕ → String → Bool → Exec (Cluster F) Unit
  unfolding ping_unknown probe_node probe_node_indirect
  ping_named e draw k name indirect s = elim (get s.manager.nodes_map name) [
    | none ↦ ping_unknown k indirect s
    | some r ↦ if indirect then (ok tt, probe_node_indirect e draw r k s) else probe_node e r s
  ]
