-- ===== src/Cluster/Handling.antt =====
-- The messages that tattle/cluster.py sends and handles by datagrams, with the gossip that rides on
-- them and the probes that wait for an answer.
pub mod Answering
pub mod Safe
pub mod Sending
use Prim.Native.Nat.{max}
use tattle.Prelude.{
  ℕ, ◌+◌, ◌*◌, String, Bool, true, false, not, Option, none, some, List, [], ◌∷◌, ◌++◌, length, eqb,
  if◌then◌else◌, ◌==◌,
}
use tattle.Prelude.Int.{pos, ◌-ℤ◌}
use tattle.Exec.{
  Exec, Result, ok, raised, attribute_error, invalid_state_error, pass, modify, continue, ◌>>=◌,
  ◌>>◌,
}
use tattle.Sequence.{Sequence, increment}
use tattle.Messages.{
  Message, ping, ping_request, ack, nack, suspect, dead, alive, sync, user, PingMessage,
  PingRequestMessage, AckMessage, RumorMessage, AliveMessage, UserMessage, InternetAddress, Bytes,
  address, internet_address,
}
use tattle.Queue
use tattle.State.Node.{NodeManager, Env}
use tattle.State.Handlers.{on_node_alive, on_node_dead, on_node_suspect}
use tattle.Cluster.Datagrams.{datagram}

-- A `Cluster`: the node manager with its queue, the sequence of probes, the futures of the probes that
-- are waited for, with a result once they are resolved, the datagrams sent so far, and the user
-- messages that were handed to the callback.
pub record Cluster (F : Type 0) : Type 0 where
  pub manager : NodeManager F
  pub probe_seq : Sequence
  pub probe_status : List (ℕ × Option Bool)
  pub sent : List (Option String × ℕ × Bytes)
  pub delivered : List UserMessage

-- What is taken from outside: what the node manager takes, the configuration of the local node, and
-- `math.ceil(math.log10(n))`.
pub record ClusterEnv (F : Type 0) : Type 0 where
  pub env : Env F
  pub local_node_name : String
  pub local_node_address : Option String
  pub local_node_port : ℕ
  pub retransmit_multi : ℕ
  pub ceil_log10 : ℕ → ℕ

abbrev pub calculate_transmit_limit : (ℕ → ℕ) → ℕ → ℕ → ℕ
calculate_transmit_limit ceil_log10 n m = ceil_log10 (n + 1) * m

-- `self._probe_status[seq]`
unfoldable pub probe_future : List (ℕ × Option Bool) → ℕ → Option (Option Bool)
probe_future [] seq = none
probe_future ((n, f) ∷ futures) seq = if eqb n seq then some f else probe_future futures seq

unfoldable pub set_future : List (ℕ × Option Bool) → ℕ → Bool → List (ℕ × Option Bool)
set_future [] seq result = []
set_future ((n, f) ∷ futures) seq result =
    let rest = set_future futures seq result in
    if eqb n seq then (n, some result) ∷ futures else (n, f) ∷ rest

module _ {F : Type 0} where
  -- What a call of the node manager makes of the cluster
  unfoldable pub on_manager : Exec (NodeManager F) Unit → Exec (Cluster F) Unit
  on_manager action s = let (result, t) = action s.manager in (result, record s { manager = t })

  -- `_send_udp_message`: the message, and behind it the gossip that has room. The gossip is decoded again only
  -- for the log; the node has encoded it itself.
  unfoldable pub send_udp_message :
      ClusterEnv F → Option String → ℕ → Message → Exec (Cluster F) Unit
  send_udp_message e host port message s = elim (e.env.encode message) [
    | raised x ↦ (raised x, s)
    | ok buf ↦
        let limit =
          calculate_transmit_limit e.ceil_log10 (length s.manager.nodes) e.retransmit_multi in
        let (gossip, queue) = Queue.fetch limit (pos 512 -ℤ pos (length buf)) 0 s.manager.queue in
        (
          ok tt,
          record s {
            manager = record s.manager { queue = queue };
            sent = s.sent ++ (host, port, datagram (buf ∷ gossip)) ∷ [];
          },
        )
  ]

  -- To an address of a message, which may be `None`.
  unfoldable pub send_to : ClusterEnv F → Option InternetAddress → Message → Exec (Cluster F) Unit
  unfolding send_udp_message
  send_to e none message s = (raised attribute_error, s)
  send_to e (some a) message s = send_udp_message e (address a) a.port message s

  -- `_wait_for_probe`, until it waits
  unfoldable pub wait_for_probe : ℕ → Cluster F → Cluster F
  wait_for_probe seq s = record s { probe_status = (seq, none) ∷ s.probe_status }

  unfoldable pub handle_ping_message : ClusterEnv F → PingMessage → Exec (Cluster F) Unit
  unfolding send_to
  handle_ping_message e msg s =
      if msg.node == e.local_node_name
      then send_to e msg.sender_addr
          (ack (record { seq = msg.seq; sender = some e.local_node_name })) s
      else (ok tt, s)

  -- Until it waits for the answer.
  unfoldable pub handle_ping_request_message :
      ClusterEnv F → PingRequestMessage → Exec (Cluster F) Unit
  unfolding send_to wait_for_probe
  handle_ping_request_message e msg s =
      let (next_seq, seq) = increment s.probe_seq in
      (do
        send_to e msg.node_addr (
            ping (record {
              seq = next_seq;
              node = msg.node;
              sender = some e.local_node_name;
              sender_addr = some (internet_address e.local_node_address e.local_node_port);
            }))
        modify (wait_for_probe next_seq))
        (record s { probe_seq = seq })

  -- The answer to a ping request, once its probe has succeeded
  unfoldable pub forward_indirect_probe_result :
      ClusterEnv F → PingRequestMessage → Exec (Cluster F) Unit
  unfolding send_to
  forward_indirect_probe_result e msg =
      send_to e msg.sender_addr (ack (record { seq = msg.seq; sender = some e.local_node_name }))

  -- `_probe_node`, until it waits for the answer
  unfoldable pub probe_node : ClusterEnv F → ℕ → Exec (Cluster F) Unit
  unfolding send_udp_message wait_for_probe
  probe_node e r s =
      let (next_seq, seq) = increment s.probe_seq in
      let node = s.manager.heap r in
      (do
        send_udp_message e node.host node.port (
            ping (record {
              seq = next_seq;
              node = node.name;
              sender = some e.local_node_name;
              sender_addr = some (internet_address e.local_node_address e.local_node_port);
            }))
        modify (wait_for_probe next_seq))
        (record s { probe_seq = seq })

  -- `_probe_node_indirect_via`, until it waits for the answer
  unfoldable pub probe_node_indirect_via : ClusterEnv F → ℕ → ℕ → Exec (Cluster F) Unit
  unfolding send_udp_message wait_for_probe
  probe_node_indirect_via e target indirect s =
      let (next_seq, seq) = increment s.probe_seq in
      let target_node = s.manager.heap target in
      let indirect_node = s.manager.heap indirect in
      (do
        send_udp_message e indirect_node.host indirect_node.port (
            ping_request (record {
              seq = next_seq;
              node = target_node.name;
              node_addr = some (internet_address target_node.host target_node.port);
              sender = some e.local_node_name;
              sender_addr = some (internet_address e.local_node_address e.local_node_port);
            }))
        modify (wait_for_probe next_seq))
        (record s { probe_seq = seq })

  -- `_handle_ack_message` and `_handle_nack_message`: a future that has a result takes no other.
  unfoldable pub resolve_probe : ℕ → Bool → Exec (Cluster F) Unit
  unfolding probe_future set_future
  resolve_probe seq result s = elim (probe_future s.probe_status seq) [
    | none ↦ (ok tt, s)
    | some none ↦ (ok tt, record s { probe_status = set_future s.probe_status seq result })
    | some (some old) ↦ (raised invalid_state_error, s)
  ]

  unfoldable pub handle_alive_message : ClusterEnv F → AliveMessage → Exec (Cluster F) Unit
  unfolding on_manager on_node_alive
  handle_alive_message e msg s = elim msg.addr [
    | none ↦ (raised attribute_error, s)
    | some addr ↦
        on_manager
          (on_node_alive e.env msg.node msg.incarnation (address addr) addr.port msg.metadata) s
  ]

  abbrev pub handle_suspect_message : ClusterEnv F → RumorMessage → Exec (Cluster F) Unit
  handle_suspect_message e msg =
      on_manager (on_node_suspect e.env msg.node msg.incarnation (some []))

  abbrev pub handle_dead_message : ClusterEnv F → RumorMessage → Exec (Cluster F) Unit
  handle_dead_message e msg = on_manager (on_node_dead e.env msg.node msg.incarnation)

  -- The message is delivered to the callback, if there is one; what that raises is logged.
  abbrev pub handle_user_message : UserMessage → Exec (Cluster F) Unit
  handle_user_message msg s = (ok tt, record s { delivered = s.delivered ++ msg ∷ [] })

  -- What the message type is dispatched to; a sync message is of no known type here.
  unfoldable pub handle_message : ClusterEnv F → Message → Exec (Cluster F) Unit
  unfolding handle_alive_message on_manager on_node_dead on_node_suspect handle_ping_message
      handle_ping_request_message resolve_probe
  handle_message e (alive msg) s = handle_alive_message e msg s
  handle_message e (suspect msg) s = handle_suspect_message e msg s
  handle_message e (dead msg) s = handle_dead_message e msg s
  handle_message e (ping msg) s = handle_ping_message e msg s
  handle_message e (ping_request msg) s = handle_ping_request_message e msg s
  handle_message e (ack msg) s = resolve_probe msg.seq true s
  handle_message e (nack msg) s = resolve_probe msg.seq false s
  handle_message e (user msg) s = handle_user_message msg s
  handle_message e (sync states) s = (ok tt, s)

  -- `_handle_udp_message`: what is raised is logged.
  unfoldable pub handle_udp_message : ClusterEnv F → Message → Cluster F → Cluster F
  unfolding handle_message
  handle_udp_message e msg s = (handle_message e msg s).1
