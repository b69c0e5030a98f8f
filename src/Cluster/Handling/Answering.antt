-- ===== src/Cluster/Handling/Answering.antt =====
-- A probe of tattle/cluster.py from the ping to the acknowledgement, between two nodes.
use tattle.Prelude.{ℕ, ◌≡◌, refl, ap, true, Option, none, some, eq_iff, String, arith}
use tattle.Exec.{ok, modify, ◌>>◌}
use tattle.Exec.Does.{bind-returns}
use tattle.Sequence.{increment}
use tattle.Messages.{Bytes, Message, ping, ack, PingMessage, AckMessage, internet_address}
use tattle.Cluster.Handling.{
  Cluster, ClusterEnv, send_udp_message, send_to, wait_for_probe, probe_future, probe_node,
  handle_ping_message, handle_message, handle_udp_message,
}
use tattle.Cluster.Handling.Sending.{IsSent, send_udp_message-IsSent, resolve_probe-answered}

-- The ping that a probe sends
abbrev pub ping_of : {F : Type 0} → ClusterEnv F → ℕ → Cluster F → PingMessage
ping_of e r s = record {
  seq = (increment s.probe_seq).0;
  node = (s.manager.heap r).name;
  sender = some e.local_node_name;
  sender_addr = some (internet_address e.local_node_address e.local_node_port);
}

-- The answer of a node to a ping
abbrev pub ack_of : {F : Type 0} → ClusterEnv F → PingMessage → AckMessage
ack_of e msg = record { seq = msg.seq; sender = some e.local_node_name }

module _ {F : Type 0} (e : ClusterEnv F) where
  send_udp_message-returns :
      (host : Option String) (port : ℕ) (message : Message) (buf : Bytes) (s : Cluster F)
      → e.env.encode message ≡ ok buf
      → (send_udp_message e host port message s).0 ≡ ok tt
  unfolding send_udp_message
  send_udp_message-returns host port message buf s h = rw (h, send_udp_message) refl

  -- A message that is sent before the wait for its answer begins
  pub sent_and_waits :
      (host : Option String) (port : ℕ) (message : Message) (buf : Bytes) (seq : ℕ) (s : Cluster F)
      → e.env.encode message ≡ ok buf
      → let t = ((do send_udp_message e host port message; modify (wait_for_probe seq)) s).1 in
        IsSent host port buf s.manager.queue s.sent t.sent
        × (probe_future t.probe_status seq ≡ some none)
  unfolding wait_for_probe probe_future
  sent_and_waits host port message buf seq s h =
      let send = send_udp_message e host port message in
      let returned : send s ≡ (ok tt, (send s).1) =
        ap (λ x. (x, (send s).1)) (send_udp_message-returns host port message buf s h) in
      let waits = bind-returns send (λ v. modify (wait_for_probe seq)) s (send s).1 tt returned in
      rw waits (send_udp_message-IsSent e host port message buf s h, ground arith)

  -- A probe sends the ping, and waits for its answer behind that.
  probe_node-sent :
      (r : ℕ) (s : Cluster F) (buf : Bytes)
      → e.env.encode (ping (ping_of e r s)) ≡ ok buf
      → IsSent
          (s.manager.heap r).host
          (s.manager.heap r).port
          buf
          s.manager.queue
          s.sent
          (probe_node e r s).1.sent
        × (probe_future (probe_node e r s).1.probe_status (increment s.probe_seq).0 ≡ some none)
  unfolding probe_node
  probe_node-sent r s buf h =
      let node = s.manager.heap r in
      let (next_seq, seq) = increment s.probe_seq in
      sent_and_waits node.host node.port (ping (ping_of e r s)) buf next_seq
        (record s { probe_seq = seq }) h

  handle_ping_message-eq :
      (msg : PingMessage) (host : Option String) (port : ℕ) (s : Cluster F)
      → msg.node ≡ e.local_node_name
      → msg.sender_addr ≡ some (internet_address host port)
      → handle_ping_message e msg s ≡ send_udp_message e host port (ack (ack_of e msg)) s
  unfolding handle_ping_message send_to
  handle_ping_message-eq msg host port s same there =
      rw (handle_ping_message, (eq_iff msg.node e.local_node_name).1 same, there) refl

  -- A node answers a ping that names it, to the address that the ping gives.
  pub handle_ping-sent :
      (msg : PingMessage) (host : Option String) (port : ℕ) (s : Cluster F) (buf : Bytes)
      → msg.node ≡ e.local_node_name
      → msg.sender_addr ≡ some (internet_address host port)
      → e.env.encode (ack (ack_of e msg)) ≡ ok buf
      → IsSent host port buf s.manager.queue s.sent (handle_udp_message e (ping msg) s).sent
  unfolding handle_udp_message handle_message
  handle_ping-sent msg host port s buf same there h =
      rw (handle_message, handle_udp_message, handle_ping_message-eq msg host port s same there)
        (send_udp_message-IsSent e host port (ack (ack_of e msg)) buf s h)

-- A probe of a node goes from the ping to the acknowledgement. The first node sends the ping to the
-- address it has of the node. The node of that name that handles the ping answers to the address of the
-- first node. When the first node handles that answer, the probe is resolved as a success. Messages can be
-- encoded here.
pub probe_node-answered :
    {F G : Type 0} (e : ClusterEnv F) (peer : ClusterEnv G) (r : ℕ) (s : Cluster F) (t : Cluster G)
    (ping_raw ack_raw : Bytes)
    → (s.manager.heap r).name ≡ peer.local_node_name
    → e.env.encode (ping (ping_of e r s)) ≡ ok ping_raw
    → peer.env.encode (ack (ack_of peer (ping_of e r s))) ≡ ok ack_raw
    → IsSent
        (s.manager.heap r).host
        (s.manager.heap r).port
        ping_raw
        s.manager.queue
        s.sent
        (probe_node e r s).1.sent
      × IsSent e.local_node_address e.local_node_port ack_raw t.manager.queue t.sent
          (handle_udp_message peer (ping (ping_of e r s)) t).sent
      × (probe_future
            (handle_udp_message e
              (ack (ack_of peer (ping_of e r s)))
              (probe_node e r s).1).probe_status
            (increment s.probe_seq).0
          ≡ some (some true))
unfolding handle_udp_message handle_message
probe_node-answered e peer r s t ping_raw ack_raw same h k =
    let seq = (increment s.probe_seq).0 in
    let (sent, waits) = probe_node-sent e r s ping_raw h in
    let resolved = resolve_probe-answered (probe_node e r s).1 seq seq true in
    (
      sent,
      handle_ping-sent peer (ping_of e r s) e.local_node_address e.local_node_port t ack_raw same
          refl k,
      ground (arith, resolved, waits),
    )
