-- ===== src/Cluster/Waits/Relaying.antt =====
-- An indirect probe of tattle/cluster.py, between three nodes: one asks another to probe a third for it.
use tattle.Prelude.{ℕ, String, ◌≡◌, refl, Bool, true, Option, none, some, arith}
use tattle.Exec.{ok}
use tattle.Sequence.{increment}
use tattle.Messages.{
  Bytes, ping, ping_request, ack, PingMessage, PingRequestMessage, AckMessage, internet_address,
}
use tattle.Cluster.Handling.{
  Cluster, ClusterEnv, send_to, probe_future, probe_node_indirect_via, handle_message,
  handle_ping_request_message, forward_indirect_probe_result, handle_udp_message,
}
use tattle.Cluster.Handling.Sending.{IsSent, send_udp_message-IsSent, resolve_probe-answered}
use tattle.Cluster.Handling.Answering.{ack_of, sent_and_waits, handle_ping-sent}
use tattle.Cluster.Waits.{stop_waiting, request_ended}

-- The request that asks for a probe of a node
abbrev pub request_of : {F : Type 0} → ClusterEnv F → ℕ → Cluster F → PingRequestMessage
request_of e r s = record {
  seq = (increment s.probe_seq).0;
  node = (s.manager.heap r).name;
  node_addr = some (internet_address (s.manager.heap r).host (s.manager.heap r).port);
  sender = some e.local_node_name;
  sender_addr = some (internet_address e.local_node_address e.local_node_port);
}

-- The ping that a node sends on a request
abbrev pub ping_for : {F : Type 0} → ClusterEnv F → PingRequestMessage → Cluster F → PingMessage
ping_for e msg s = record {
  seq = (increment s.probe_seq).0;
  node = msg.node;
  sender = some e.local_node_name;
  sender_addr = some (internet_address e.local_node_address e.local_node_port);
}

-- The answer to a request
abbrev pub forwarded : {F : Type 0} → ClusterEnv F → PingRequestMessage → AckMessage
forwarded e msg = record { seq = msg.seq; sender = some e.local_node_name }

module _ {F : Type 0} (e : ClusterEnv F) where
  -- The request goes to the node that is to probe, and its answer is waited for.
  request-sent :
      (r q : ℕ) (s : Cluster F) (buf : Bytes)
      → e.env.encode (ping_request (request_of e r s)) ≡ ok buf
      → let t = (probe_node_indirect_via e r q s).1 in
        IsSent (s.manager.heap q).host (s.manager.heap q).port buf s.manager.queue s.sent t.sent
        × (probe_future t.probe_status (increment s.probe_seq).0 ≡ some none)
  unfolding probe_node_indirect_via
  request-sent r q s buf h =
      let node = s.manager.heap q in
      let (next_seq, seq) = increment s.probe_seq in
      sent_and_waits e node.host node.port (ping_request (request_of e r s)) buf next_seq
        (record s { probe_seq = seq }) h

  -- A node that handles a request pings the node that it names, at the address that it gives.
  relay-sent :
      (msg : PingRequestMessage) (host : Option String) (port : ℕ) (s : Cluster F) (buf : Bytes)
      → msg.node_addr ≡ some (internet_address host port)
      → e.env.encode (ping (ping_for e msg s)) ≡ ok buf
      → let t = handle_udp_message e (ping_request msg) s in
        IsSent host port buf s.manager.queue s.sent t.sent
        × (probe_future t.probe_status (increment s.probe_seq).0 ≡ some none)
  unfolding handle_udp_message handle_message handle_ping_request_message send_to
  relay-sent msg host port s buf there h =
      let (next_seq, seq) = increment s.probe_seq in
      rw (handle_udp_message, handle_message, handle_ping_request_message, send_to, there)
        (sent_and_waits e host port (ping (ping_for e msg s)) buf next_seq
          (record s { probe_seq = seq }) h)

  -- Behind the wait, an answer is forwarded to the node that asked.
  request_ended-sent :
      (msg : PingRequestMessage) (host : Option String) (port seq : ℕ) (result : Bool)
      (s : Cluster F) (buf : Bytes)
      → msg.sender_addr ≡ some (internet_address host port)
      → e.env.encode (ack (forwarded e msg)) ≡ ok buf
      → IsSent host port buf s.manager.queue s.sent (request_ended e msg seq (some result) s).1.sent
  unfolding request_ended forward_indirect_probe_result send_to stop_waiting
  request_ended-sent msg host port seq result s buf there h =
      rw (forward_indirect_probe_result, send_to, there)
        (send_udp_message-IsSent e host port (ack (forwarded e msg)) buf (stop_waiting seq s) h)

  -- The answer resolves the probe that waits for it.
  ack-resolves :
      (seq : ℕ) (sender : Option String) (s : Cluster F)
      → probe_future s.probe_status seq ≡ some none
      → probe_future
          (handle_udp_message e (ack (record { seq = seq; sender = sender })) s).probe_status
          seq
        ≡ some (some true)
  unfolding handle_udp_message handle_message
  ack-resolves seq sender s waits = ground (arith, resolve_probe-answered s seq seq true, waits)

-- The nodes of an indirect probe: the one that asks, with the node it asks about and the node it asks, the one that
-- probes on request, and the one that is probed.
module _ {F G H : Type 0} (e : ClusterEnv F) (r q : ℕ) (s : Cluster F) (relay : ClusterEnv G)
    (t : Cluster G) (target : ClusterEnv H) (u : Cluster H) where
  abbrev request : PingRequestMessage
  request = request_of e r s

  -- The node that asks, while it waits
  abbrev asking : Cluster F
  asking = (probe_node_indirect_via e r q s).1

  -- The node that probes on request, while it waits, and when it has the answer
  abbrev relaying : Cluster G
  relaying = handle_udp_message relay (ping_request request) t

  abbrev relayed : Cluster G
  relayed = handle_udp_message relay (ack (ack_of target (ping_for relay request t))) relaying

  -- The four datagrams, each to the address of the node that it is meant for, and what becomes of the
  -- two probes: that of the node in between and that of the node that asked
  pub record Relayed (requested pinged acked forwarded_raw : Bytes) : Type 0 where
    pub request_sent :
        IsSent
          (s.manager.heap q).host
          (s.manager.heap q).port
          requested
          s.manager.queue
          s.sent
          asking.sent
    pub ping_sent :
        IsSent
          (s.manager.heap r).host
          (s.manager.heap r).port
          pinged
          t.manager.queue
          t.sent
          relaying.sent
    pub ack_sent :
        IsSent relay.local_node_address relay.local_node_port acked u.manager.queue u.sent
          (handle_udp_message target (ping (ping_for relay request t)) u).sent
    pub relay_answered :
        probe_future relayed.probe_status (increment t.probe_seq).0 ≡ some (some true)
    pub forward_sent :
        IsSent e.local_node_address e.local_node_port forwarded_raw relayed.manager.queue
          relayed.sent
          (request_ended relay request (increment t.probe_seq).0 (some true) relayed).1.sent
    pub answered :
        probe_future
          (handle_udp_message e (ack (forwarded relay request)) asking).probe_status
          (increment s.probe_seq).0
        ≡ some (some true)

  -- An indirect probe goes all the way, where messages can be encoded and the node that is asked about has the
  -- name under which it is known: the request to the node that is asked, its ping to the node at the
  -- address that the first node has of it, the acknowledgement, which resolves the ping, and the
  -- answer to the first node, which resolves the indirect probe as a success.
  pub probe_node_indirect_via-Relayed :
      (requested pinged acked forwarded_raw : Bytes)
      → (s.manager.heap r).name ≡ target.local_node_name
      → e.env.encode (ping_request request) ≡ ok requested
      → relay.env.encode (ping (ping_for relay request t)) ≡ ok pinged
      → target.env.encode (ack (ack_of target (ping_for relay request t))) ≡ ok acked
      → relay.env.encode (ack (forwarded relay request)) ≡ ok forwarded_raw
      → Relayed requested pinged acked forwarded_raw
  probe_node_indirect_via-Relayed requested pinged acked forwarded_raw same h1 h2 h3 h4 =
      let (asked, waits) = request-sent e r q s requested h1 in
      let (pings, relay_waits) =
        relay-sent relay request (s.manager.heap r).host (s.manager.heap r).port t pinged refl h2 in
      record {
        request_sent = asked;
        ping_sent = pings;
        ack_sent =
            handle_ping-sent target (ping_for relay request t) relay.local_node_address
              relay.local_node_port u acked same refl h3;
        relay_answered =
            ack-resolves relay (increment t.probe_seq).0 (some target.local_node_name) relaying
              relay_waits;
        forward_sent =
            request_ended-sent relay request e.local_node_address e.local_node_port
              (increment t.probe_seq).0 true relayed forwarded_raw refl h4;
        answered =
            ack-resolves e (increment s.probe_seq).0 (some relay.local_node_name) asking waits;
      }
