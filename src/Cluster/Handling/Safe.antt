-- ===== src/Cluster/Handling/Safe.antt =====
-- The handlers of datagrams in tattle/cluster.py keep the node manager safe.
use tattle.Prelude.{
  ℕ, String, ◌≡◌, refl, Option-cases, Bool, true, false, Option, none, some, [], length, Bool-cases,
  inl, inr, ◌==◌,
}
use tattle.Prelude.Int.{pos, ◌-ℤ◌}
use tattle.Exec.{modify}
use tattle.Exec.Does.{Does, Does-bind, Result-cases}
use tattle.Sequence.{increment}
use tattle.Messages.{
  Message, ping, ping_request, ack, nack, suspect, dead, alive, sync, user, InternetAddress,
  PingRequestMessage,
}
use tattle.Queue
use tattle.Queue.Invariant.{fetch-IsValid}
use tattle.State.Runs.{
  IsSafe, IsSafe-rest, alive_call-IsSafe, dead_call-IsSafe, suspect_call-IsSafe,
}
use tattle.Cluster.Handling.{
  Cluster, ClusterEnv, calculate_transmit_limit, send_udp_message, send_to, wait_for_probe,
  handle_ping_message, handle_ping_request_message, resolve_probe, probe_future, handle_message,
  handle_udp_message, handle_alive_message, on_manager, probe_node, probe_node_indirect_via,
}

module _ {F : Type 0} (e : ClusterEnv F) (me : String) where
  abbrev pub Keeps : Cluster F → Cluster F → Type 0
  Keeps s t = IsSafe me s.manager → IsSafe me t.manager

  pub send_udp_message-Keeps :
      (host : Option String) (port : ℕ) (message : Message)
      → Does Keeps (send_udp_message e host port message)
  unfolding send_udp_message
  send_udp_message-Keeps host port message = record {
    at = λ s v. elim (Result-cases (e.env.encode message)) [
      | inl (x, h) ↦ rw (h, send_udp_message) v
      | inr (buf, h) ↦
          let limit =
            calculate_transmit_limit e.ceil_log10 (length s.manager.nodes) e.retransmit_multi in
          let room = pos 512 -ℤ pos (length buf) in
          rw (h, send_udp_message)
            (IsSafe-rest me s.manager s.manager.scheduled s.manager.tasks
              (Queue.fetch limit room 0 s.manager.queue).1
              (fetch-IsValid limit room 0 s.manager.queue) v)
    ];
  }

  pub send_to-Keeps :
      (a : Option InternetAddress) (message : Message) → Does Keeps (send_to e a message)
  unfolding send_to
  send_to-Keeps none message = record { at = λ s v. v }
  send_to-Keeps (some a) message = send_udp_message-Keeps _ _ message

  Keeps-trans : (s t u : Cluster F) → Keeps s t → Keeps t u → Keeps s u
  Keeps-trans s t u f g v = g (f v)

  handle_ping_request_message-Keeps :
      (msg : PingRequestMessage) → Does Keeps (handle_ping_request_message e msg)
  unfolding handle_ping_request_message wait_for_probe
  handle_ping_request_message-Keeps msg = record {
    at = λ s v.
        let (next_seq, seq) = increment s.probe_seq in
        (Does-bind Keeps-trans _ (λ u. modify (wait_for_probe next_seq))
            (send_to-Keeps msg.node_addr _) (λ u. record { at = λ t w. w })).at
          (record s { probe_seq = seq }) v;
  }

  resolve_probe-Keeps : (seq : ℕ) (result : Bool) → Does Keeps (resolve_probe seq result)
  unfolding resolve_probe
  resolve_probe-Keeps seq result = record {
    at = λ s v. elim (Option-cases (probe_future s.probe_status seq)) [
      | inl h ↦ rw (h, resolve_probe) v
      | inr (none, h) ↦ rw (h, resolve_probe) v
      | inr (some old, h) ↦ rw (h, resolve_probe) v
    ];
  }

  handle_message-Keeps : (msg : Message) → Does Keeps (handle_message e msg)
  unfolding handle_message handle_alive_message on_manager handle_ping_message resolve_probe
  handle_message-Keeps (alive msg) = record { at = λ s v. cases s v msg.addr refl }
    where
      cases :
          (s : Cluster F)
          → IsSafe me s.manager
          → (a : Option InternetAddress) → msg.addr ≡ a
          → IsSafe me (handle_alive_message e msg s).1.manager
      cases s v none h = rw (h, handle_alive_message) v
      cases s v (some addr) h =
          rw (h, handle_alive_message)
            (alive_call-IsSafe e.env me s.manager v msg.node msg.incarnation _ addr.port
              msg.metadata)
  handle_message-Keeps (suspect msg) = record {
    at = λ s v. suspect_call-IsSafe e.env me s.manager v msg.node msg.incarnation (some []);
  }
  handle_message-Keeps (dead msg) = record {
    at = λ s v. dead_call-IsSafe e.env me s.manager v msg.node msg.incarnation;
  }
  handle_message-Keeps (ping msg) = record {
    at = λ s v. elim (Bool-cases (msg.node == e.local_node_name)) [
      | inl h ↦ rw (h, handle_ping_message) ((send_to-Keeps msg.sender_addr _).at s v)
      | inr h ↦ rw (h, handle_ping_message) v
    ];
  }
  handle_message-Keeps (ping_request msg) = handle_ping_request_message-Keeps msg
  handle_message-Keeps (ack msg) = resolve_probe-Keeps msg.seq true
  handle_message-Keeps (nack msg) = resolve_probe-Keeps msg.seq false
  handle_message-Keeps (user msg) = record { at = λ s v. v }
  handle_message-Keeps (sync states) = record { at = λ s v. v }

  -- Whatever message a datagram brings, and whether its handler returns or raises, the node manager
  -- stays well-formed and not leaving, and it keeps its own node alive.
  pub handle_udp_message-IsSafe :
      (msg : Message) (s : Cluster F)
      → IsSafe me s.manager
      → IsSafe me (handle_udp_message e msg s).manager
  unfolding handle_udp_message
  handle_udp_message-IsSafe msg s v = (handle_message-Keeps msg).at s v

  -- A probe up to its wait
  pub probe_node-Keeps : (r : ℕ) → Does Keeps (probe_node e r)
  unfolding probe_node wait_for_probe
  probe_node-Keeps r = record {
    at = λ s v.
        let (next_seq, seq) = increment s.probe_seq in
        (Does-bind Keeps-trans _ (λ u. modify (wait_for_probe next_seq))
            (send_udp_message-Keeps _ _ _) (λ u. record { at = λ t w. w })).at
          (record s { probe_seq = seq }) v;
  }

  pub probe_node_indirect_via-Keeps :
      (target r : ℕ) → Does Keeps (probe_node_indirect_via e target r)
  unfolding probe_node_indirect_via wait_for_probe
  probe_node_indirect_via-Keeps target r = record {
    at = λ s v.
        let (next_seq, seq) = increment s.probe_seq in
        (Does-bind Keeps-trans _ (λ u. modify (wait_for_probe next_seq))
            (send_udp_message-Keeps _ _ _) (λ u. record { at = λ t w. w })).at
          (record s { probe_seq = seq }) v;
  }
