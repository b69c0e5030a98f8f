-- ===== src/Cluster/Steps/Safe.antt =====
-- Whatever a node of tattle/cluster.py comes to, it stays sound.
use tattle.Prelude.{
  ℕ, String, Bool, not, ◌||◌, Option, List, [], ◌∷◌, ◌++◌, eqb, ltb, length, filter, Bool-cases,
  Option-cases, inl, inr,
}
use tattle.Prelude.Dict.{get}
use tattle.Exec.{Exec, Result, ok, raised, os_error}
use tattle.Exec.Does.{Does, Does-bind, Result-cases}
use tattle.Messages.{Bytes, Message, sync}
use tattle.State.Node.{Timer}
use tattle.State.Handlers.{run_timer}
use tattle.State.Runs.{IsSafe, IsSafe-rest, task_call-IsSafe, forget_call-IsSafe}
use tattle.Cluster.Probing.{do_probe}
use tattle.Cluster.Exchange.{local_state}
use tattle.Cluster.Handling.{ClusterEnv, on_manager}
use tattle.Cluster.Handling.Safe.{
  send_udp_message-Keeps, probe_node-Keeps, handle_udp_message-IsSafe,
}
use tattle.Cluster.Choosing.{do_sync}
use tattle.Cluster.Joining.Failing.{join-IsSafe}
use tattle.Cluster.Connections.Safe.{handle_tcp_connection-IsSafe}
use tattle.Cluster.Clients.{
  Connection, Linked, on_connection, ensure_connected, send_to_node, send_state_to, except_io_error,
  sync_node, run_sync, send_datagram, send_user_message, send, sync_named,
}
use tattle.Cluster.Clients.Listening.{after_connect_loop-IsSafe}
use tattle.Cluster.Steps.{
  Running, Step, datagram_step, message_step, connection_step, loop_step, probe_step, answer_step,
  timeout_step, sync_step, timer_step, task_step, join_step, send_step, sync_with_step, forget_step,
  start_probe, run_message, take_step, run_steps, indirect_step, request_step, ping_step,
}
use tattle.Cluster.Waits.{stop_waiting, probe_answered}
use tattle.Cluster.Waits.Safe.{
  handle_probe_result-IsSafe, probe_timed_out-Keeps, indirect_ended-Keeps, request_ended-Keeps,
  ping_named-Keeps,
}

module _ {F : Type 0} (e : ClusterEnv F) (me : String) where
  -- What goes by a connection leaves the cluster as it is, or keeps it sound.
  abbrev Stays : Linked F → Linked F → Type 0
  Stays s t = IsSafe me s.cluster.manager → IsSafe me t.cluster.manager

  Stays-trans : (s t u : Linked F) → Stays s t → Stays t u → Stays s u
  Stays-trans s t u f g v = g (f v)

  on_connection-Stays :
      (r : ℕ) (action : Exec Connection Unit) → Does Stays (on_connection r action)
  unfolding on_connection
  on_connection-Stays r action = record { at = λ s v. v }

  send_to_node-Stays : (m : Message) (r : ℕ) → Does Stays (send_to_node e m r)
  unfolding send_to_node on_connection
  send_to_node-Stays m r = record {
    at = λ s v. elim (Result-cases (e.env.encode m)) [
      | inl (x, h) ↦ rw (send_to_node, h) v
      | inr (buf, h) ↦ rw (send_to_node, h) v
    ];
  }

  except_io_error-Stays :
      (s : Linked F) (o : Result (Unit {0}) × Linked F)
      → Stays s o.1
      → Stays s (except_io_error o).1
  except_io_error-Stays s (ok u, t) h = h
  except_io_error-Stays s (raised os_error, t) h = h
  except_io_error-Stays s (raised x, t) h = h

  sync_node-Stays : (opened : Option (List Bytes)) (r : ℕ) → Does Stays (sync_node e opened r)
  unfolding sync_node send_state_to
  sync_node-Stays opened r = record {
    at = λ s. except_io_error-Stays s (send_state_to e opened r s) (
        (Does-bind Stays-trans (on_connection r (ensure_connected opened)) _
            (on_connection-Stays r (ensure_connected opened))
            (λ u. record {
              at = λ t. (send_to_node-Stays (sync (local_state t.cluster.manager)) r).at t;
            })).at
          s);
  }

  send_user_message-Stays :
      (opened : Option (List Bytes)) (r : ℕ) (payload : Bytes) (reliable : Bool)
      → Does Stays (send_user_message e opened r payload reliable)
  unfolding send_user_message send_datagram
  send_user_message-Stays opened r payload reliable = record {
    at = λ s. elim (Bool-cases (reliable || ltb 1000 (length payload))) [
      | inl h ↦
          rw (send_user_message, h)
            ((Does-bind Stays-trans (on_connection r (ensure_connected opened)) _
                (on_connection-Stays r (ensure_connected opened)) (λ u. send_to_node-Stays _ r)).at
              s)
      | inr h ↦
          rw (send_user_message, h)
            ((send_udp_message-Keeps e me (s.cluster.manager.heap r).host
                (s.cluster.manager.heap r).port _).at
              s.cluster)
    ];
  }

  send-Stays :
      (opened : Option (List Bytes)) (name : String) (payload : Bytes) (reliable : Bool)
      → Does Stays (send e opened name payload reliable)
  unfolding send
  send-Stays opened name payload reliable = record {
    at = λ s v. elim (Option-cases (get s.cluster.manager.nodes_map name)) [
      | inl h ↦ rw (send, h) v
      | inr (r, h) ↦ rw (send, h) ((send_user_message-Stays opened r payload reliable).at s v)
    ];
  }

  sync_named-Stays :
      (opened : Option (List Bytes)) (name : String) → Does Stays (sync_named e opened name)
  unfolding sync_named
  sync_named-Stays opened name = record {
    at = λ s v. elim (Option-cases (get s.cluster.manager.nodes_map name)) [
      | inl h ↦ rw (sync_named, h) v
      | inr (r, h) ↦ rw (sync_named, h) ((sync_node-Stays opened r).at s v)
    ];
  }

  run_sync-Stays :
      (draw : ℕ → ℕ) (k : ℕ) (opened : ℕ → Option (List Bytes)) (s : Linked F)
      → Stays s (run_sync e draw k opened s)
  unfolding run_sync
  run_sync-Stays draw k opened s v =
      elim (Option-cases (do_sync s.cluster.manager draw k e.local_node_name)) [
        | inl h ↦ rw (run_sync, h) v
        | inr (r, h) ↦ rw (run_sync, h) ((sync_node-Stays (opened r) r).at s v)
      ]

  start_probe-IsSafe :
      (s : Running F)
      → IsSafe me s.linked.cluster.manager
      → IsSafe me (start_probe e s).linked.cluster.manager
  unfolding start_probe
  start_probe-IsSafe s v = elim (Option-cases (do_probe s.linked.cluster.manager s.probe_index).0) [
    | inl h ↦ rw (start_probe, h) v
    | inr (r, h) ↦ rw (start_probe, h) ((probe_node-Keeps e me r).at s.linked.cluster v)
  ]

  run_message-IsSafe :
      (ms : List Message) (s : Running F)
      → IsSafe me s.linked.cluster.manager
      → IsSafe me (run_message e ms s).linked.cluster.manager
  unfolding run_message
  run_message-IsSafe [] s v = v
  run_message-IsSafe (m ∷ ms) s v = handle_udp_message-IsSafe e me m s.linked.cluster v

module _ {F : Type 0} (decode : Bytes → Result (Option Message)) (me : String) where
  take_step-IsSafe :
      (e : ClusterEnv F) (st : Step F) (s : Running F)
      → IsSafe me s.linked.cluster.manager
      → IsSafe me (take_step decode e st s).linked.cluster.manager
  unfolding take_step probe_answered on_manager stop_waiting run_timer
  take_step-IsSafe e (datagram_step content) s v = v
  take_step-IsSafe e message_step s v = run_message-IsSafe e me s.pending s v
  take_step-IsSafe e (connection_step segments) s v =
      handle_tcp_connection-IsSafe e me decode
        (record { cluster = s.linked.cluster; arriving = segments; written = [] }) v
  take_step-IsSafe e (loop_step r) s v = after_connect_loop-IsSafe e decode me r s.linked v
  take_step-IsSafe e probe_step s v = start_probe-IsSafe e me s v
  take_step-IsSafe e (answer_step r seq result) s v =
      handle_probe_result-IsSafe e me r result s.linked.cluster.manager v
  take_step-IsSafe e (timeout_step r seq draw k) s v =
      probe_timed_out-Keeps e me r seq draw k s.linked.cluster v
  take_step-IsSafe e (sync_step draw k opened) s v = run_sync-Stays e me draw k opened s.linked v
  take_step-IsSafe e (timer_step timer) s v =
      let m = s.linked.cluster.manager in
      IsSafe-rest me m (filter (λ (t : Timer F). not (eqb t.id timer.id)) m.scheduled)
        (m.tasks ++ timer.node ∷ []) m.queue (λ q. q) v
  take_step-IsSafe e task_step s v = task_call-IsSafe e.env me s.linked.cluster.manager v
  take_step-IsSafe e (join_step connect again addresses) s v =
      join-IsSafe e decode me connect again addresses s.linked.cluster v
  take_step-IsSafe e (send_step opened name payload reliable) s v =
      (send-Stays e me opened name payload reliable).at s.linked v
  take_step-IsSafe e (sync_with_step opened name) s v =
      (sync_named-Stays e me opened name).at s.linked v
  take_step-IsSafe e (forget_step name) s v =
      forget_call-IsSafe e.env me s.linked.cluster.manager v name
  take_step-IsSafe e (indirect_step r seq result) s v =
      indirect_ended-Keeps e me r seq result s.linked.cluster v
  take_step-IsSafe e (request_step msg seq result) s v =
      request_ended-Keeps e me msg seq result s.linked.cluster v
  take_step-IsSafe e (ping_step draw k name indirect) s v =
      ping_named-Keeps e me draw k name indirect s.linked.cluster v

  -- A node that is sound at first stays so, whatever its event loop comes to, in whatever order: datagrams
  -- and connections with whatever arrives on them, probes, syncs, joins, sends, pings, timers and forgets, whether
  -- they return or raise. Its manager is well-formed, and it holds its own node for alive.
  pub run_steps-IsSafe :
      (steps : List (ClusterEnv F × Step F)) (s : Running F)
      → IsSafe me s.linked.cluster.manager
      → IsSafe me (run_steps decode steps s).linked.cluster.manager
  unfolding run_steps
  run_steps-IsSafe [] s v = v
  run_steps-IsSafe ((e, st) ∷ steps) s v =
      run_steps-IsSafe steps (take_step decode e st s) (take_step-IsSafe e st s v)
