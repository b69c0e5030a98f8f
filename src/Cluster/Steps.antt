-- ===== src/Cluster/Steps.antt =====
-- A node of tattle/cluster.py at work: whatever its event loop comes to next, one step after the other.
pub mod Safe
use tattle.Prelude.{
  ℕ, String, Bool, true, false, not, Option, none, some, List, [], ◌∷◌, ◌++◌, eqb, filter,
}
use tattle.Exec.{Exec, Result, ok, raised, runtime_error, continue, modify, ◌>>=◌, ◌>>◌}
use tattle.Messages.{Bytes, Message, PingRequestMessage}
use tattle.State.Node.{Timer, NodeManager}
use tattle.State.Handlers.{run_timer, handle_suspect_timer, forget_node}
use tattle.Cluster.Datagrams.{handle_udp_data}
use tattle.Cluster.Probing.{do_probe}
use tattle.Cluster.Exchange.{handle_probe_result, handle_probe_timeout}
use tattle.Cluster.Handling.{Cluster, ClusterEnv, on_manager, handle_udp_message, probe_node}
use tattle.Cluster.Choosing.{probe_node_indirect}
use tattle.Cluster.Waits.{
  probe_answered, probe_timed_out, indirect_ended, request_ended, ping_named,
}
use tattle.Cluster.Joining.{Address, join}
use tattle.Cluster.Connections.{Served, handle_tcp_connection}
use tattle.Cluster.Clients.{Linked, run_sync, send, sync_named, after_connect_loop}

-- The cluster, the position of the probes, and the messages whose tasks have not run yet
pub record Running (F : Type 0) : Type 0 where
  pub linked : Linked F
  pub probe_index : ℕ
  pub pending : List Message

-- What the event loop comes to: a datagram, the task of a message, a connection from outside with what
-- arrives on it, the loop of a connection to a node, the schedules of probes and of syncs, the end of a
-- wait for a probe, a timer of a suspicion and its task, calls of `join`, `send`, `sync` and `forget`, the end
-- of a wait for an indirect probe and for a probe on request, and calls of `ping`.
pub data Step (F : Type 0) : Type 0 where
  datagram_step : Bytes → Step F
  message_step : Step F
  connection_step : List Bytes → Step F
  loop_step : ℕ → Step F
  probe_step : Step F
  answer_step : ℕ → ℕ → Bool → Step F
  timeout_step : ℕ → ℕ → (ℕ → ℕ) → ℕ → Step F
  sync_step : (ℕ → ℕ) → ℕ → (ℕ → Option (List Bytes)) → Step F
  timer_step : Timer F → Step F
  task_step : Step F
  join_step : (connect again : Address → Option (List Bytes)) → List Address → Step F
  send_step : Option (List Bytes) → String → Bytes → Bool → Step F
  sync_with_step : Option (List Bytes) → String → Step F
  forget_step : String → Step F
  indirect_step : ℕ → ℕ → Option Bool → Step F
  request_step : PingRequestMessage → ℕ → Option Bool → Step F
  ping_step : (ℕ → ℕ) → ℕ → String → Bool → Step F

module _ {F : Type 0} where
  abbrev pub on_cluster : (Cluster F → Cluster F) → Running F → Running F
  on_cluster action s = record s { linked = record s.linked { cluster = action s.linked.cluster } }

  abbrev pub on_nodes : Exec (NodeManager F) Unit → Cluster F → Cluster F
  on_nodes action s = record s { manager = (action s.manager).1 }

  -- The probe of the schedule, up to its wait
  unfoldable pub start_probe : ClusterEnv F → Running F → Running F
  unfolding do_probe probe_node
  start_probe e s =
      let (node, index) = do_probe s.linked.cluster.manager s.probe_index in
      let t = record s { probe_index = index } in
      elim node [ none ↦ t | some r ↦ on_cluster (λ c. (probe_node e r c).1) t ]

  -- The task of the first message
  unfoldable pub run_message : ClusterEnv F → List Message → Running F → Running F
  unfolding handle_udp_message
  run_message e [] s = s
  run_message e (m ∷ rest) s = on_cluster (handle_udp_message e m) (record s { pending = rest })

module _ {F : Type 0} (decode : Bytes → Result (Option Message)) where
  unfoldable pub take_step : ClusterEnv F → Step F → Running F → Running F
  unfolding handle_udp_data run_message handle_tcp_connection after_connect_loop start_probe
      probe_answered probe_timed_out run_sync run_timer handle_suspect_timer join send sync_named
      forget_node indirect_ended request_ended ping_named
  take_step e (datagram_step content) s = record s {
    pending = s.pending ++ handle_udp_data decode content;
  }
  take_step e message_step s = run_message e s.pending s
  take_step e (connection_step segments) s =
      on_cluster
        (λ c.
          (handle_tcp_connection e decode
            (record { cluster = c; arriving = segments; written = [] })).cluster)
        s
  take_step e (loop_step r) s = record s { linked = after_connect_loop e decode r s.linked }
  take_step e probe_step s = start_probe e s
  take_step e (answer_step r seq result) s = on_cluster (λ c. (probe_answered e r seq result c).1) s
  take_step e (timeout_step r seq draw k) s =
      on_cluster (λ c. (probe_timed_out e r seq draw k c).1) s
  take_step e (sync_step draw k opened) s = record s { linked = run_sync e draw k opened s.linked }
  take_step e (timer_step timer) s =
      on_cluster (λ c. record c { manager = run_timer timer c.manager }) s
  take_step e task_step s = on_cluster (on_nodes (handle_suspect_timer e.env)) s
  take_step e (join_step connect again addresses) s =
      on_cluster (λ c. (join e decode connect again addresses c).1) s
  take_step e (send_step opened name payload reliable) s = record s {
    linked = (send e opened name payload reliable s.linked).1;
  }
  take_step e (sync_with_step opened name) s = record s {
    linked = (sync_named e opened name s.linked).1;
  }
  take_step e (forget_step name) s = on_cluster (on_nodes (forget_node e.env name)) s
  take_step e (indirect_step r seq result) s =
      on_cluster (λ c. (indirect_ended e r seq result c).1) s
  take_step e (request_step msg seq result) s =
      on_cluster (λ c. (request_ended e msg seq result c).1) s
  take_step e (ping_step draw k name indirect) s =
      on_cluster (λ c. (ping_named e draw k name indirect c).1) s

  unfoldable pub run_steps : List (ClusterEnv F × Step F) → Running F → Running F
  unfolding take_step
  run_steps [] s = s
  run_steps ((e, st) ∷ steps) s = run_steps steps (take_step e st s)
