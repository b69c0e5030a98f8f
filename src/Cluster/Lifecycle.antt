-- ===== src/Cluster/Lifecycle.antt =====
-- `start`, `stop` and `leave` of tattle/cluster.py, with the listeners and the schedules that they start and stop.
pub mod Starting
use tattle.Prelude.{
  ℕ, String, Bool, true, false, not, Option, none, some, List, [], ◌∷◌, eqb, count, ltb,
  if◌then◌else◌,
}
use tattle.Exec.{Exec, Result, ok, raised, os_error, attribute_error, continue, ◌>>=◌, ◌>>◌}
use tattle.Messages.{Message, Metadata}
use tattle.Network.Addresses.{Machine}
use tattle.Network.Receiving
use tattle.Network.Receiving.{UdpListener}
use tattle.Schedule
use tattle.Schedule.{ScheduledCallback}
use tattle.Configuration.{Configuration, local_node_address, local_node_port}
use tattle.State.Node.{NodeManager, Env}
use tattle.State.Manager.{local_ref}
use tattle.State.Handlers.{node_manager, set_local_node, leave_local_node}
use tattle.Queue
use tattle.Sequence.{sequence}
use tattle.Cluster.Clients.{Linked, not_connected, close}

-- A node with its listeners and schedules; of the TCP server, whether it was started and is not closed.
pub record ClusterNode (F : Type 0) : Type 0 where
  pub linked : Linked F
  pub udp_listener : UdpListener (List Message) (Unit {0})
  pub server : Option Bool
  pub probe_schedule : ScheduledCallback (Unit {0})
  pub sync_schedule : ScheduledCallback (Unit {0})
  pub metadata : Metadata

module _ {F : Type 0} where
  -- `Cluster(config)`, where no node is connected
  abbrev pub init_node : ClusterNode F
  init_node = record {
    linked = record {
      cluster = record {
        manager = node_manager (Queue.empty 0);
        probe_seq = sequence;
        probe_status = [];
        sent = [];
        delivered = [];
      };
      connections = λ r. not_connected;
    };
    udp_listener = Receiving.new_listener [];
    server = none;
    probe_schedule = Schedule.scheduled_callback tt;
    sync_schedule = Schedule.scheduled_callback tt;
    metadata = [];
  }

  -- What the actions of the parts are to the node
  unfoldable pub on_udp_listener :
      Exec (UdpListener (List Message) (Unit {0})) (Unit {0}) → Exec (ClusterNode F) Unit
  on_udp_listener action s =
      let (result, t) = action s.udp_listener in (result, record s { udp_listener = t })

  unfoldable pub on_probe_schedule :
      Exec (ScheduledCallback (Unit {0})) (Unit {0}) → Exec (ClusterNode F) Unit
  on_probe_schedule action s =
      let (result, t) = action s.probe_schedule in (result, record s { probe_schedule = t })

  unfoldable pub on_sync_schedule :
      Exec (ScheduledCallback (Unit {0})) (Unit {0}) → Exec (ClusterNode F) Unit
  on_sync_schedule action s =
      let (result, t) = action s.sync_schedule in (result, record s { sync_schedule = t })

  unfoldable pub on_node_manager : Exec (NodeManager F) Unit → Exec (ClusterNode F) Unit
  on_node_manager action s =
      let (result, t) = action s.linked.cluster.manager in
      (
        result,
        record s { linked = record s.linked { cluster = record s.linked.cluster { manager = t } } },
      )

  -- `TCPListener.start`, where `asyncio.start_server` starts a server or raises, and `TCPListener.stop`
  unfoldable pub start_server : Bool → Exec (ClusterNode F) Unit
  start_server true s = (ok tt, record s { server = some true })
  start_server false s = (raised os_error, s)

  unfoldable pub stop_server : Option Bool → Exec (ClusterNode F) Unit
  stop_server none s = (raised attribute_error, s)
  stop_server (some serving) s = (ok tt, record s { server = some false })

  -- `local_metadata`
  unfoldable pub local_metadata : ClusterNode F → Metadata
  unfolding local_ref
  local_metadata s = elim (local_ref s.linked.cluster.manager) [
    | none ↦ s.metadata
    | some l ↦ (s.linked.cluster.manager.heap l).metadata
  ]

  -- The local node is set up with the address that was found.
  unfoldable pub set_up_local :
      Env F → Configuration F → ℕ → Result String → Exec (ClusterNode F) Unit
  unfolding on_node_manager set_local_node local_metadata local_node_port
  set_up_local e c listening_port (raised x) s = (raised x, s)
  set_up_local e c listening_port (ok address) s =
      on_node_manager
        (set_local_node e c.node_name (some address) (local_node_port listening_port c)
          (some (local_metadata s)))
        s

  unfoldable pub start_schedules : Exec (ClusterNode F) Unit
  unfolding on_probe_schedule on_sync_schedule Schedule.start
  start_schedules = do
    on_probe_schedule (λ t. (ok tt, Schedule.start t.started t))
    on_sync_schedule (λ t. (ok tt, Schedule.start t.started t))

  -- `start`: `listening` and `listening_port` are those of the UDP listener.
  unfoldable pub start :
      Env F
      → Machine
      → Configuration F
      → String
      → ℕ
      → Receiving.Outcome
      → Bool
      → Exec (ClusterNode F) Unit
  unfolding on_udp_listener start_server local_node_address set_up_local start_schedules
  start e m c listening listening_port outcome opened = do
    on_udp_listener (λ t. (ok tt, Receiving.start 1024 outcome t))
    start_server opened
    set_up_local e c listening_port (local_node_address m listening c)
    start_schedules

  -- `node.close()` of every member
  unfoldable pub close_members : Exec (ClusterNode F) Unit
  unfolding close
  close_members s = (
    ok tt,
    record s {
      linked = record s.linked {
        connections = λ r.
            let there = ltb 0 (count r s.linked.cluster.manager.nodes) in
            if there then close (s.linked.connections r) else s.linked.connections r;
      };
    },
  )

  -- `stop`
  unfoldable pub stop : Exec (ClusterNode F) Unit
  unfolding on_probe_schedule on_sync_schedule Schedule.stop close_members stop_server
      on_udp_listener Receiving.stop
  stop = do
    on_probe_schedule (λ t. Schedule.stop t.started t)
    on_sync_schedule (λ t. Schedule.stop t.started t)
    close_members
    λ s. stop_server s.server s
    on_udp_listener (λ t. Receiving.stop t.task t)

  -- `leave`
  unfoldable pub leave : Env F → Exec (ClusterNode F) Unit
  unfolding on_node_manager leave_local_node
  leave e = on_node_manager (leave_local_node e)
