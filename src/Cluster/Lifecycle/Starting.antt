-- ===== src/Cluster/Lifecycle/Starting.antt =====
-- What a node of tattle/cluster.py is after `start`, and after `stop`.
use tattle.Prelude.{ℕ, String, ◌≡◌, Bool, true, false, some, none, [], if◌then◌else◌}
use tattle.Exec.{Result, ok, raised, ◌>>◌}
use tattle.Messages.{Message, internet_address}
use tattle.Network.Addresses.{Machine}
use tattle.Network.Receiving
use tattle.Network.Receiving.Reading.{Waiting}
use tattle.Schedule
use tattle.Schedule.Ending.{Dead}
use tattle.Network.{cancelled}
use tattle.Cluster.Clients.{connected}
use tattle.Configuration.{Configuration, local_node_port}
use tattle.Queue
use tattle.State.Node.{Env}
use tattle.State.Runs.{IsSafe, started}
use tattle.Cluster.Lifecycle.{ClusterNode, init_node, set_up_local, start_schedules, start, stop}

module _ {F : Type 0} where
  -- The listeners run, and the schedules have been started, each with a task that sleeps, or not.
  pub record IsUp (schedules : Bool) (s : ClusterNode F) : Type 0 where
    pub listener : Waiting 0 s.udp_listener
    pub serving : s.server ≡ some true
    pub probing : s.probe_schedule.started ≡ schedules
    pub syncing : s.sync_schedule.started ≡ schedules
    pub probe_task : s.probe_schedule.task ≡ (if schedules then some Schedule.sleeping else none)
    pub sync_task : s.sync_schedule.task ≡ (if schedules then some Schedule.sleeping else none)

  -- Nothing runs any more: the socket of the listener is closed and its read cancelled, the server is
  -- closed, the schedules are stopped and have no task that sleeps or waits, and no node is connected or
  -- has a loop.
  pub record IsDown (s : ClusterNode F) : Type 0 where
    pub unlistened : s.udp_listener.closed ≡ true
    pub unread : s.udp_listener.futures 0 ≡ cancelled
    pub unserved : s.server ≡ some false
    pub unprobed : s.probe_schedule.started ≡ false
    pub unsynced : s.sync_schedule.started ≡ false
    pub no_probe : Dead s.probe_schedule.task
    pub no_sync : Dead s.sync_schedule.task
    pub unconnected :
        (r : ℕ)
        → (connected (s.linked.connections r) ≡ false) × ((s.linked.connections r).loop ≡ false)

  -- What comes of `start` and of `stop` behind it, by the address that the node finds for itself
  abbrev pub StartsAs : String → Result String → Result (Unit {0}) × ClusterNode F → Type 0
  StartsAs name (ok address) o =
      (o.0 ≡ ok tt)
      × IsSafe name o.1.linked.cluster.manager
      × IsUp true o.1
      × ((stop o.1).0 ≡ ok tt)
      × IsDown (stop o.1).1
  StartsAs name (raised x) o =
      (o.0 ≡ raised x)
      × (o.1.linked ≡ init_node.linked)
      × IsUp false o.1
      × ((stop o.1).0 ≡ ok tt)
      × IsDown (stop o.1).1

module _ {F : Type 0} (e : Env F) (m : Machine) (c : Configuration F) (listening : String)
    (listening_port : ℕ) where
  -- The listeners run.
  abbrev listening_node : ClusterNode F
  listening_node = record init_node {
    udp_listener = Receiving.start 1024 Receiving.blocked (Receiving.new_listener []);
    server = some true;
  }

  abbrev rest_of_start : Result String → Result (Unit {0}) × ClusterNode F
  rest_of_start address =
      (do set_up_local e c listening_port address; start_schedules) listening_node

  -- The node with its own entry, and with its schedules started
  abbrev set_node : String → ClusterNode F
  set_node address =
      let s = listening_node in
      record s {
        linked = record s.linked {
          cluster = record s.linked.cluster {
            manager =
                started e 0 c.node_name (some address) (local_node_port listening_port c) (some []);
          };
        };
      }

  abbrev started_node : String → ClusterNode F
  started_node address = record (set_node address) {
    probe_schedule = Schedule.start false (Schedule.scheduled_callback tt);
    sync_schedule = Schedule.start false (Schedule.scheduled_callback tt);
  }

  -- The message that the node is alive
  abbrev pub first_alive : String → Message
  first_alive address = Message.alive (record {
    node = c.node_name;
    addr = some (internet_address (some address) (local_node_port listening_port c));
    incarnation = 1;
    metadata = some [];
  })
