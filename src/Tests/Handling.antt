-- ===== src/Tests/Handling.antt =====
-- The handlers of tattle/cluster.py at a cluster with a local node and two peers.
use tattle.Prelude.{ℕ, ◌≡◌, refl, true, none, some, List, [], ◌∷◌}
use tattle.Prelude.Dict.{get, put, contains}
use tattle.Sequence.{sequence}
use tattle.Messages.{Message, RemoteNodeState, ack, internet_address}
use tattle.Queue
use tattle.State.Handlers.{node_manager, set_local_node, on_node_suspect, run_timer}
use tattle.State.Knowledge.{Learns, names_local}
use tattle.State.Runs.{IsSafe, run, run-started-IsSafe}
use tattle.State.Shape.{view}
use tattle.Cluster.Exchange.{local_state, merge_remote_state}
use tattle.Cluster.Exchange.Merging.{hear_state, merge_remote_state-Learns}
use tattle.Cluster.Exchange.Reporting.{reported}
use tattle.Cluster.Handling.{Cluster, ClusterEnv, send_udp_message}
use tattle.Cluster.Handling.Sending.{IsSent, send_udp_message-IsSent}
use tattle.Tests.Nodes.{env, calls, manager}

pub manager-IsSafe : IsSafe "me" manager
manager-IsSafe = run-started-IsSafe env 0 "me" (some "10.0.0.1") 7900 (some []) calls

-- A peer holds the local node for dead and another node for suspect.
abbrev remotes : List RemoteNodeState
remotes =
    record {
      node = "me";
      addr = none;
      version = 1;
      incarnation = 4;
      status = "DEAD";
      metadata = none;
    }
    ∷ record {
      node = "other";
      addr = none;
      version = 1;
      incarnation = 2;
      status = "SUSPECT";
      metadata = some [];
    }
    ∷ []

abbrev accusation : RemoteNodeState
accusation = record {
  node = "peer";
  addr = some (internet_address (some "10.0.0.2") 7900);
  version = 1;
  incarnation = 5;
  status = "ALIVE";
  metadata = some [];
}

merge_remote_state-Learns_example :
    Learns "peer"
      (hear_state accusation
        (names_local manager "peer")
        manager.local_node_seq.next
        (view manager "peer"))
      manager
      (merge_remote_state env accusation manager).1
merge_remote_state-Learns_example =
    merge_remote_state-Learns env accusation manager manager-IsSafe.inv

abbrev pub cluster : Cluster ℕ
cluster = record {
  manager = manager;
  probe_seq = sequence;
  probe_status = (3, none) ∷ (2, some true) ∷ [];
  sent = [];
  delivered = [];
}

abbrev pub cluster_env : ClusterEnv ℕ
cluster_env = record {
  env = env;
  local_node_name = "me";
  local_node_address = some "10.0.0.1";
  local_node_port = 7900;
  retransmit_multi = 4;
  ceil_log10 = λ n. n;
}

abbrev message : Message
message = ack (record { seq = 3; sender = some "peer" })

abbrev ten : List ℕ
ten = 1 ∷ 2 ∷ 3 ∷ 4 ∷ 5 ∷ 6 ∷ 7 ∷ 8 ∷ 9 ∷ 10 ∷ []

send_udp_message-IsSent_example :
    IsSent
      (some "10.0.0.2")
      7900
      ten
      manager.queue
      []
      (send_udp_message cluster_env (some "10.0.0.2") 7900 message cluster).1.sent
send_udp_message-IsSent_example =
    send_udp_message-IsSent cluster_env (some "10.0.0.2") 7900 message ten cluster refl

-- The states of the started cluster as a sync sends them
local_state-peer : reported (local_state manager) "peer" ≡ some ("SUSPECT", 3)
unfolding local_state run set_local_node node_manager get put contains Queue.push on_node_suspect
    run_timer
local_state-peer = refl
