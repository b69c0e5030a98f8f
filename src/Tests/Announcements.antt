-- ===== src/Tests/Announcements.antt =====
-- What a node of tattle/state.py and tattle/cluster.py tells others: rumors that it passes on, and a probe for another
-- node.
use tattle.Prelude.{ℕ, refl, true, false, some, [], ◌∷◌}
use tattle.Prelude.Dict.{get, put, contains}
use tattle.Messages.{Bytes}
use tattle.Queue
use tattle.State.Handlers.{node_manager, set_local_node, on_node_dead, on_node_suspect, run_timer}
use tattle.State.Announcing.{Announced}
use tattle.State.Announcing.Remote.{rumor-Announced}
use tattle.State.Runs.{run}
use tattle.Cluster.Handling.{ClusterEnv}
use tattle.Cluster.Waits.Relaying.{Relayed, probe_node_indirect_via-Relayed}
use tattle.Tests.Nodes.{env, manager}
use tattle.Tests.Handling.{cluster, cluster_env, manager-IsSafe}

abbrev ten : Bytes
ten = 1 ∷ 2 ∷ 3 ∷ 4 ∷ 5 ∷ 6 ∷ 7 ∷ 8 ∷ 9 ∷ 10 ∷ []

-- The peer is suspect already, so that a new suspicion is told without an event.
rumor-Announced_example :
    Announced "peer" ten
      (record { event = "node.dead"; node = 1 })
      true
      true
      manager
      (on_node_dead env "peer" 4 manager)
    × Announced "peer" ten
        (record { event = "node.suspect"; node = 1 })
        true
        false
        manager
        (on_node_suspect env "peer" 4 (some []) manager)
unfolding run set_local_node node_manager get put contains Queue.push on_node_suspect run_timer
rumor-Announced_example =
    rumor-Announced env "peer" 1 0 4 manager manager-IsSafe.inv refl refl refl refl ten ten [] refl
      refl

-- The local node asks the other node to probe the peer.
abbrev other_env : ClusterEnv ℕ
other_env = record cluster_env { local_node_name = "other" }

abbrev peer_env : ClusterEnv ℕ
peer_env = record cluster_env { local_node_name = "peer" }

probe_node_indirect_via-Relayed_example :
    Relayed cluster_env 1 2 cluster other_env cluster peer_env cluster ten ten ten ten
unfolding run set_local_node node_manager get put contains Queue.push on_node_suspect run_timer
probe_node_indirect_via-Relayed_example =
    probe_node_indirect_via-Relayed cluster_env 1 2 cluster other_env cluster peer_env cluster ten
      ten ten ten refl refl refl refl refl
