-- ===== src/Tests/Clients.antt =====
-- The connections that a node keeps to others, and a node at work, at the cluster of the handlers.
use tattle.Prelude.{ℕ, ◌≡◌, refl, true, false, none, some, List, [], ◌∷◌, eqb, if◌then◌else◌}
use tattle.Exec.{ok}
use tattle.Messages.{Bytes}
use tattle.State.Runs.{IsSafe}
use tattle.Cluster.Handling.{ClusterEnv}
use tattle.Cluster.Clients.{Connection, not_connected, Linked, send_user_message}
use tattle.Cluster.Clients.Linking.{IsDelivered, written_to, send_user_message-written}
use tattle.Cluster.Steps.{
  Running, Step, datagram_step, message_step, loop_step, probe_step, sync_step, send_step,
  task_step, run_steps,
}
use tattle.Cluster.Steps.Safe.{run_steps-IsSafe}
use tattle.Tests.Clusters.{framed}
use tattle.Tests.Handling.{cluster, cluster_env}
use tattle.Tests.Connections.{newcomer, newcomer-IsSafe, decode}

-- A node that other nodes have not been connected to
abbrev apart : Linked ℕ
apart = record { cluster = cluster; connections = λ q. not_connected }

abbrev ten : Bytes
ten = 1 ∷ 2 ∷ 3 ∷ 4 ∷ 5 ∷ 6 ∷ 7 ∷ 8 ∷ 9 ∷ 10 ∷ []

send_user_message-written_example :
    ((send_user_message cluster_env (some []) 1 (5 ∷ []) true apart).0 ≡ ok tt)
    × ((send_user_message cluster_env (some []) 1 (5 ∷ []) true apart).1.cluster ≡ cluster)
    × IsDelivered [] ten not_connected
        ((send_user_message cluster_env (some []) 1 (5 ∷ []) true apart).1.connections 1)
    × ((q : ℕ)
        → (send_user_message cluster_env (some []) 1 (5 ∷ []) true apart).1.connections q ≡ (
            if eqb q 1
            then (send_user_message cluster_env (some []) 1 (5 ∷ []) true apart).1.connections 1
            else not_connected))
send_user_message-written_example =
    send_user_message-written cluster_env [] 1 (5 ∷ []) true apart ten refl refl

-- The connection closes, and the message is lost.
abbrev closing : Connection
closing = record {
  read_stream = some (record { failed = false; arriving = [] });
  write_stream = some (record { closing = true; written = [] });
  loop = true;
}

lost :
    written_to (
      (send_user_message cluster_env
          (some [])
          1
          (5 ∷ [])
          true
          (record apart { connections = λ q. closing })).1.connections
        1)
    ≡ []
unfolding send_user_message written_to
lost = refl

-- A newcomer is connected to a node that answers a sync.
abbrev answered : Connection
answered = record {
  read_stream = some (record { failed = false; arriving = framed 8 ∷ [] });
  write_stream = some (record { closing = false; written = [] });
  loop = true;
}

abbrev joined : Linked ℕ
joined = record { cluster = record cluster { manager = newcomer }; connections = λ q. answered }

-- A newcomer hears the states of another node, a datagram comes in, and it probes, sends and syncs.
abbrev work : List (ClusterEnv ℕ × Step ℕ)
work =
    (cluster_env, loop_step 1)
    ∷ (cluster_env, datagram_step (framed 5))
    ∷ (cluster_env, message_step)
    ∷ (cluster_env, probe_step)
    ∷ (cluster_env, send_step none "peer" (5 ∷ []) true)
    ∷ (cluster_env, sync_step (λ n. n) 1 (λ r. none))
    ∷ (cluster_env, task_step)
    ∷ []

abbrev running : Running ℕ
running = record { linked = joined; probe_index = 0; pending = [] }

run_steps-IsSafe_example : IsSafe "new" (run_steps decode work running).linked.cluster.manager
run_steps-IsSafe_example = run_steps-IsSafe decode "new" work running newcomer-IsSafe
