-- ===== src/Tests/Connections.antt =====
-- TCP connections of tattle/cluster.py with frames of eleven bytes, and a round of probes.
use tattle.Prelude.{
  ℕ, ◌≡◌, refl, true, false, Option, none, some, List, [], ◌∷◌, ◌++◌, arith, get_or, take, drop,
  eqb, count, ◌<◌, length, ◌==◌, if◌then◌else◌,
}
use tattle.Prelude.Dict.{get, put, contains}
use tattle.Exec.{Result, ok, raised, message_decode_error}
use tattle.Messages.{Bytes, Message, sync, user, ping, ack}
use tattle.Messages.Wire.{unpack_header}
use tattle.Queue
use tattle.State.Node.{alive, NodeManager}
use tattle.State.Handlers.{node_manager, set_local_node, on_node_suspect, run_timer}
use tattle.State.Rumors.{Older}
use tattle.State.Runs.{IsSafe, run, started, run-started-IsSafe}
use tattle.State.Shape.{view}
use tattle.Cluster.Streams.{decode_message}
use tattle.Cluster.Exchange.{local_state, merge_remote_states}
use tattle.Cluster.Probing.{skips}
use tattle.Cluster.Rounds.{probed, probed_all}
use tattle.Cluster.Connections.{
  Served, put_back, read_tcp_message, handle_tcp_connection, sync_host, handle_tcp_message,
}
use tattle.Cluster.Connections.Reading.{read_tcp_message-segment}
use tattle.Cluster.Connections.Serving.{Whole, handle_each, handle_tcp_connection-Whole}
use tattle.Cluster.Connections.Syncing.{sync_host-spreads, handle_tcp_message-answers}
use tattle.Cluster.Choosing.{may_probe, probe_node_indirect}
use tattle.Cluster.Choosing.Requests.{Sends, GoesTo, probe_node_indirect-Sends}
use tattle.Cluster.Joining.{Address, hosts_again}
use tattle.Cluster.Handling.{probe_node, probe_future, handle_udp_message}
use tattle.Cluster.Handling.Sending.{IsSent}
use tattle.Cluster.Handling.Answering.{ping_of, ack_of, probe_node-answered}
use tattle.Sequence.{increment}
use tattle.Tests.Nodes.{env, manager}
use tattle.Tests.Clusters.{framed, framed-IsFrame}
use tattle.Tests.Handling.{cluster, cluster_env, manager-IsSafe}

-- A node that has heard of nothing but itself
abbrev pub newcomer : NodeManager ℕ
newcomer = run [] (started env 0 "new" (some "10.0.0.7") 7900 (some []))

pub newcomer-IsSafe : IsSafe "new" newcomer
newcomer-IsSafe = run-started-IsSafe env 0 "new" (some "10.0.0.7") 7900 (some []) []

-- The body is the message: 7 cannot be decoded, 8 is the sync of the started cluster, and the others are
-- messages of a user.
abbrev pub decode : Bytes → Result (Option Message)
decode buf = elim (eqb (get_or buf 9 0) 7) [
  | true ↦ raised message_decode_error
  | false ↦ elim (eqb (get_or buf 9 0) 8) [
    | true ↦ ok (some (sync (local_state manager)))
    | false ↦ ok (some (user (record { payload = get_or buf 9 0 ∷ []; sender = none })))
  ]
]

-- Three frames, of which two come in one segment
abbrev pub served : Served ℕ
served = record {
  cluster = record cluster { manager = newcomer };
  arriving = (framed 5 ++ framed 7) ∷ framed 8 ∷ [];
  written = [];
}

served-Whole :
    Whole decode
      (framed 5 ∷ framed 7 ∷ framed 8 ∷ [])
      (some (user (record { payload = 5 ∷ []; sender = none }))
        ∷ none
        ∷ some (sync (local_state manager))
        ∷ [])
      served.arriving
unfolding decode_message
served-Whole = (
  framed 7,
  framed 8 ∷ [],
  refl,
  framed-IsFrame 5,
  refl,
  ([], framed 8 ∷ [], refl, framed-IsFrame 7, refl, ([], [], refl, framed-IsFrame 8, refl, refl)),
)

handle_tcp_connection-Whole_example :
    handle_tcp_connection cluster_env decode served
    ≡ record (handle_each
        (handle_tcp_message cluster_env)
        (user (record { payload = 5 ∷ []; sender = none }) ∷ sync (local_state manager) ∷ [])
        served) { arriving = [] }
handle_tcp_connection-Whole_example =
    handle_tcp_connection-Whole cluster_env decode (framed 5 ∷ framed 7 ∷ framed 8 ∷ [])
      (some (user (record { payload = 5 ∷ []; sender = none }))
        ∷ none
        ∷ some (sync (local_state manager))
        ∷ [])
      served served-Whole

head_header : unpack_header (take 9 (take 10 (framed 5))) ≡ ok (11, 0, 0)
unfolding unpack_header
head_header = refl

-- The last byte of the frame comes in the next segment.
read_tcp_message-segment_example : read_tcp_message (take 10 (framed 5) ∷ (5 ∷ []) ∷ []) ≡ (
  ok (some (take 11 (take 10 (framed 5)))),
  put_back (drop 11 (take 10 (framed 5))) ((5 ∷ []) ∷ []),
)
read_tcp_message-segment_example =
    read_tcp_message-segment (take 10 (framed 5)) ((5 ∷ []) ∷ []) 11 0 0 (omega arith) (omega arith)
      head_header

-- What every message is encoded to
abbrev ten : Bytes
ten = 1 ∷ 2 ∷ 3 ∷ 4 ∷ 5 ∷ 6 ∷ 7 ∷ 8 ∷ 9 ∷ 10 ∷ []

sync_host-spreads_example :
    ((sync_host cluster_env decode (record served { arriving = framed 8 ∷ [] })).0 ≡ true)
    × Older (some (alive, 1)) (
        view
          (sync_host cluster_env decode
            (record served { arriving = framed 8 ∷ [] })).1.cluster.manager
          "other")
unfolding local_state run set_local_node node_manager get put contains Queue.push on_node_suspect
    run_timer decode_message
sync_host-spreads_example =
    sync_host-spreads cluster_env decode manager (record served { arriving = framed 8 ∷ [] }) "new"
      "other" 1 ten (framed 8) [] [] manager-IsSafe.inv newcomer-IsSafe refl refl refl
      ((_, refl), ((_, refl), ((_, refl), tt))) refl refl (framed-IsFrame 8) refl

handle_tcp_message-answers_example :
    ((handle_tcp_message cluster_env (sync (local_state manager)) served).cluster.manager
      ≡ (merge_remote_states env (local_state manager) newcomer).1)
    × ((handle_tcp_message cluster_env (sync (local_state manager)) served).written
        ≡ [] ++ ten ∷ [])
    × Older (some (alive, 1)) (
        view
          (handle_tcp_message cluster_env (sync (local_state manager)) served).cluster.manager
          "other")
unfolding local_state run set_local_node node_manager get put contains Queue.push on_node_suspect
    run_timer
handle_tcp_message-answers_example =
    handle_tcp_message-answers cluster_env manager served "new" "other" 1 ten manager-IsSafe.inv
      newcomer-IsSafe refl refl refl ((_, refl), ((_, refl), ((_, refl), tt))) refl

probed_all_example : 0 < count (get_or manager.nodes 0 0) (probed manager (length manager.nodes) 7)
unfolding skips run set_local_node node_manager get put contains Queue.push on_node_suspect
    run_timer
probed_all_example = probed_all manager 0 (omega arith) refl 7

-- The first host answers with the states of the started cluster, and the other cannot be reached.
abbrev pub connect : Address → Option (List Bytes)
connect (host, port) = if host == "10.0.0.2" then some (framed 8 ∷ []) else none

abbrev pub nowhere : Address → Option (List Bytes)
nowhere a = none

abbrev joining : List Address
joining = ("10.0.0.2", 7900) ∷ ("10.0.0.8", 7900) ∷ []

-- The started cluster knows a node at 10.0.0.3 too, which is not synced with.
only_known :
    hosts_again
      (record cluster_env { local_node_name = "new" })
      decode
      joining
      manager
      manager.nodes
    ≡ ("10.0.0.2", 7900) ∷ []
unfolding hosts_again run set_local_node node_manager get put contains Queue.push on_node_suspect
    run_timer
only_known = refl

probe_node_indirect-Sends_example :
    Sends 2
      (λ d.
        (r : ℕ) × ((may_probe manager 1 "me" r ≡ true) × (0 < count r manager.nodes))
        × GoesTo manager r d)
      cluster
      (probe_node_indirect cluster_env (λ c. c) 1 2 cluster)
probe_node_indirect-Sends_example = probe_node_indirect-Sends cluster_env (λ c. c) 1 2 cluster

probe_node-answered_example :
    IsSent
      (manager.heap 1).host
      (manager.heap 1).port
      ten
      manager.queue
      []
      (probe_node cluster_env 1 cluster).1.sent
    × IsSent
        (some "10.0.0.1")
        7900
        ten
        served.cluster.manager.queue
        []
        (handle_udp_message
          (record cluster_env { local_node_name = "peer" })
          (ping (ping_of cluster_env 1 cluster))
          served.cluster).sent
    × (probe_future
          (handle_udp_message cluster_env
            (ack (
              ack_of
                (record cluster_env { local_node_name = "peer" })
                (ping_of cluster_env 1 cluster)))
            (probe_node cluster_env 1 cluster).1).probe_status
          (increment cluster.probe_seq).0
        ≡ some (some true))
unfolding run set_local_node node_manager get put contains Queue.push on_node_suspect run_timer
probe_node-answered_example =
    probe_node-answered cluster_env (record cluster_env { local_node_name = "peer" }) 1 cluster
      served.cluster ten ten refl refl refl
