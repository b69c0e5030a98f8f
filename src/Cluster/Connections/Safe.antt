-- ===== src/Cluster/Connections/Safe.antt =====
-- TCP connections in tattle/cluster.py keep the node manager safe, whatever arrives on them.
use tattle.Prelude.{ℕ, zero, suc, ◌≡◌, refl, String, Option, none, some, List, length, inl, inr}
use tattle.Exec.{Result, ok, raised}
use tattle.Exec.Does.{Does-bind, Result-cases}
use tattle.Messages.{
  Bytes, Message, ping, ping_request, ack, nack, suspect, dead, alive, sync, user, RemoteNodeState,
}
use tattle.State.Runs.{IsSafe}
use tattle.Cluster.Streams.{decode_message}
use tattle.Cluster.Exchange.{local_state}
use tattle.Cluster.Exchange.Merging.{merge_remote_states-IsSafe}
use tattle.Cluster.Handling.{ClusterEnv}
use tattle.Cluster.Connections.{
  Served, read_tcp_message, send_tcp_message, send_local_state, merge_states, handle_sync_message,
  handle_tcp_message, handle_tcp_client_message, handle_stream, handle_decoded, handle_tcp_round,
  handle_tcp_rounds, handle_tcp_connection, decode_answer, read_answer, merge_answer,
  exchange_states, sync_host, all_bytes,
}

module _ {F : Type 0} (me : String) (handle : Message → Served F → Served F)
    (handle-Safe : (m : Message) (s : Served F)
      → IsSafe me s.cluster.manager
      → IsSafe me (handle m s).cluster.manager) where
  handle_decoded-Safe :
      (later : Served F → Served F) (o : Result (Option Message)) (s : Served F)
      → ((t : Served F) → IsSafe me t.cluster.manager → IsSafe me (later t).cluster.manager)
      → IsSafe me s.cluster.manager
      → IsSafe me (handle_decoded handle later o s).cluster.manager
  unfolding handle_decoded
  handle_decoded-Safe later (raised x) s keeps v = v
  handle_decoded-Safe later (ok none) s keeps v = keeps s v
  handle_decoded-Safe later (ok (some m)) s keeps v = keeps _ (handle-Safe m s v)

  module _ (decode : Bytes → Result (Option Message)) where
    handle_tcp_round-Safe :
        (later : Served F → Served F) (read : Result (Option Bytes) × List Bytes) (s : Served F)
        → ((t : Served F) → IsSafe me t.cluster.manager → IsSafe me (later t).cluster.manager)
        → IsSafe me s.cluster.manager
        → IsSafe me (handle_tcp_round handle decode later read s).cluster.manager
    unfolding handle_tcp_round
    handle_tcp_round-Safe later (raised x, rest) s keeps v = v
    handle_tcp_round-Safe later (ok none, rest) s keeps v = v
    handle_tcp_round-Safe later (ok (some raw), rest) s keeps v =
        handle_decoded-Safe later (decode_message (decode raw)) (record s { arriving = rest }) keeps
          v

    rounds-Safe :
        (fuel : ℕ) (s : Served F)
        → IsSafe me s.cluster.manager
        → IsSafe me (handle_tcp_rounds handle decode fuel s).cluster.manager
    unfolding handle_tcp_rounds
    rounds-Safe zero s v = v
    rounds-Safe (suc fuel) s v =
        handle_tcp_round-Safe (handle_tcp_rounds handle decode fuel) (read_tcp_message s.arriving) s
          (rounds-Safe fuel) v

    pub handle_stream-IsSafe :
        (s : Served F)
        → IsSafe me s.cluster.manager
        → IsSafe me (handle_stream handle decode s).cluster.manager
    unfolding handle_stream
    handle_stream-IsSafe s v = rounds-Safe (suc (length (all_bytes s.arriving))) s v

module _ {F : Type 0} (e : ClusterEnv F) (me : String) where
  abbrev Safe : Served F → Type 0
  Safe s = IsSafe me s.cluster.manager

  abbrev Keeps : Served F → Served F → Type 0
  Keeps s t = Safe s → Safe t

  Keeps-trans : (s t u : Served F) → Keeps s t → Keeps t u → Keeps s u
  Keeps-trans s t u f g v = g (f v)

  send_tcp_message-cluster :
      (m : Message) (s : Served F) → (send_tcp_message e m s).1.cluster ≡ s.cluster
  unfolding send_tcp_message
  send_tcp_message-cluster m s = elim (Result-cases (e.env.encode m)) [
    | inl (x, h) ↦ rw (send_tcp_message, h) refl
    | inr (buf, h) ↦ rw (send_tcp_message, h) refl
  ]

  merge_states-Safe :
      (states : List RemoteNodeState) (s : Served F) → Safe s → Safe (merge_states e states s).1
  unfolding merge_states
  merge_states-Safe states s v = merge_remote_states-IsSafe e.env states me s.cluster.manager v

  send_local_state-Safe : (s : Served F) → Safe s → Safe (send_local_state e s).1
  unfolding send_local_state
  send_local_state-Safe s v =
      rw (send_tcp_message-cluster (sync (local_state s.cluster.manager)) s) v

  handle_tcp_message-Safe : (m : Message) (s : Served F) → Safe s → Safe (handle_tcp_message e m s)
  unfolding handle_tcp_message handle_sync_message
  handle_tcp_message-Safe (sync states) s v =
      let merged = merge_states-Safe states s v in
      elim (Result-cases (merge_states e states s).0) [
        | inl (x, h) ↦ rw (handle_tcp_message, h) merged
        | inr (u, h) ↦ rw (handle_tcp_message, h) (send_local_state-Safe _ merged)
      ]
  handle_tcp_message-Safe (user msg) s v = v
  handle_tcp_message-Safe (ping msg) s v = v
  handle_tcp_message-Safe (ping_request msg) s v = v
  handle_tcp_message-Safe (ack msg) s v = v
  handle_tcp_message-Safe (nack msg) s v = v
  handle_tcp_message-Safe (suspect msg) s v = v
  handle_tcp_message-Safe (dead msg) s v = v
  handle_tcp_message-Safe (alive msg) s v = v

  pub handle_tcp_client_message-IsSafe :
      (m : Message) (s : Served F) → Safe s → Safe (handle_tcp_client_message e m s)
  unfolding handle_tcp_client_message
  handle_tcp_client_message-IsSafe (sync states) s v = merge_states-Safe states s v
  handle_tcp_client_message-IsSafe (user msg) s v = v
  handle_tcp_client_message-IsSafe (ping msg) s v = v
  handle_tcp_client_message-IsSafe (ping_request msg) s v = v
  handle_tcp_client_message-IsSafe (ack msg) s v = v
  handle_tcp_client_message-IsSafe (nack msg) s v = v
  handle_tcp_client_message-IsSafe (suspect msg) s v = v
  handle_tcp_client_message-IsSafe (dead msg) s v = v
  handle_tcp_client_message-IsSafe (alive msg) s v = v

  module _ (decode : Bytes → Result (Option Message)) where
    -- Whatever arrives on a connection, and however it is cut into segments, the manager stays well-formed
    -- and holds its own node for alive.
    pub handle_tcp_connection-IsSafe :
        (s : Served F)
        → IsSafe me s.cluster.manager
        → IsSafe me (handle_tcp_connection e decode s).cluster.manager
    unfolding handle_tcp_connection
    handle_tcp_connection-IsSafe =
        handle_stream-IsSafe me (handle_tcp_message e) handle_tcp_message-Safe decode

    decode_answer-Safe :
        (read : Result (Option Bytes) × List Bytes) (s : Served F)
        → Safe s
        → Safe (decode_answer e decode read s).1
    unfolding decode_answer
    decode_answer-Safe (raised x, rest) s v = v
    decode_answer-Safe (ok none, rest) s v = v
    decode_answer-Safe (ok (some raw), rest) s v = v

    merge_answer-Safe :
        (answer : Option Message) (s : Served F) → Safe s → Safe (merge_answer e decode answer s).1
    unfolding merge_answer
    merge_answer-Safe none s v = v
    merge_answer-Safe (some (sync states)) s v = merge_states-Safe states s v
    merge_answer-Safe (some (user msg)) s v = v
    merge_answer-Safe (some (ping msg)) s v = v
    merge_answer-Safe (some (ping_request msg)) s v = v
    merge_answer-Safe (some (ack msg)) s v = v
    merge_answer-Safe (some (nack msg)) s v = v
    merge_answer-Safe (some (suspect msg)) s v = v
    merge_answer-Safe (some (dead msg)) s v = v
    merge_answer-Safe (some (alive msg)) s v = v

    -- Whatever the other host answers to a sync, and however it comes in, the manager stays well-formed
    -- and holds its own node for alive.
    pub sync_host-IsSafe :
        (s : Served F)
        → IsSafe me s.cluster.manager
        → IsSafe me (sync_host e decode s).1.cluster.manager
    unfolding sync_host exchange_states
    sync_host-IsSafe s v =
        (Does-bind Keeps-trans (send_local_state e) _ (record { at = send_local_state-Safe })
            λ u.
              Does-bind Keeps-trans (read_answer e decode) (merge_answer e decode)
                (record { at = λ t. decode_answer-Safe (read_tcp_message t.arriving) t })
                λ answer. record { at = merge_answer-Safe answer }).at
          s v
