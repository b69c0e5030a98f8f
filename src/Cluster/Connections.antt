-- ===== src/Cluster/Connections.antt =====
-- TCP connections in tattle/cluster.py: messages are read from a stream, a sync message is merged and
-- answered with the state of this node.
pub mod Ending
pub mod Reading
pub mod Safe
pub mod Serving
pub mod Syncing
use tattle.Prelude.{
  ℕ, zero, suc, ◌+◌, String, Bool, true, false, Option, none, some, List, [], ◌∷◌, ◌++◌, take, drop,
  length,
}
use tattle.Prelude.Int.{ℤ, pos, negsuc, ◌-ℤ◌}
use tattle.Exec.{Exec, Result, ok, raised, attribute_error, type_error, ◌>>=◌, ◌>>◌}
use tattle.Messages.{Bytes, Message, sync, user, RemoteNodeState, UserMessage}
use tattle.Messages.Wire.{unpack_header}
use tattle.State.Node.{NodeManager, Env}
use tattle.Cluster.Streams.{decode_message}
use tattle.Cluster.Exchange.{merge_remote_states, local_state}
use tattle.Cluster.Handling.{Cluster, ClusterEnv}

-- All that is still to arrive
abbrev pub all_bytes : List Bytes → Bytes
all_bytes [] = []
all_bytes (segment ∷ segments) = segment ++ all_bytes segments

-- What is left of a segment comes first.
abbrev pub put_back : Bytes → List Bytes → List Bytes
put_back [] segments = segments
put_back (b ∷ bs) segments = (b ∷ bs) ∷ segments

-- `StreamReader.read(n)` on the segments that are still to arrive: at most `n` bytes of what has arrived,
-- and all to the end of the stream if `n` is negative.
unfoldable pub stream_read : ℤ → List Bytes → Bytes × List Bytes
stream_read (pos zero) segments = ([], segments)
stream_read (pos (suc n)) [] = ([], [])
stream_read (pos (suc n)) (segment ∷ segments) =
    (take (suc n) segment, put_back (drop (suc n) segment) segments)
stream_read (negsuc n) segments = (all_bytes segments, [])

-- The rest of `_read_tcp_message`, behind the header
unfoldable pub read_tcp_body : Bytes → Result (ℕ × ℕ × ℕ) → Exec (List Bytes) (Option Bytes)
unfolding stream_read
read_tcp_body head (raised x) segments = (raised x, segments)
read_tcp_body head (ok (size, flags, crc)) segments =
    let (body, rest) = stream_read (pos size -ℤ pos 9) segments in (ok (some (head ++ body)), rest)

unfoldable pub read_tcp_data : Bytes → Exec (List Bytes) (Option Bytes)
unfolding read_tcp_body
read_tcp_data [] segments = (ok none, segments)
read_tcp_data (b ∷ bs) segments = read_tcp_body (b ∷ bs) (unpack_header (b ∷ bs)) segments

-- `_read_tcp_message`
unfoldable pub read_tcp_message : Exec (List Bytes) (Option Bytes)
unfolding read_tcp_data
read_tcp_message segments =
    let (data_read, rest) = stream_read (pos 9) segments in read_tcp_data data_read rest

-- The cluster with one connection: what is still to arrive on it, and what was written to it.
pub record Served (F : Type 0) : Type 0 where
  pub cluster : Cluster F
  pub arriving : List Bytes
  pub written : List Bytes

-- The loop over the messages of a stream, with what is done with each
module _ {F : Type 0} (handle : Message → Served F → Served F) where
  -- A round with what was decoded, before the later rounds: `None` is passed over, and what is raised ends
  -- the loop.
  unfoldable pub handle_decoded :
      (Served F → Served F) → Result (Option Message) → Served F → Served F
  handle_decoded later (raised x) s = s
  handle_decoded later (ok none) s = later s
  handle_decoded later (ok (some message)) s = later (handle message s)

  module _ (decode : Bytes → Result (Option Message)) where
    -- A round with what was read and what is left on the stream
    unfoldable pub handle_tcp_round :
        (Served F → Served F) → Result (Option Bytes) × List Bytes → Served F → Served F
    unfolding decode_message handle_decoded
    handle_tcp_round later (raised x, rest) s = record s { arriving = rest }
    handle_tcp_round later (ok none, rest) s = record s { arriving = rest }
    handle_tcp_round later (ok (some raw), rest) s =
        handle_decoded later (decode_message (decode raw)) (record s { arriving = rest })

    -- Each round that goes on has read a header.
    unfoldable pub handle_tcp_rounds : ℕ → Served F → Served F
    unfolding read_tcp_message handle_tcp_round
    handle_tcp_rounds zero s = s
    handle_tcp_rounds (suc fuel) s =
        handle_tcp_round (handle_tcp_rounds fuel) (read_tcp_message s.arriving) s

    unfoldable pub handle_stream : Served F → Served F
    unfolding handle_tcp_rounds
    handle_stream s = handle_tcp_rounds (suc (length (all_bytes s.arriving))) s

abbrev pub is_ok {ℓ} : {A : Type ℓ} → Result A → Bool
is_ok (raised x) = false
is_ok (ok u) = true

module _ {F : Type 0} (e : ClusterEnv F) where
  -- `_send_tcp_message`
  unfoldable pub send_tcp_message : Message → Exec (Served F) Unit
  send_tcp_message message s = elim (e.env.encode message) [
    | raised x ↦ (raised x, s)
    | ok buf ↦ (ok tt, record s { written = s.written ++ buf ∷ [] })
  ]

  unfoldable pub send_local_state : Exec (Served F) Unit
  unfolding send_tcp_message local_state
  send_local_state s = send_tcp_message (sync (local_state s.cluster.manager)) s

  unfoldable pub merge_states : List RemoteNodeState → Exec (Served F) Unit
  unfolding merge_remote_states
  merge_states states s =
      let (result, manager) = merge_remote_states e.env states s.cluster.manager in
      (result, record s { cluster = record s.cluster { manager = manager } })

  unfoldable pub handle_sync_message : List RemoteNodeState → Exec (Served F) Unit
  unfolding merge_states send_local_state
  handle_sync_message states = do merge_states states; send_local_state

  -- `_handle_tcp_message`: what is raised is logged, and a message of another type too.
  unfoldable pub handle_tcp_message : Message → Served F → Served F
  unfolding handle_sync_message
  handle_tcp_message (sync states) s = (handle_sync_message states s).1
  handle_tcp_message (user msg) s = record s {
    cluster = record s.cluster { delivered = s.cluster.delivered ++ msg ∷ [] };
  }
  handle_tcp_message msg s = s

  -- `_handle_tcp_client_message`, which does not answer
  unfoldable pub handle_tcp_client_message : Message → Served F → Served F
  unfolding merge_states
  handle_tcp_client_message (sync states) s = (merge_states states s).1
  handle_tcp_client_message (user msg) s = record s {
    cluster = record s.cluster { delivered = s.cluster.delivered ++ msg ∷ [] };
  }
  handle_tcp_client_message msg s = s

  module _ (decode : Bytes → Result (Option Message)) where
    unfoldable pub handle_tcp_connection : Served F → Served F
    unfolding handle_stream handle_tcp_message
    handle_tcp_connection = handle_stream handle_tcp_message decode

    -- `_decode_message` on what was read. On the end of the stream, which is `None`, it raises `TypeError`.
    unfoldable pub decode_answer :
        Result (Option Bytes) × List Bytes → Exec (Served F) (Option Message)
    unfolding decode_message
    decode_answer (raised x, rest) s = (raised x, record s { arriving = rest })
    decode_answer (ok none, rest) s = (raised type_error, record s { arriving = rest })
    decode_answer (ok (some raw), rest) s =
        (decode_message (decode raw), record s { arriving = rest })

    -- The answer that `_sync_host` reads, or `None` where it cannot be decoded
    unfoldable pub read_answer : Exec (Served F) (Option Message)
    unfolding read_tcp_message decode_answer
    read_answer s = decode_answer (read_tcp_message s.arriving) s

    -- `remote_sync_message.nodes`, which only a sync message has, and the loop over them
    unfoldable pub merge_answer : Option Message → Exec (Served F) Unit
    unfolding merge_states
    merge_answer (some (sync states)) s = merge_states states s
    merge_answer message s = (raised attribute_error, s)

    -- `_sync_host` once the connection is open
    unfoldable pub exchange_states : Exec (Served F) Unit
    unfolding send_local_state read_answer merge_answer
    exchange_states = do send_local_state; answer ← read_answer; merge_answer answer

    -- Whether `_sync_host` returns `True`. What is raised is logged.
    unfoldable pub sync_host : Served F → Bool × Served F
    unfolding exchange_states
    sync_host s = let (result, t) = exchange_states s in (is_ok result, t)
