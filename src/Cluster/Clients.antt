-- ===== src/Cluster/Clients.antt =====
-- The connections that a node keeps to others: the streams of a `Node` in tattle/state.py, and what
-- tattle/cluster.py sends and reads by them.
pub mod Linking
pub mod Listening
use tattle.Prelude.{
  ℕ, String, Bool, true, false, not, ◌&&◌, ◌||◌, Option, none, some, List, [], ◌∷◌, ◌++◌, eqb, ltb,
  length, if◌then◌else◌,
}
use tattle.Prelude.Dict.{get}
use tattle.Exec.{Exec, Result, ok, raised, attribute_error, os_error, pass, continue, ◌>>=◌, ◌>>◌}
use tattle.Messages.{Bytes, Message, sync, user, UserMessage}
use tattle.State.Node.{NodeManager}
use tattle.Cluster.Exchange.{local_state}
use tattle.Cluster.Handling.{Cluster, ClusterEnv, send_udp_message, on_manager, probe_node}
use tattle.Cluster.Choosing.{do_sync, probe_node_indirect}
use tattle.Cluster.Connections.{Served, handle_stream, handle_tcp_client_message}

-- `failed`: its `exception()` is not `None`. The segments are still to arrive.
pub record ReadStream : Type 0 where
  pub failed : Bool
  pub arriving : List Bytes

pub record WriteStream : Type 0 where
  pub closing : Bool
  pub written : List Bytes

-- The streams of a node, and whether its `_loop` runs
pub record Connection : Type 0 where
  pub read_stream : Option ReadStream
  pub write_stream : Option WriteStream
  pub loop : Bool

abbrev pub not_connected : Connection
not_connected = record { read_stream = none; write_stream = none; loop = false }

-- `connected`
unfoldable pub connected : Connection → Bool
connected c = elim c.read_stream [
  | none ↦ false
  | some r ↦ not r.failed && elim c.write_stream [ none ↦ false | some w ↦ not w.closing ]
]

-- `Node.close`, which cancels the loop
unfoldable pub close : Connection → Connection
close c = record c { read_stream = none; write_stream = none; loop = false }

-- `asyncio.open_connection`, with what arrives on the connection, or with none where it raises
unfoldable pub open_streams : Option (List Bytes) → Exec Connection Unit
open_streams none c = (raised os_error, c)
open_streams (some segments) c = (
  ok tt,
  record c {
    read_stream = some (record { failed = false; arriving = segments });
    write_stream = some (record { closing = false; written = [] });
  },
)

-- The first test of `connect`. It says `not self.write_stream.is_closing() is not None`, where
-- `is_closing()` is never `None`.
unfoldable pub must_close : Connection → Bool
must_close c =
    elim c.read_stream [ none ↦ false | some r ↦ r.failed ]
    || elim c.write_stream [ none ↦ false | some w ↦ not true ]

-- The second test
unfoldable pub must_open : Connection → Bool
must_open c = elim c.read_stream [
  | none ↦ true
  | some r ↦ elim c.write_stream [ none ↦ true | some w ↦ false ]
]

unfoldable pub reopen : Option (List Bytes) → Exec Connection Unit
unfolding must_open open_streams
reopen opened c = if must_open c then open_streams opened c else pass c

-- `Node.connect`
unfoldable pub connect : Option (List Bytes) → Exec Connection Unit
unfolding must_close close reopen
connect opened c = reopen opened (if must_close c then close c else c)

-- `_ensure_connected`, which starts the loop that reads
unfoldable pub ensure_connected : Option (List Bytes) → Exec Connection Unit
unfolding connected connect
ensure_connected opened c =
    if connected c then pass c else (do connect opened; λ d. (ok tt, record d { loop = true })) c

-- `stream_writer.write(buf)`. What is written to a stream that closes is lost.
unfoldable pub write_stream_of : Bytes → Exec Connection Unit
write_stream_of buf c = elim c.write_stream [
  | none ↦ (raised attribute_error, c)
  | some w ↦ (
    ok tt,
    record c {
      write_stream = some (if w.closing then w else record w { written = w.written ++ buf ∷ [] });
    },
  )
]

-- The cluster with the connection of each node
pub record Linked (F : Type 0) : Type 0 where
  pub cluster : Cluster F
  pub connections : ℕ → Connection

module _ {F : Type 0} where
  abbrev pub link : ℕ → Connection → Linked F → Linked F
  link r c s = record s { connections = λ q. if eqb q r then c else s.connections q }

  -- What a method of the node makes of the cluster
  unfoldable pub on_connection : ℕ → Exec Connection Unit → Exec (Linked F) Unit
  on_connection r action s = let (result, c) = action (s.connections r) in (result, link r c s)

-- `except IOError`, where nothing but the log follows
abbrev pub except_io_error : {S : Type 0} → Result (Unit {0}) × S → Result (Unit {0}) × S
except_io_error (raised os_error, s) = (ok tt, s)
except_io_error (raised x, s) = (raised x, s)
except_io_error (ok u, s) = (ok u, s)

module _ {F : Type 0} (e : ClusterEnv F) where
  -- `_send_tcp_message` to a node
  unfoldable pub send_to_node : Message → ℕ → Exec (Linked F) Unit
  unfolding on_connection write_stream_of
  send_to_node message r s = elim (e.env.encode message) [
    | raised x ↦ (raised x, s)
    | ok buf ↦ on_connection r (write_stream_of buf) s
  ]

  -- The part of `_sync_node` in its `try`
  unfoldable pub send_state_to : Option (List Bytes) → ℕ → Exec (Linked F) Unit
  unfolding on_connection ensure_connected send_to_node local_state
  send_state_to opened r = do
    on_connection r (ensure_connected opened)
    λ s. send_to_node (sync (local_state s.cluster.manager)) r s

  -- `_sync_node`: an `IOError` ends it, logged or not.
  unfoldable pub sync_node : Option (List Bytes) → ℕ → Exec (Linked F) Unit
  unfolding send_state_to
  sync_node opened r s = except_io_error (send_state_to opened r s)

  -- `_do_sync`: what is raised is logged.
  unfoldable pub run_sync : (ℕ → ℕ) → ℕ → (ℕ → Option (List Bytes)) → Linked F → Linked F
  unfolding do_sync sync_node
  run_sync draw sync_nodes opened s =
      elim (do_sync s.cluster.manager draw sync_nodes e.local_node_name) [
        | none ↦ s
        | some r ↦ (sync_node (opened r) r s).1
      ]

  unfoldable pub send_datagram : ℕ → Message → Exec (Linked F) Unit
  unfolding send_udp_message
  send_datagram r message s =
      let node = s.cluster.manager.heap r in
      let (result, cluster) = send_udp_message e node.host node.port message s.cluster in
      (result, record s { cluster = cluster })

  -- `send` to a node that is known
  unfoldable pub send_user_message : Option (List Bytes) → ℕ → Bytes → Bool → Exec (Linked F) Unit
  unfolding on_connection ensure_connected send_to_node send_datagram
  send_user_message opened r payload reliable =
      let message = user (record { payload = payload; sender = some e.local_node_name }) in
      if reliable || ltb 1000 (length payload)
      then (do on_connection r (ensure_connected opened); send_to_node message r)
      else send_datagram r message

  -- `send`: of an unknown node the name and the streams are those of `None`.
  unfoldable pub send : Option (List Bytes) → String → Bytes → Bool → Exec (Linked F) Unit
  unfolding send_user_message
  send opened name payload reliable s = elim (get s.cluster.manager.nodes_map name) [
    | none ↦ (raised attribute_error, s)
    | some r ↦ send_user_message opened r payload reliable s
  ]

  -- `sync` with a node
  unfoldable pub sync_named : Option (List Bytes) → String → Exec (Linked F) Unit
  unfolding sync_node
  sync_named opened name s = elim (get s.cluster.manager.nodes_map name) [
    | none ↦ (raised attribute_error, s)
    | some r ↦ sync_node opened r s
  ]

  -- `_after_connect_loop`, as long as the node stays connected
  unfoldable pub after_connect_loop : (Bytes → Result (Option Message)) → ℕ → Linked F → Linked F
  unfolding connected handle_stream handle_tcp_client_message
  after_connect_loop decode r s =
      let c = s.connections r in
      elim c.read_stream [
        | none ↦ s
        | some stream ↦
            if connected c
            then (let t =
                  handle_stream (handle_tcp_client_message e) decode
                    (record { cluster = s.cluster; arriving = stream.arriving; written = [] }) in
                record (link r
                  (record c { read_stream = some (record stream { arriving = t.arriving }) }) s) {
                    cluster = t.cluster;
                  })
            else s
      ]
