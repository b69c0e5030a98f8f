-- ===== src/Cluster/Clients/Listening.antt =====
-- `_sync_node` and `_after_connect_loop` of tattle/cluster.py: what a sync by the connection of a node sends,
-- and what comes of the answer.
use tattle.Prelude.{
  ℕ, String, ◌≡◌, refl, ap, ◌∙◌, true, false, Option, some, List, [], ◌∷◌, ◌++◌, arith,
  if◌then◌else◌, Bool-cases, Option-cases, inl, inr,
}
use tattle.Exec.{Result, ok}
use tattle.Messages.{Bytes, Message, sync}
use tattle.State.Node.{alive, NodeManager}
use tattle.State.Shape.{Inv, view}
use tattle.State.Knowledge.{names_local}
use tattle.State.Rumors.{Older}
use tattle.State.Runs.{IsSafe}
use tattle.Cluster.Exchange.{local_state}
use tattle.Cluster.Exchange.Spreading.{Tells, sync_spreads}
use tattle.Cluster.Handling.{ClusterEnv}
use tattle.Cluster.Connections.{Served, handle_stream, handle_tcp_client_message, merge_states}
use tattle.Cluster.Connections.Serving.{
  Whole, handle_stream-Whole, handle_tcp_client_message-IsPlain,
}
use tattle.Cluster.Connections.Safe.{handle_tcp_client_message-IsSafe, handle_stream-IsSafe}
use tattle.Cluster.Clients.{
  ReadStream, connected, Linked, send_to_node, except_io_error, sync_node, send_state_to,
  after_connect_loop,
}
use tattle.Cluster.Clients.Linking.{half_closed, written_to, ensured-sent, sent_over-written}

module _ {F : Type 0} (e : ClusterEnv F) where
  -- Where the connection of a node is there or can be opened, and the state of this node can be encoded, a
  -- sync returns and has written the state behind what was written to the stream, unless the write
  -- stream closes while the read stream has not failed: then nothing is sent.
  pub sync_node-written :
      (segments : List Bytes) (r : ℕ) (s : Linked F) (buf : Bytes)
      → e.env.encode (sync (local_state s.cluster.manager)) ≡ ok buf
      → ((sync_node e (some segments) r s).0 ≡ ok tt)
        × ((sync_node e (some segments) r s).1.cluster ≡ s.cluster)
        × (written_to ((sync_node e (some segments) r s).1.connections r) ≡ (
            if half_closed (s.connections r)
            then written_to (s.connections r)
            else (if connected (s.connections r) then written_to (s.connections r) else [])
              ++ buf ∷ []))
  unfolding sync_node send_state_to
  sync_node-written segments r s buf encoded =
      let sent =
        ensured-sent e (sync (local_state s.cluster.manager)) buf encoded segments r s
          (λ t. send_to_node e (sync (local_state t.cluster.manager)) r t) refl in
      let synced = ap except_io_error sent in
      (
        ap (λ o. o.0) synced,
        ap (λ o. o.1.cluster) synced,
        ap (λ o. written_to (o.1.connections r)) synced
            ∙ ground (arith, (sent_over-written (s.connections r) segments buf).1),
      )

  module _ (decode : Bytes → Result (Option Message)) where
    -- The loop with the stream of the connection, which is read to its end
    after_connect_loop-read :
        (r : ℕ) (s : Linked F) (stream : ReadStream)
        → (s.connections r).read_stream ≡ some stream
        → connected (s.connections r) ≡ true
        → (after_connect_loop e decode r s).cluster
          ≡ (handle_stream
              (handle_tcp_client_message e)
              decode
              (record { cluster = s.cluster; arriving = stream.arriving; written = [] })).cluster
    unfolding after_connect_loop
    after_connect_loop-read r s stream there up = rw (after_connect_loop, there, up) refl

    pub after_connect_loop-IsSafe :
        (me : String) (r : ℕ) (s : Linked F)
        → IsSafe me s.cluster.manager
        → IsSafe me (after_connect_loop e decode r s).cluster.manager
    unfolding after_connect_loop
    after_connect_loop-IsSafe me r s v = elim (Option-cases (s.connections r).read_stream) [
      | inl none_there ↦ rw (after_connect_loop, none_there) v
      | inr (stream, there) ↦ elim (Bool-cases (connected (s.connections r))) [
        | inl up ↦ rw (after_connect_loop-read r s stream there up) (
            handle_stream-IsSafe me (handle_tcp_client_message e)
              (handle_tcp_client_message-IsSafe e me) decode _ v)
        | inr down ↦ rw (after_connect_loop, there, down) v
      ]
    ]

    -- A node is connected to a well-formed peer, and the states of the peer arrive whole: what is told
    -- of each of them can be encoded and the queue has no limit. When the loop of the connection has read them, a node other than
    -- the local one that the peer knows as alive is known with the incarnation that the peer knows,
    -- or with newer knowledge.
    pub after_connect_loop-spreads :
        {G : Type 0}
        → (p : NodeManager G) (r : ℕ) (s : Linked F) (me n : String) (i : ℕ) (stream : ReadStream)
          (buf : Bytes)
        → Inv p
        → IsSafe me s.cluster.manager
        → s.cluster.manager.queue.max_size ≡ 0
        → names_local s.cluster.manager n ≡ false
        → view p n ≡ some (alive, i)
        → (s.connections r).read_stream ≡ some stream
        → connected (s.connections r) ≡ true
        → Tells e.env (local_state p) s.cluster.manager
        → Whole decode (buf ∷ []) (some (sync (local_state p)) ∷ []) stream.arriving
        → Older (some (alive, i)) (view (after_connect_loop e decode r s).cluster.manager n)
    unfolding handle_tcp_client_message merge_states
    after_connect_loop-spreads p r s me n i stream buf w v h far known there up told whole =
        let served : Served F = record {
          cluster = s.cluster;
          arriving = stream.arriving;
          written = [];
        } in
        let read =
          handle_stream-Whole (handle_tcp_client_message e) (handle_tcp_client_message-IsPlain e)
            decode (buf ∷ []) (some (sync (local_state p)) ∷ []) served whole in
        let (merged, newer) = sync_spreads e.env p me n i s.cluster.manager w v h far known told in
        rw (after_connect_loop-read r s stream there up, read) newer
