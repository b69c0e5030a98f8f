-- ===== src/Cluster/Connections/Syncing.antt =====
-- `_sync_host` of tattle/cluster.py with a peer whose answer arrives whole.
use tattle.Prelude.{ℕ, String, ◌≡◌, refl, ap, ◌∙◌, true, false, Option, some, List, [], ◌∷◌, ◌++◌}
use tattle.Exec.{Result, ok}
use tattle.Exec.Does.{bind-returns}
use tattle.Messages.{Bytes, Message, sync, RemoteNodeState}
use tattle.Messages.Wire.RoundTrip.{IsFrame}
use tattle.State.Node.{alive, NodeManager}
use tattle.State.Shape.{Inv, view}
use tattle.State.Knowledge.{names_local}
use tattle.State.Rumors.{Older}
use tattle.State.Runs.{IsSafe}
use tattle.Cluster.Streams.{decode_message}
use tattle.Cluster.Exchange.{local_state, merge_remote_states}
use tattle.Cluster.Exchange.Spreading.{Tells, sync_spreads}
use tattle.Cluster.Handling.{ClusterEnv}
use tattle.Cluster.Connections.{
  put_back, Served, read_tcp_message, send_tcp_message, send_local_state, merge_states,
  decode_answer, read_answer, merge_answer, is_ok, exchange_states, sync_host, handle_tcp_message,
  handle_sync_message,
}
use tattle.Cluster.Connections.Reading.{read_tcp_message-frame}

module _ {F : Type 0} (e : ClusterEnv F) where
  send_tcp_message-ok :
      (m : Message) (s : Served F) (out : Bytes)
      → e.env.encode m ≡ ok out
      → send_tcp_message e m s ≡ (ok tt, record s { written = s.written ++ out ∷ [] })
  unfolding send_tcp_message
  send_tcp_message-ok m s out h = rw (send_tcp_message, h) refl

  -- A node is sent the states of a well-formed peer on a connection: what it tells others of each state, if
  -- that is news, and its own states after the merge can be encoded, and the queue has no limit. It
  -- answers once, with its own states as they are after the merge. A node other than the local one that
  -- the peer knows as alive is known after it with the incarnation that the peer knows, or with newer
  -- knowledge.
  pub handle_tcp_message-answers :
      {G : Type 0} (p : NodeManager G) (s : Served F) (me n : String) (i : ℕ) (reply : Bytes)
      → Inv p
      → IsSafe me s.cluster.manager
      → s.cluster.manager.queue.max_size ≡ 0
      → names_local s.cluster.manager n ≡ false
      → view p n ≡ some (alive, i)
      → Tells e.env (local_state p) s.cluster.manager
      → e.env.encode
          (sync (local_state (merge_remote_states e.env (local_state p) s.cluster.manager).1))
        ≡ ok reply
      → ((handle_tcp_message e (sync (local_state p)) s).cluster.manager
          ≡ (merge_remote_states e.env (local_state p) s.cluster.manager).1)
        × ((handle_tcp_message e (sync (local_state p)) s).written ≡ s.written ++ reply ∷ [])
        × Older
            (some (alive, i))
            (view (handle_tcp_message e (sync (local_state p)) s).cluster.manager n)
  unfolding handle_tcp_message handle_sync_message merge_states send_local_state
  handle_tcp_message-answers p s me n i reply w v h far known told encoded =
      let states = local_state p in
      let (merged, newer) = sync_spreads e.env p me n i s.cluster.manager w v h far known told in
      let t = (merge_states e states s).1 in
      let answered : handle_sync_message e states s
          ≡ (ok tt, record t { written = t.written ++ reply ∷ [] }) =
        bind-returns (merge_states e states) (λ u. send_local_state e) s t tt
          (ap (λ r. (r, t)) merged)
        ∙ send_tcp_message-ok (sync (local_state t.cluster.manager)) t reply encoded in
      rw (handle_tcp_message, answered) (refl, refl, newer)

module _ {F : Type 0} (e : ClusterEnv F) (decode : Bytes → Result (Option Message)) where
  -- Where the local state can be encoded and the answer is a sync message that arrives whole, the states
  -- in it are merged.
  exchange_states-answered :
      (s : Served F) (out buf rest : Bytes) (more : List Bytes) (states : List RemoteNodeState)
      → e.env.encode (sync (local_state s.cluster.manager)) ≡ ok out
      → s.arriving ≡ (buf ++ rest) ∷ more
      → IsFrame buf
      → decode_message (decode buf) ≡ ok (some (sync states))
      → exchange_states e decode s
        ≡ merge_states e states
            (record s { arriving = put_back rest more; written = s.written ++ out ∷ [] })
  unfolding exchange_states send_local_state read_answer decode_answer merge_answer
  exchange_states-answered s out buf rest more states h a f d =
      let t = record s { written = s.written ++ out ∷ [] } in
      let u = record t { arriving = put_back rest more } in
      let sent : send_local_state e s ≡ (ok tt, t) =
        send_tcp_message-ok e (sync (local_state s.cluster.manager)) s out h in
      let read : read_tcp_message s.arriving ≡ (ok (some buf), put_back rest more) =
        ap read_tcp_message a ∙ read_tcp_message-frame buf rest more f in
      let decoded : read_answer e decode t ≡ (ok (some (sync states)), u) =
        ap (λ r. decode_answer e decode r t) read ∙ ap (λ o. (o, u)) d in
      bind-returns (send_local_state e) _ s t tt sent
      ∙ bind-returns (read_answer e decode) (merge_answer e decode) t u (some (sync states)) decoded

  -- A node syncs with a well-formed peer that answers with its states: the states of the node, and what it tells
  -- others of each state of the peer, if that is news, can be encoded, the queue has no limit, and the
  -- answer arrives whole and is decoded. Then the sync succeeds, and a node other
  -- than the local one that the peer knows as alive is known after it with the incarnation that the peer
  -- knows, or with newer knowledge.
  pub sync_host-spreads :
      {G : Type 0} (p : NodeManager G) (s : Served F) (me n : String) (i : ℕ) (out buf rest : Bytes)
      (more : List Bytes)
      → Inv p
      → IsSafe me s.cluster.manager
      → s.cluster.manager.queue.max_size ≡ 0
      → names_local s.cluster.manager n ≡ false
      → view p n ≡ some (alive, i)
      → Tells e.env (local_state p) s.cluster.manager
      → e.env.encode (sync (local_state s.cluster.manager)) ≡ ok out
      → s.arriving ≡ (buf ++ rest) ∷ more
      → IsFrame buf
      → decode_message (decode buf) ≡ ok (some (sync (local_state p)))
      → ((sync_host e decode s).0 ≡ true)
        × Older (some (alive, i)) (view (sync_host e decode s).1.cluster.manager n)
  unfolding sync_host merge_states
  sync_host-spreads p s me n i out buf rest more w v h far known told sent a f d =
      let states = local_state p in
      let (merged, newer) = sync_spreads e.env p me n i s.cluster.manager w v h far known told in
      let answered = exchange_states-answered s out buf rest more states sent a f d in
      rw (sync_host, answered) (ap is_ok merged, newer)
