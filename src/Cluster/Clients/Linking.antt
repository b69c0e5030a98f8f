-- ===== src/Cluster/Clients/Linking.antt =====
-- `_ensure_connected` of tattle/cluster.py, and what `send` writes to a node by it.
use tattle.Prelude.{
  ℕ, ◌≡◌, refl, ap, ◌∙◌, Bool, true, false, not, ◌&&◌, ◌||◌, Option, none, some, List, [], ◌∷◌,
  ◌++◌, arith, ltb, length, if◌then◌else◌, eqb, eqb_iff, Bool-cases, inl, inr,
}
use tattle.Exec.{Exception, Exec, Result, ok, raised, ◌>>◌}
use tattle.Exec.Does.{bind-returns}
use tattle.Messages.{Bytes, Message, user}
use tattle.Cluster.Handling.{ClusterEnv}
use tattle.Cluster.Clients.{
  ReadStream, WriteStream, Connection, connected, close, open_streams, must_close, must_open,
  reopen, connect, ensure_connected, write_stream_of, Linked, link, on_connection, send_to_node,
  send_user_message,
}

-- The write stream closes, and the read stream has not failed.
unfoldable pub half_closed : Connection → Bool
half_closed c = elim c.read_stream [
  | none ↦ false
  | some r ↦ not r.failed && elim c.write_stream [ none ↦ false | some w ↦ w.closing ]
]

-- What was written to the stream that the node has
unfoldable pub written_to : Connection → List Bytes
written_to c = elim c.write_stream [ none ↦ [] | some w ↦ w.written ]

-- A connection that is there, or that can be opened, unless it is half closed
record Ensured (opened : Option (List Bytes)) (c : Connection) (o : Result (Unit {0}) × Connection)
    : Type 0 where
  linked : o.0 ≡ ok tt → connected o.1 ≡ not (half_closed c)
  refused : (x : Exception) → o.0 ≡ raised x → (opened ≡ none) × (connected o.1 ≡ false)
  reached : (segments : List Bytes) → opened ≡ some segments → o.0 ≡ ok tt
  half : half_closed c ≡ true → (o.0 ≡ ok tt) × (half_closed o.1 ≡ true)
  kept : o.0 ≡ ok tt → written_to o.1 ≡ (if connected c || half_closed c then written_to c else [])

cases_of :
    (opened : Option (List Bytes)) (r : Option ReadStream) (w : Option WriteStream) (l : Bool)
    → Ensured opened
        (record { read_stream = r; write_stream = w; loop = l })
        (ensure_connected opened (record { read_stream = r; write_stream = w; loop = l }))
unfolding ensure_connected connected connect must_close close reopen must_open open_streams
    half_closed written_to
cases_of none none w l = ground arith
cases_of none (some r) none l = ground arith
cases_of none (some r) (some w) l = ground arith
cases_of (some segments) none w l = ground arith
cases_of (some segments) (some r) none l = ground arith
cases_of (some segments) (some r) (some w) l = ground arith

ensure_connected-Ensured :
    (opened : Option (List Bytes)) (c : Connection) → Ensured opened c (ensure_connected opened c)
ensure_connected-Ensured opened c = cases_of opened c.read_stream c.write_stream c.loop

connected-half_closed : (c : Connection) → connected c ≡ true → half_closed c ≡ false
unfolding connected half_closed
connected-half_closed c = cases c.read_stream c.write_stream c.loop
  where
    cases :
        (r : Option ReadStream) (w : Option WriteStream) (l : Bool)
        → connected (record { read_stream = r; write_stream = w; loop = l }) ≡ true
        → half_closed (record { read_stream = r; write_stream = w; loop = l }) ≡ false
    cases none w l h = ground (arith, h)
    cases (some r) none l h = ground (arith, h)
    cases (some r) (some w) l h = ground (arith, h)

-- What is written where there is a stream, to one that closes in vain
write_cases :
    (buf : Bytes) (r : Option ReadStream) (w : Option WriteStream) (l : Bool)
    → let c : Connection = record { read_stream = r; write_stream = w; loop = l } in
      (connected c || half_closed c) ≡ true
      → ((write_stream_of buf c).0 ≡ ok tt)
        × (written_to (write_stream_of buf c).1
            ≡ (if half_closed c then written_to c else written_to c ++ buf ∷ []))
unfolding write_stream_of connected half_closed written_to
write_cases buf none w l h = cc
write_cases buf (some r) none l h = ground (arith, h)
write_cases buf (some r) (some w) l h = ground (arith, h)

write_stream_of-written :
    (buf : Bytes) (c : Connection)
    → (connected c || half_closed c) ≡ true
    → ((write_stream_of buf c).0 ≡ ok tt)
      × (written_to (write_stream_of buf c).1
          ≡ (if half_closed c then written_to c else written_to c ++ buf ∷ []))
write_stream_of-written buf c = write_cases buf c.read_stream c.write_stream c.loop

-- The connection of a node after a message to it, and what was written to it
module _ (c : Connection) (segments : List Bytes) (buf : Bytes) where
  abbrev pub sent_over : Connection
  sent_over = (write_stream_of buf (ensure_connected (some segments) c).1).1

  pub sent_over-written :
      ((write_stream_of buf (ensure_connected (some segments) c).1).0 ≡ ok tt)
      × (written_to sent_over ≡ (
          if half_closed c
          then written_to c
          else (if connected c then written_to c else []) ++ buf ∷ []))
  sent_over-written =
      let v = ensure_connected-Ensured (some segments) c in
      let returned = v.reached segments refl in
      let d = (ensure_connected (some segments) c).1 in
      elim (Bool-cases (half_closed c)) [
        | inl h ↦ ground (arith, h, v.half h, v.kept returned, write_stream_of-written buf d)
        | inr h ↦ ground (
          arith,
          h,
          v.linked returned,
          v.kept returned,
          write_stream_of-written buf d,
          connected-half_closed d,
        )
      ]

module _ {F : Type 0} (e : ClusterEnv F) (message : Message) (buf : Bytes)
    (encoded : e.env.encode message ≡ ok buf) where
  send_to_node-ok :
      (r : ℕ) (t : Linked F) (c : Connection)
      → t.connections r ≡ c
      → (write_stream_of buf c).0 ≡ ok tt
      → send_to_node e message r t ≡ (ok tt, link r (write_stream_of buf c).1 t)
  unfolding send_to_node on_connection
  send_to_node-ok r t c there returned =
      rw (send_to_node, encoded)
        (ap (λ d. ((write_stream_of buf d).0, link r (write_stream_of buf d).1 t)) there
          ∙ ap (λ o. (o, link r (write_stream_of buf c).1 t)) returned)

  -- The message goes over the connection that is there or is opened.
  pub ensured-sent :
      (segments : List Bytes) (r : ℕ) (s : Linked F) (send : Exec (Linked F) Unit)
      → let t : Linked F = link r (ensure_connected (some segments) (s.connections r)).1 s in
        send t ≡ send_to_node e message r t
        → (do on_connection r (ensure_connected (some segments)); send) s
          ≡ (ok tt, link r (sent_over (s.connections r) segments buf) t)
  unfolding on_connection
  ensured-sent segments r s send same =
      let c = s.connections r in
      let d = (ensure_connected (some segments) c).1 in
      let opened : on_connection r (ensure_connected (some segments)) s ≡ (ok tt, link r d s) =
        ap (λ o. (o, link r d s))
          ((ensure_connected-Ensured (some segments) c).reached segments refl) in
      let there : (link r d s).connections r ≡ d = ground arith in
      bind-returns (on_connection r (ensure_connected (some segments))) (λ u. send) s (link r d s)
        tt opened
      ∙ same
      ∙ send_to_node-ok r (link r d s) d there (sent_over-written c segments buf).0

-- Does the write stream close?
unfoldable pub is_closing : Connection → Bool
is_closing c = elim c.write_stream [ none ↦ false | some w ↦ w.closing ]

-- What a message of these bytes makes of the connection, which is there, or is half closed, or is opened with
-- what arrives on it. Where it is opened its streams are new; the loop runs unless it is there without one.
pub record IsDelivered (segments : List Bytes) (buf : Bytes) (c d : Connection) : Type 0 where
  pub written : written_to d ≡ (
      if half_closed c
      then written_to c
      else (if connected c then written_to c else []) ++ buf ∷ [])
  pub closing : is_closing d ≡ half_closed c
  pub reading : d.read_stream ≡ (
      if connected c || half_closed c
      then c.read_stream
      else some (record { failed = false; arriving = segments }))
  pub looping : d.loop ≡ (if connected c then c.loop else true)

delivered_cases :
    (segments : List Bytes) (buf : Bytes) (r : Option ReadStream) (w : Option WriteStream)
    (l : Bool)
    → let c : Connection = record { read_stream = r; write_stream = w; loop = l } in
      let d = sent_over c segments buf in
      (is_closing d ≡ half_closed c)
      × (d.read_stream ≡ (
          if connected c || half_closed c
          then r
          else some (record { failed = false; arriving = segments })))
      × (d.loop ≡ (if connected c then l else true))
unfolding ensure_connected connected connect must_close close reopen must_open open_streams
    half_closed is_closing write_stream_of
delivered_cases segments buf none w l = ground arith
delivered_cases segments buf (some r) none l = ground arith
delivered_cases segments buf (some r) (some w) l = ground arith

sent_over-IsDelivered :
    (segments : List Bytes) (buf : Bytes) (c : Connection)
    → IsDelivered segments buf c (sent_over c segments buf)
sent_over-IsDelivered segments buf c =
    let (closing, reading, looping) =
      delivered_cases segments buf c.read_stream c.write_stream c.loop in
    record {
      written = (sent_over-written c segments buf).1;
      closing = closing;
      reading = reading;
      looping = looping;
    }

-- A message of a user goes to a node by its connection if that is asked for, or if it has more than 1000
-- bytes. Where the connection is there or can be opened, and the message can be encoded, `send` returns
-- and has written the message behind what was written to the stream, unless the write stream closes while
-- the read stream has not failed: then the message is lost. A connection that has to be opened is new, and its
-- loop runs. The cluster and the connections of the other nodes are as they were.
pub send_user_message-written :
    {F : Type 0} (e : ClusterEnv F) (segments : List Bytes) (r : ℕ) (payload : Bytes)
    (reliable : Bool) (s : Linked F) (buf : Bytes)
    → (reliable || ltb 1000 (length payload)) ≡ true
    → e.env.encode (user (record { payload = payload; sender = some e.local_node_name })) ≡ ok buf
    → ((send_user_message e (some segments) r payload reliable s).0 ≡ ok tt)
      × ((send_user_message e (some segments) r payload reliable s).1.cluster ≡ s.cluster)
      × IsDelivered segments buf
          (s.connections r)
          ((send_user_message e (some segments) r payload reliable s).1.connections r)
      × ((q : ℕ)
          → (send_user_message e (some segments) r payload reliable s).1.connections q ≡ (
              if eqb q r
              then (send_user_message e (some segments) r payload reliable s).1.connections r
              else s.connections q))
unfolding send_user_message
send_user_message-written e segments r payload reliable s buf asked encoded =
    let message = user (record { payload = payload; sender = some e.local_node_name }) in
    rw
      (
        send_user_message,
        asked,
        ensured-sent e message buf encoded segments r s (send_to_node e message r) refl,
      )
      (
        refl,
        refl,
        rw ((eqb_iff r r).1 refl) (sent_over-IsDelivered segments buf (s.connections r)),
        λ q. ground arith,
      )
