-- ===== src/Cluster/Connections/Serving.antt =====
-- `_handle_tcp_connection` and `_sync_host` of tattle/cluster.py: what comes of the messages of a connection.
use tattle.Prelude.{
  ℕ, zero, suc, ◌+◌, ◌<◌, ◌≡◌, refl, ap, ◌∙◌, Option, none, some, List, [], ◌∷◌, ◌++◌, arith,
  length, length-append, inl, inr,
}
use tattle.Exec.{Result, ok}
use tattle.Exec.Does.{Result-cases}
use tattle.Messages.{
  Bytes, Message, ping, ping_request, ack, nack, suspect, dead, alive, sync, user,
}
use tattle.Messages.Wire.RoundTrip.{IsFrame}
use tattle.Cluster.Streams.{decode_message}
use tattle.Cluster.Datagrams.{present}
use tattle.Cluster.Exchange.{merge_remote_states}
use tattle.Cluster.Handling.{ClusterEnv}
use tattle.Cluster.Connections.{
  all_bytes, put_back, stream_read, Served, read_tcp_data, read_tcp_message, send_tcp_message,
  send_local_state, merge_states, handle_sync_message, handle_tcp_message,
  handle_tcp_client_message, handle_decoded, handle_stream, handle_tcp_round, handle_tcp_rounds,
  handle_tcp_connection,
}
use tattle.Cluster.Connections.Reading.{read_tcp_message-frame}

-- The segments hold the frames, each whole in one segment, and what they decode to is given.
abbrev pub Whole :
    (Bytes → Result (Option Message)) → List Bytes → List (Option Message) → List Bytes → Type 0
Whole decode [] [] segments = segments ≡ []
Whole decode [] (o ∷ os) segments = ⊥
Whole decode (buf ∷ bufs) [] segments = ⊥
Whole decode (buf ∷ bufs) (o ∷ os) segments =
    (rest : Bytes) × (more : List Bytes) × (segments ≡ (buf ++ rest) ∷ more)
    × IsFrame buf
    × (decode_message (decode buf) ≡ ok o)
    × Whole decode bufs os (put_back rest more)

pub length-put_back :
    (bs : Bytes) (segments : List Bytes)
    → length (all_bytes (put_back bs segments)) ≡ length bs + length (all_bytes segments)
length-put_back [] segments = omega arith
length-put_back (b ∷ bs) segments = omega (arith, length-append bs (all_bytes segments))

-- The rest of what is to arrive
abbrev pub upon : {F : Type 0} → List Bytes → Served F → Served F
upon segments s = record s { arriving = segments }

-- Messages are handled without a look at what is to arrive behind them.
pub record IsPlain {F : Type 0} (handle : Message → Served F → Served F) : Type 0 where
  pub upon_same :
      (m : Message) (s : Served F) (a : List Bytes) → handle m (upon a s) ≡ upon a (handle m s)

module _ {F : Type 0} (e : ClusterEnv F) where
  send_tcp_message-upon :
      (m : Message) (s : Served F) (a : List Bytes)
      → (send_tcp_message e m (upon a s)).1 ≡ upon a (send_tcp_message e m s).1
  unfolding send_tcp_message
  send_tcp_message-upon m s a = elim (Result-cases (e.env.encode m)) [
    | inl (x, h) ↦ rw (h, send_tcp_message) refl
    | inr (buf, h) ↦ rw (h, send_tcp_message) refl
  ]

  handle_tcp_message-upon :
      (m : Message) (s : Served F) (a : List Bytes)
      → handle_tcp_message e m (upon a s) ≡ upon a (handle_tcp_message e m s)
  unfolding handle_tcp_message handle_sync_message merge_states send_local_state
  handle_tcp_message-upon (sync states) s a =
      elim (Result-cases (merge_remote_states e.env states s.cluster.manager).0) [
        | inl (x, h) ↦ rw (handle_tcp_message, h) refl
        | inr (u, h) ↦ rw (handle_tcp_message, h) (send_tcp_message-upon _ _ a)
      ]
  handle_tcp_message-upon (user msg) s a = refl
  handle_tcp_message-upon (ping msg) s a = refl
  handle_tcp_message-upon (ping_request msg) s a = refl
  handle_tcp_message-upon (ack msg) s a = refl
  handle_tcp_message-upon (nack msg) s a = refl
  handle_tcp_message-upon (suspect msg) s a = refl
  handle_tcp_message-upon (dead msg) s a = refl
  handle_tcp_message-upon (alive msg) s a = refl

  pub handle_tcp_message-IsPlain : IsPlain (handle_tcp_message e)
  handle_tcp_message-IsPlain = record { upon_same = handle_tcp_message-upon }

  handle_tcp_client_message-upon :
      (m : Message) (s : Served F) (a : List Bytes)
      → handle_tcp_client_message e m (upon a s) ≡ upon a (handle_tcp_client_message e m s)
  unfolding handle_tcp_client_message merge_states
  handle_tcp_client_message-upon (sync states) s a = refl
  handle_tcp_client_message-upon (user msg) s a = refl
  handle_tcp_client_message-upon (ping msg) s a = refl
  handle_tcp_client_message-upon (ping_request msg) s a = refl
  handle_tcp_client_message-upon (ack msg) s a = refl
  handle_tcp_client_message-upon (nack msg) s a = refl
  handle_tcp_client_message-upon (suspect msg) s a = refl
  handle_tcp_client_message-upon (dead msg) s a = refl
  handle_tcp_client_message-upon (alive msg) s a = refl

  pub handle_tcp_client_message-IsPlain : IsPlain (handle_tcp_client_message e)
  handle_tcp_client_message-IsPlain = record { upon_same = handle_tcp_client_message-upon }

-- The messages one after the other
abbrev pub handle_each :
    {F : Type 0} → (Message → Served F → Served F) → List Message → Served F → Served F
handle_each handle [] s = s
handle_each handle (m ∷ ms) s = handle_each handle ms (handle m s)

module _ {F : Type 0} (handle : Message → Served F → Served F) (plain : IsPlain handle) where
  handle_each-upon :
      (ms : List Message) (s : Served F) (a b : List Bytes)
      → upon b (handle_each handle ms (upon a s)) ≡ upon b (handle_each handle ms s)
  handle_each-upon [] s a b = refl
  handle_each-upon (m ∷ ms) s a b =
      rw (handle_each, plain.upon_same m s a) (handle_each-upon ms (handle m s) a b)

  module _ (decode : Bytes → Result (Option Message)) where
    -- A round with a message, or with `None` for one that is passed over
    abbrev handle_one : Option Message → Served F → Served F
    handle_one none s = s
    handle_one (some m) s = handle m s

    rounds-read :
        (fuel : ℕ) (s : Served F) (raw : Bytes) (left : List Bytes) (o : Option Message)
        → read_tcp_message s.arriving ≡ (ok (some raw), left)
        → decode_message (decode raw) ≡ ok o
        → handle_tcp_rounds handle decode (suc fuel) s
          ≡ handle_tcp_rounds handle decode fuel (handle_one o (upon left s))
    unfolding handle_tcp_rounds handle_tcp_round handle_decoded
    rounds-read fuel s raw left o r d =
        let later = handle_tcp_rounds handle decode fuel in
        ap (λ p. handle_tcp_round handle decode later p s) r
        ∙ ap (λ p. handle_decoded handle later p (upon left s)) d
        ∙ one o
      where
        one :
            (o : Option Message)
            → handle_decoded handle (handle_tcp_rounds handle decode fuel) (ok o) (upon left s)
              ≡ handle_tcp_rounds handle decode fuel (handle_one o (upon left s))
        one none = refl
        one (some m) = refl

    arriving-handle_one :
        (o : Option Message) (s : Served F) (a : List Bytes)
        → (handle_one o (upon a s)).arriving ≡ a
    arriving-handle_one none s a = refl
    arriving-handle_one (some m) s a = ap Served.arriving (plain.upon_same m s a)

    handle_each-one :
        (o : Option Message) (os : List (Option Message)) (s : Served F) (a : List Bytes)
        → upon [] (handle_each handle (present os) (handle_one o (upon a s)))
          ≡ upon [] (handle_each handle (present (o ∷ os)) s)
    handle_each-one none os s a = handle_each-upon (present os) s a []
    handle_each-one (some m) os s a = handle_each-upon (present (some m ∷ os)) s a []

    rounds-Whole :
        (fuel : ℕ) (bufs : List Bytes) (os : List (Option Message)) (s : Served F)
        → length (all_bytes s.arriving) < fuel
        → Whole decode bufs os s.arriving
        → handle_tcp_rounds handle decode fuel s ≡ upon [] (handle_each handle (present os) s)
    unfolding handle_tcp_rounds handle_tcp_round read_tcp_message read_tcp_data stream_read
    rounds-Whole zero bufs os s h w = elim h [ ]
    rounds-Whole (suc fuel) [] [] s h w =
        ap
          (λ a.
            handle_tcp_round handle decode (handle_tcp_rounds handle decode fuel)
              (read_tcp_message a) s)
          w
    rounds-Whole (suc fuel) [] (o ∷ os) s h w = absurd w
    rounds-Whole (suc fuel) (buf ∷ bufs) [] s h w = absurd w
    rounds-Whole (suc fuel) (buf ∷ bufs) (o ∷ os) s h (rest, more, a, f, d, w) =
        let left = put_back rest more in
        let t = handle_one o (upon left s) in
        let long = f.long in
        let read : read_tcp_message s.arriving ≡ (ok (some buf), left) =
          ap read_tcp_message a ∙ read_tcp_message-frame buf rest more f in
        let fewer : length (all_bytes t.arriving) < fuel =
          rw (arriving-handle_one o s left, length-put_back rest more)
            (omega (
              arith,
              h,
              ap (λ x. length (all_bytes x)) a,
              length-append (buf ++ rest) (all_bytes more),
              length-append buf rest,
            )) in
        rounds-read fuel s buf left o read d
        ∙ rounds-Whole fuel bufs os t fewer (rw (arriving-handle_one o s left) w)
        ∙ handle_each-one o os s left

    pub handle_stream-Whole :
        (bufs : List Bytes) (os : List (Option Message)) (s : Served F)
        → Whole decode bufs os s.arriving
        → handle_stream handle decode s ≡ upon [] (handle_each handle (present os) s)
    unfolding handle_stream
    handle_stream-Whole bufs os s w =
        rounds-Whole (suc (length (all_bytes s.arriving))) bufs os s (omega arith) w

-- Where every frame of a connection arrives whole in a segment, the messages that can be decoded are
-- handled, all of them and in their order, and the connection is read to its end.
pub handle_tcp_connection-Whole :
    {F : Type 0} (e : ClusterEnv F) (decode : Bytes → Result (Option Message)) (bufs : List Bytes)
    (os : List (Option Message)) (s : Served F)
    → Whole decode bufs os s.arriving
    → handle_tcp_connection e decode s
      ≡ record (handle_each (handle_tcp_message e) (present os) s) { arriving = [] }
unfolding handle_tcp_connection
handle_tcp_connection-Whole e decode =
    handle_stream-Whole (handle_tcp_message e) (handle_tcp_message-IsPlain e) decode
