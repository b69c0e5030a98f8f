-- ===== src/Cluster/Datagrams.antt =====
-- `_handle_udp_data` of tattle/cluster.py against `_send_udp_message`: a datagram holds a message and
-- the gossip behind it.
use tattle.Prelude.{
  ℕ, zero, suc, ◌-◌, ◌≤◌, ◌<◌, ◌≡◌, refl, ap, Option, none, some, List, [], ◌∷◌, ◌++◌, arith,
  length, length-append, take, drop, take-append, drop-append, take-append_le, drop-append_le,
  take-append-drop, length-drop, length-drop-le,
}
use tattle.Prelude.Int.{ℤ, pos, negsuc, ◌-ℤ◌}
use tattle.Exec.{Result, ok, raised}
use tattle.Messages.{Bytes}
use tattle.Messages.Wire.{unpack_header}
use tattle.Messages.Wire.RoundTrip.{IsFrame}
use tattle.Cluster.Streams.{read_bytes, read_body, read_udp_message, decode_message}

-- What a decoded message adds in front of those of the later rounds: `None` and what cannot be decoded
-- are passed over; any other exception ends the loop.
unfoldable pub dispatch : {M : Type 0} → Result (Option M) → List M → List M
dispatch (raised x) later = []
dispatch (ok none) later = later
dispatch (ok (some m)) later = m ∷ later

module _ {M : Type 0} (decode : Bytes → Result (Option M)) where
  -- The messages that are dispatched, each as a task. A round reads at least one byte.
  unfoldable pub handle_udp_rounds : ℕ → Bytes → List M
  unfolding decode_message dispatch
  handle_udp_rounds zero content = []
  handle_udp_rounds (suc fuel) content = elim (read_udp_message content) [
    | raised x ↦ []
    | ok none ↦ []
    | ok (some (raw, rest)) ↦ dispatch (decode_message (decode raw)) (handle_udp_rounds fuel rest)
  ]

  unfoldable pub handle_udp_data : Bytes → List M
  unfolding handle_udp_rounds
  handle_udp_data content = handle_udp_rounds (suc (length content)) content

-- The bytes of a datagram
abbrev pub datagram : List Bytes → Bytes
datagram [] = []
datagram (buf ∷ bufs) = buf ++ datagram bufs

-- A frame is read as it is, and what stands behind it is left.
read_body-frame :
    (buf rest : Bytes) (flags crc : ℕ)
    → 9 < length buf
    → read_body (take 9 buf) (drop 9 buf ++ rest) (ok (length buf, flags, crc))
      ≡ ok (some (buf, rest))
unfolding read_body
read_body-frame buf rest flags crc h =
    let n = length buf - 9 in
    let body : length (drop 9 buf) ≡ n = length-drop 9 buf in
    ground (
      arith,
      take-append n (drop 9 buf) rest body,
      drop-append n (drop 9 buf) rest body,
      take-append-drop 9 buf,
    )

read_udp_message-eq :
    (content : Bytes)
    → 0 < length content
    → read_udp_message content
      ≡ read_body (take 9 content) (drop 9 content) (unpack_header (take 9 content))
unfolding read_udp_message
read_udp_message-eq [] h = elim h [ ]
read_udp_message-eq (b ∷ bs) h = refl

read_udp_message-frame :
    (buf rest : Bytes) → IsFrame buf → read_udp_message (buf ++ rest) ≡ ok (some (buf, rest))
read_udp_message-frame buf rest f =
    let long = f.long in
    rw
      (
        read_udp_message-eq (buf ++ rest) (omega (arith, length-append buf rest)),
        take-append_le 9 buf rest (omega arith),
        drop-append_le 9 buf rest (omega arith),
        f.header,
      )
      (read_body-frame buf rest f.flags f.crc long)

-- What is left of a datagram after a message is shorter than the datagram.
read_bytes-shorter :
    (n : ℤ) (content body rest : Bytes)
    → read_bytes n content ≡ ok (body, rest)
    → length rest ≤ length content
unfolding read_bytes
read_bytes-shorter (pos n) content body rest h = ground (arith, h, length-drop-le n content)
read_bytes-shorter (negsuc zero) content body rest h = ground arith
read_bytes-shorter (negsuc (suc n)) content body rest h = cc

read_body-shorter :
    (head left raw rest : Bytes) (header : Result (ℕ × ℕ × ℕ))
    → read_body head left header ≡ ok (some (raw, rest))
    → length rest ≤ length left
unfolding read_body
read_body-shorter head left raw rest (raised x) h = cc
read_body-shorter head left raw rest (ok (size, flags, crc)) h =
    cases (read_bytes (pos size -ℤ pos 9) left) refl
  where
    cases :
        (o : Result (Bytes × Bytes))
        → read_bytes (pos size -ℤ pos 9) left ≡ o
        → length rest ≤ length left
    cases (raised x) e = absurd (ground (arith, e, h))
    cases (ok (body, more)) e =
        ground (arith, e, h, read_bytes-shorter (pos size -ℤ pos 9) left body more)

read_udp_message-shorter :
    (content raw rest : Bytes)
    → read_udp_message content ≡ ok (some (raw, rest))
    → length rest < length content
unfolding read_udp_message
read_udp_message-shorter [] raw rest h = cc
read_udp_message-shorter (b ∷ bs) raw rest h =
    let shorter =
      read_body-shorter (take 9 (b ∷ bs)) (drop 9 (b ∷ bs)) raw rest
        (unpack_header (take 9 (b ∷ bs))) h in
    omega (arith, shorter, length-drop-le 8 bs)

-- What the messages decode to: the frames, and for each the message or `None`
abbrev pub Decodes :
    {M : Type 0} → (Bytes → Result (Option M)) → List Bytes → List (Option M) → Type 0
Decodes decode [] [] = Unit
Decodes decode [] (o ∷ os) = ⊥
Decodes decode (buf ∷ bufs) [] = ⊥
Decodes decode (buf ∷ bufs) (o ∷ os) =
    IsFrame buf × (decode_message (decode buf) ≡ ok o) × Decodes decode bufs os

-- The messages that are there
abbrev pub present : {M : Type 0} → List (Option M) → List M
present [] = []
present (none ∷ os) = present os
present (some m ∷ os) = m ∷ present os

module _ {M : Type 0} (decode : Bytes → Result (Option M)) where
  round_same :
      (f g : ℕ) (content : Bytes) (o : Result (Option (Bytes × Bytes)))
      → read_udp_message content ≡ o
      → ((raw rest : Bytes)
          → o ≡ ok (some (raw, rest))
          → handle_udp_rounds decode f rest ≡ handle_udp_rounds decode g rest)
      → handle_udp_rounds decode (suc f) content ≡ handle_udp_rounds decode (suc g) content
  unfolding handle_udp_rounds
  round_same f g content (raised x) e same = rw (e, handle_udp_rounds)
  round_same f g content (ok none) e same = rw (e, handle_udp_rounds)
  round_same f g content (ok (some (raw, rest))) e same =
      rw (e, handle_udp_rounds) (ap (dispatch (decode_message (decode raw))) (same raw rest refl))

  rounds_same :
      (f g : ℕ) (content : Bytes)
      → length content < f
      → length content < g
      → handle_udp_rounds decode f content ≡ handle_udp_rounds decode g content
  rounds_same zero g content h k = elim h [ ]
  rounds_same (suc f) zero content h k = elim k [ ]
  rounds_same (suc f) (suc g) content h k =
      round_same f g content (read_udp_message content) refl λ raw rest e.
        let shorter = read_udp_message-shorter content raw rest e in
        rounds_same f g rest (omega arith) (omega arith)

  -- As many rounds as the datagram has bytes and one more, or any higher number, give the same
  -- result: no datagram is cut short.
  pub handle_udp_rounds-enough :
      (fuel : ℕ) (content : Bytes)
      → length content < fuel
      → handle_udp_rounds decode fuel content ≡ handle_udp_data decode content
  unfolding handle_udp_data
  handle_udp_rounds-enough fuel content h =
      rounds_same fuel (suc (length content)) content h (omega arith)

  rounds-datagram :
      (fuel : ℕ) (bufs : List Bytes) (os : List (Option M))
      → length (datagram bufs) < fuel
      → Decodes decode bufs os
      → handle_udp_rounds decode fuel (datagram bufs) ≡ present os
  unfolding handle_udp_rounds read_udp_message
  rounds-datagram zero bufs os h d = elim h [ ]
  rounds-datagram (suc fuel) [] [] h d = refl
  rounds-datagram (suc fuel) [] (o ∷ os) h d = absurd d
  rounds-datagram (suc fuel) (buf ∷ bufs) [] h d = absurd d
  rounds-datagram (suc fuel) (buf ∷ bufs) (none ∷ os) h (f, e, d) =
      let long = f.long in
      ground (
        arith,
        read_udp_message-frame buf (datagram bufs) f,
        e,
        length-append buf (datagram bufs),
        rounds-datagram fuel bufs os (omega (arith, length-append buf (datagram bufs))) d,
      )
  rounds-datagram (suc fuel) (buf ∷ bufs) (some m ∷ os) h (f, e, d) =
      let long = f.long in
      ground (
        arith,
        read_udp_message-frame buf (datagram bufs) f,
        e,
        rounds-datagram fuel bufs os (omega (arith, length-append buf (datagram bufs))) d,
      )

  -- A datagram of frames that can be decoded, or fail to be with an error that is logged, dispatches
  -- the messages that could be decoded, all of them and in their order.
  pub handle_udp_data-datagram :
      (bufs : List Bytes) (os : List (Option M))
      → Decodes decode bufs os
      → handle_udp_data decode (datagram bufs) ≡ present os
  unfolding handle_udp_data
  handle_udp_data-datagram bufs os d =
      rounds-datagram (suc (length (datagram bufs))) bufs os (omega arith) d
