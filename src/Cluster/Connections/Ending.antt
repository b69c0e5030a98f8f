-- ===== src/Cluster/Connections/Ending.antt =====
-- The loop of `_handle_tcp_connection` in tattle/cluster.py ends with the stream.
use tattle.Prelude.{
  ℕ, zero, suc, ◌≤◌, ◌<◌, ◌≡◌, refl, ap, Option, none, some, List, [], ◌∷◌, arith, length,
  length-append, drop, length-drop-le,
}
use tattle.Prelude.Int.{ℤ, pos, negsuc, ◌-ℤ◌}
use tattle.Exec.{Result, ok, raised}
use tattle.Messages.{Bytes, Message}
use tattle.Messages.Wire.{unpack_header}
use tattle.Cluster.Streams.{decode_message}
use tattle.Cluster.Handling.{ClusterEnv}
use tattle.Cluster.Connections.{
  all_bytes, stream_read, read_tcp_body, read_tcp_data, read_tcp_message, Served,
  handle_tcp_message, handle_decoded, handle_tcp_round, handle_tcp_rounds, handle_stream,
  handle_tcp_connection,
}
use tattle.Cluster.Connections.Serving.{length-put_back, IsPlain, handle_tcp_message-IsPlain}

-- How many bytes are still to arrive
abbrev left : List Bytes → ℕ
left segments = length (all_bytes segments)

stream_read-le : (n : ℤ) (segments : List Bytes) → left (stream_read n segments).1 ≤ left segments
unfolding stream_read
stream_read-le (pos zero) segments = omega arith
stream_read-le (pos (suc n)) [] = omega arith
stream_read-le (pos (suc n)) (segment ∷ segments) = omega (
  arith,
  length-put_back (drop (suc n) segment) segments,
  length-drop-le (suc n) segment,
  length-append segment (all_bytes segments),
)
stream_read-le (negsuc n) segments = omega arith

stream_read-lt :
    (n : ℕ) (segments : List Bytes)
    → 0 < length (stream_read (pos n) segments).0
    → left (stream_read (pos n) segments).1 < left segments
unfolding stream_read
stream_read-lt zero segments h = elim h [ ]
stream_read-lt (suc n) [] h = elim h [ ]
stream_read-lt (suc n) ([] ∷ segments) h = elim h [ ]
stream_read-lt (suc n) ((b ∷ bs) ∷ segments) h = omega (
  arith,
  length-put_back (drop n bs) segments,
  length-drop-le n bs,
  length-append bs (all_bytes segments),
)

read_tcp_body-le :
    (head raw : Bytes) (header : Result (ℕ × ℕ × ℕ)) (segments rest : List Bytes)
    → read_tcp_body head header segments ≡ (ok (some raw), rest)
    → left rest ≤ left segments
unfolding read_tcp_body
read_tcp_body-le head raw (raised x) segments rest h = cc
read_tcp_body-le head raw (ok (size, flags, crc)) segments rest h =
    let same : (stream_read (pos size -ℤ pos 9) segments).1 ≡ rest = ap (λ p. p.1) h in
    rw⁻¹ same (stream_read-le (pos size -ℤ pos 9) segments)

read_tcp_data-le :
    (data_read raw : Bytes) (segments rest : List Bytes)
    → read_tcp_data data_read segments ≡ (ok (some raw), rest)
    → (0 < length data_read) × (left rest ≤ left segments)
unfolding read_tcp_data
read_tcp_data-le [] raw segments rest h = cc
read_tcp_data-le (b ∷ bs) raw segments rest h =
    (omega arith, read_tcp_body-le (b ∷ bs) raw (unpack_header (b ∷ bs)) segments rest h)

-- A message that is read takes at least one byte from the stream.
read_tcp_message-shorter :
    (raw : Bytes) (segments rest : List Bytes)
    → read_tcp_message segments ≡ (ok (some raw), rest)
    → left rest < left segments
unfolding read_tcp_message
read_tcp_message-shorter raw segments rest h =
    let (data_read, more) = stream_read (pos 9) segments in
    let (some_read, behind) = read_tcp_data-le data_read raw more rest h in
    let shorter = stream_read-lt 9 segments some_read in omega (arith, behind, shorter)

module _ {F : Type 0} (handle : Message → Served F → Served F) (plain : IsPlain handle)
    (decode : Bytes → Result (Option Message)) where
  decoded_same :
      (f g : ℕ) (o : Result (Option Message)) (s : Served F)
      → ((t : Served F)
          → t.arriving ≡ s.arriving
          → handle_tcp_rounds handle decode f t ≡ handle_tcp_rounds handle decode g t)
      → handle_decoded handle (handle_tcp_rounds handle decode f) o s
        ≡ handle_decoded handle (handle_tcp_rounds handle decode g) o s
  unfolding handle_decoded
  decoded_same f g (raised x) s same = refl
  decoded_same f g (ok none) s same = same s refl
  decoded_same f g (ok (some m)) s same =
      same (handle m s) (ap Served.arriving (plain.upon_same m s s.arriving))

  round_same :
      (f g : ℕ) (read : Result (Option Bytes) × List Bytes) (s : Served F)
      → ((raw : Bytes) (rest : List Bytes) (t : Served F)
          → read ≡ (ok (some raw), rest)
          → t.arriving ≡ rest
          → handle_tcp_rounds handle decode f t ≡ handle_tcp_rounds handle decode g t)
      → handle_tcp_round handle decode (handle_tcp_rounds handle decode f) read s
        ≡ handle_tcp_round handle decode (handle_tcp_rounds handle decode g) read s
  unfolding handle_tcp_round
  round_same f g (raised x, rest) s same = refl
  round_same f g (ok none, rest) s same = refl
  round_same f g (ok (some raw), rest) s same =
      decoded_same f g (decode_message (decode raw)) (record s { arriving = rest })
        (λ t. same raw rest t refl)

  rounds_same :
      (f g : ℕ) (s : Served F)
      → left s.arriving < f
      → left s.arriving < g
      → handle_tcp_rounds handle decode f s ≡ handle_tcp_rounds handle decode g s
  unfolding handle_tcp_rounds
  rounds_same zero g s h k = elim h [ ]
  rounds_same (suc f) zero s h k = elim k [ ]
  rounds_same (suc f) (suc g) s h k =
      round_same f g (read_tcp_message s.arriving) s λ raw rest t r a.
        let shorter = read_tcp_message-shorter raw s.arriving rest r in
        let fewer : left t.arriving ≡ left rest = ap left a in
        rounds_same f g t (omega (arith, shorter, fewer, h)) (omega (arith, shorter, fewer, k))

  handle_stream-enough :
      (fuel : ℕ) (s : Served F)
      → length (all_bytes s.arriving) < fuel
      → handle_tcp_rounds handle decode fuel s ≡ handle_stream handle decode s
  unfolding handle_stream
  handle_stream-enough fuel s h =
      rounds_same fuel (suc (length (all_bytes s.arriving))) s h (omega arith)

-- As many rounds as there are bytes to arrive and one more, or any higher number, give the same result:
-- the loop over a connection ends with its stream, whatever arrives.
pub handle_tcp_rounds-enough :
    {F : Type 0} (e : ClusterEnv F) (decode : Bytes → Result (Option Message)) (fuel : ℕ)
    (s : Served F)
    → length (all_bytes s.arriving) < fuel
    → handle_tcp_rounds (handle_tcp_message e) decode fuel s ≡ handle_tcp_connection e decode s
unfolding handle_tcp_connection
handle_tcp_rounds-enough e decode =
    handle_stream-enough (handle_tcp_message e) (handle_tcp_message-IsPlain e) decode
