-- ===== src/Cluster/Streams.antt =====
-- Reading messages from datagrams and TCP streams, and their decoding, in tattle/cluster.py.
use tattle.Prelude.{ℕ, zero, suc, Option, none, some, [], ◌∷◌, ◌++◌, take, drop}
use tattle.Prelude.Int.{ℤ, pos, negsuc, ◌-ℤ◌}
use tattle.Exec.{Result, ok, raised, value_error, message_decode_error, message_checksum_error}
use tattle.Messages.{Bytes}
use tattle.Messages.Wire.{unpack_header}

-- `BufferedReader.read(n)` on bytes: what is read and what is left. -1 reads all, and less is refused.
unfoldable pub read_bytes : ℤ → Bytes → Result (Bytes × Bytes)
read_bytes (pos n) content = ok (take n content, drop n content)
read_bytes (negsuc zero) content = ok (content, [])
read_bytes (negsuc (suc n)) content = raised value_error

-- The second read of a message, behind its header
unfoldable pub read_body : Bytes → Bytes → Result (ℕ × ℕ × ℕ) → Result (Option (Bytes × Bytes))
unfolding read_bytes
read_body head left (raised x) = raised x
read_body head left (ok (size, flags, crc)) = elim (read_bytes (pos size -ℤ pos 9) left) [
  | raised x ↦ raised x
  | ok (body, rest) ↦ ok (some (head ++ body, rest))
]

-- `_read_udp_message`, with what is left of the datagram
unfoldable pub read_udp_message : Bytes → Result (Option (Bytes × Bytes))
unfolding read_body
read_udp_message [] = ok none
read_udp_message (b ∷ bs) =
    read_body (take 9 (b ∷ bs)) (drop 9 (b ∷ bs)) (unpack_header (take 9 (b ∷ bs)))

-- `_decode_message`: `MessageDecodeError` and its subclass are logged, all else is raised.
unfoldable pub decode_message {ℓ} : {M : Type ℓ} → Result (Option M) → Result (Option M)
decode_message (raised message_decode_error) = ok none
decode_message (raised message_checksum_error) = ok none
decode_message (raised x) = raised x
decode_message (ok m) = ok m
