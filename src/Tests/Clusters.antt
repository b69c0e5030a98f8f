-- ===== src/Tests/Clusters.antt =====
-- The theorems on tattle/cluster.py at a small datagram and at the manager of the other tests.
use tattle.Prelude.{ℕ, ◌≡◌, refl, true, false, not, Option, none, some, [], ◌∷◌, arith, get_or, eqb}
use tattle.Exec.{Result, ok, raised, message_decode_error}
use tattle.Messages.{Bytes}
use tattle.Messages.Wire.{unpack_header}
use tattle.Messages.Wire.RoundTrip.{IsFrame}
use tattle.Cluster.Streams.{decode_message}
use tattle.Cluster.Datagrams.{handle_udp_data, datagram, Decodes, handle_udp_data-datagram}
use tattle.Cluster.Probing.{select_random_nodes}

-- A frame of eleven bytes with the body `b b`
abbrev pub framed : ℕ → Bytes
framed b = 0 ∷ 0 ∷ 0 ∷ 11 ∷ 0 ∷ 0 ∷ 0 ∷ 0 ∷ 0 ∷ b ∷ b ∷ []

pub framed-IsFrame : (b : ℕ) → IsFrame (framed b)
unfolding unpack_header
framed-IsFrame b = record { long = omega arith; flags = 0; crc = 0; header = refl }

-- The body is the message, and 7 cannot be decoded.
abbrev pub decode : Bytes → Result (Option ℕ)
decode buf = elim (eqb (get_or buf 9 0) 7) [
  | true ↦ raised message_decode_error
  | false ↦ ok (some (get_or buf 9 0))
]

decoded : Decodes decode (framed 5 ∷ framed 7 ∷ framed 6 ∷ []) (some 5 ∷ none ∷ some 6 ∷ [])
unfolding decode_message
decoded = (framed-IsFrame 5, refl, (framed-IsFrame 7, refl, (framed-IsFrame 6, refl, tt)))

-- The second message cannot be decoded.
divided : handle_udp_data decode (datagram (framed 5 ∷ framed 7 ∷ framed 6 ∷ [])) ≡ 5 ∷ 6 ∷ []
divided =
    handle_udp_data-datagram decode (framed 5 ∷ framed 7 ∷ framed 6 ∷ [])
      (some 5 ∷ none ∷ some 6 ∷ []) decoded

selected : select_random_nodes (λ c. c) 2 (3 ∷ 1 ∷ 2 ∷ []) (λ r. not (eqb r 1)) ≡ 3 ∷ 2 ∷ []
unfolding select_random_nodes
selected = refl
