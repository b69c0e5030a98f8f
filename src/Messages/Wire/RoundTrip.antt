-- ===== src/Messages/Wire/RoundTrip.antt =====
-- `decode` undoes `encode`, on the bytes of tattle/messages.py.
use tattle.Prelude.{
  ℕ, ◌+◌, ◌*◌, ◌/◌, ◌%◌, ◌^◌, ◌<◌, ◌≡◌, ap, ◌∙◌, Option, none, some, List, [], ◌∷◌, ◌++◌, arith,
  length, take, All, eqb, if◌then◌else◌,
}
use tattle.Exec.{ok}
use tattle.Messages.{Bytes}
use tattle.Crypto.{AesGcm, validate_key, encrypt_data, decrypt_data}
use tattle.Crypto.RoundTrip.{Fails, decrypt-encrypt}
use tattle.Messages.Wire.{
  put_u32, pack_header, unpack_header, compute_checksum, decrypt_message, add_header, encode_body,
  decode_body,
}

u32_parts :
    (n : ℕ)
    → n < 2 ^ 32
    → ((n / 16777216 % 256 * 256 + n / 65536 % 256) * 256 + n / 256 % 256) * 256 + n % 256 ≡ n
u32_parts n h = omega arith

abbrev header_of : ℕ → ℕ → ℕ → Bytes
header_of size flags crc = put_u32 size (flags ∷ put_u32 crc [])

pack_header-ok :
    (size flags crc : ℕ)
    → size < 2 ^ 32
    → flags < 256
    → crc < 2 ^ 32
    → pack_header size flags crc ≡ ok (header_of size flags crc)
unfolding pack_header
pack_header-ok size flags crc a b c = ground arith

unpack-header_of :
    (size flags crc : ℕ)
    → size < 2 ^ 32
    → crc < 2 ^ 32
    → unpack_header (header_of size flags crc) ≡ ok (size, flags, crc)
unfolding unpack_header
unpack-header_of size flags crc a c = rw (u32_parts size a, u32_parts crc c)

compute_checksum-lt : (raw : Bytes) → compute_checksum raw < 2 ^ 32
unfolding compute_checksum
compute_checksum-lt raw = omega arith

-- A header with the length of the whole, and a checksum that is right
abbrev frame : ℕ → Bytes → Bytes
frame flags raw = header_of (length raw + 9) flags (compute_checksum raw) ++ raw

-- The header states the length of the message.
pub record IsFrame (buf : Bytes) : Type 0 where
  pub long : 9 < length buf
  pub flags : ℕ
  pub crc : ℕ
  pub header : unpack_header (take 9 buf) ≡ ok (length buf, flags, crc)

frame-IsFrame :
    (flags : ℕ) (raw : Bytes) → length raw + 9 < 2 ^ 32 → 0 < length raw → IsFrame (frame flags raw)
frame-IsFrame flags raw h p =
    let size : length (frame flags raw) ≡ length raw + 9 = omega arith in
    record {
      long = omega arith;
      flags = flags;
      crc = compute_checksum raw;
      header = rw size (
          unpack-header_of (length raw + 9) flags (compute_checksum raw) h
            (compute_checksum-lt raw));
    }

add_header-ok :
    (flags : ℕ) (raw : Bytes)
    → length raw + 9 < 2 ^ 32
    → flags < 256
    → add_header flags (ok raw) ≡ ok (frame flags raw)
unfolding add_header
add_header-ok flags raw h f = ground (
  arith,
  pack_header-ok (length raw + 9) flags (compute_checksum raw) h f (compute_checksum-lt raw),
)

module _ (gcm : AesGcm) where
  decode-frame :
      (flags : ℕ) (raw : Bytes) (keys : Option (List (Option Bytes)))
      → length raw + 9 < 2 ^ 32
      → 0 < length raw
      → decode_body gcm (frame flags raw) keys
        ≡ (if eqb (flags / 128 % 2) 1 then decrypt_message gcm raw keys else ok raw)
  unfolding decode_body
  decode-frame flags raw keys h p = ground (
    arith,
    unpack-header_of (length raw + 9) flags (compute_checksum raw) h (compute_checksum-lt raw),
  )

  -- A body that is not empty, sent without encryption, in a message of less than 2 ^ 32 bytes, is
  -- framed, and decoded as it was, whatever the keys of the receiver.
  pub decode-encode_plain :
      (nonce body : Bytes) (keys : Option (List (Option Bytes)))
      → 0 < length body
      → length body + 9 < 2 ^ 32
      → (buf : Bytes) × (encode_body gcm nonce body none ≡ ok buf)
        × IsFrame buf
        × (decode_body gcm buf keys ≡ ok body)
  unfolding encode_body
  decode-encode_plain nonce body keys p h = (
    frame 0 body,
    add_header-ok 0 body h (omega arith),
    frame-IsFrame 0 body h p,
    decode-frame 0 body keys h p,
  )

  decrypt_message-eq :
      (raw : Bytes) (keys : List (Option Bytes)) (plain : Bytes)
      → decrypt_data gcm raw keys ≡ ok plain
      → (0 < length raw) × (decrypt_message gcm raw (some keys) ≡ ok plain)
  unfolding decrypt_message decrypt_data
  decrypt_message-eq [] keys plain h = cc
  decrypt_message-eq (b ∷ raw) keys plain h = (omega arith, h)

  -- A body sent with a valid key, a nonce of twelve bytes, in a message of less than 2 ^ 32 bytes, is
  -- framed, and decoded as it was by a receiver that has the key behind valid keys that do not open
  -- the message.
  pub decode-encode_encrypted :
      (key nonce body : Bytes) (wrong rest : List (Option Bytes)) (raw : Bytes)
      → length nonce ≡ 12
      → validate_key (some key) ≡ ok key
      → All (Fails gcm nonce (gcm.seal key nonce body).1 (gcm.seal key nonce body).0) wrong
      → encrypt_data gcm nonce body key 0 ≡ ok raw
      → length raw + 9 < 2 ^ 32
      → (buf : Bytes) × (encode_body gcm nonce body (some key) ≡ ok buf)
        × IsFrame buf
        × (decode_body gcm buf (some (wrong ++ some key ∷ rest)) ≡ ok body)
  unfolding encode_body
  decode-encode_encrypted key nonce body wrong rest raw l valid fails encrypted h =
      let (raw', e, d) =
        decrypt-encrypt gcm key nonce body 0 l wrong rest valid (omega arith) fails in
      let same : raw' ≡ raw = ground (arith, e, encrypted) in
      let (p, opens) = decrypt_message-eq raw (wrong ++ some key ∷ rest) body (rw (← same) d) in
      (
        frame 128 raw,
        ap (add_header 128) encrypted ∙ add_header-ok 128 raw h (omega arith),
        frame-IsFrame 128 raw h p,
        decode-frame 128 raw (some (wrong ++ some key ∷ rest)) h p ∙ opens,
      )
