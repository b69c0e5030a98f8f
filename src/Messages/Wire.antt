-- ===== src/Messages/Wire.antt =====
-- The frame of a message in tattle/messages.py: `encode` and `decode` around the serialized body. The
-- header is `struct` format `!IBL`: length, flags and checksum in four, one and four bytes.
pub mod RoundTrip
use Prim.Native.Nat.{bit_xor}
use tattle.Prelude.{
  ℕ, zero, suc, ◌+◌, ◌*◌, ◌/◌, ◌%◌, ◌^◌, Bool, true, false, not, Option, none, some, List, [], ◌∷◌,
  ◌++◌, eqb, ltb, leb, if◌then◌else◌, length, take, drop, ◌&&◌,
}
use tattle.Exec.{
  Result, ok, raised, struct_error, type_error, message_decode_error, message_checksum_error,
}
use tattle.Messages.{Bytes}
use tattle.Crypto.{AesGcm, encrypt_data, decrypt_data}

abbrev pub message_header_length : ℕ
message_header_length = 9

-- `binascii.crc32`: one bit, and one byte
abbrev crc_bit : ℕ → ℕ
crc_bit c = if eqb (c % 2) 1 then bit_xor (c / 2) 0xedb88320 else c / 2

crc_bits : ℕ → ℕ → ℕ
crc_bits zero c = c
crc_bits (suc n) c = crc_bits n (crc_bit c)

crc_bytes : ℕ → Bytes → ℕ
unfolding crc_bits
crc_bytes c [] = c
crc_bytes c (b ∷ bs) = crc_bytes (crc_bits 8 (bit_xor c b)) bs

unfoldable pub crc32 : Bytes → ℕ
unfolding crc_bytes
crc32 raw = bit_xor (crc_bytes 0xffffffff raw) 0xffffffff

-- `& 0xffffffff`
unfoldable pub compute_checksum : Bytes → ℕ
unfolding crc32
compute_checksum raw = crc32 raw % 2 ^ 32

-- Four bytes, the highest first
abbrev pub put_u32 : ℕ → Bytes → Bytes
put_u32 n rest = n / 16777216 % 256 ∷ (n / 65536 % 256 ∷ (n / 256 % 256 ∷ (n % 256 ∷ rest)))

-- `struct.pack('!IBL', length, flags, crc)`
unfoldable pub pack_header : ℕ → ℕ → ℕ → Result Bytes
pack_header size flags crc =
    if ltb size (2 ^ 32) && ltb flags 256 && ltb crc (2 ^ 32)
    then ok (put_u32 size (flags ∷ put_u32 crc []))
    else raised struct_error

-- `struct.unpack('!IBL', buf)`: of nine bytes and nothing else
unfoldable pub unpack_header : Bytes → Result (ℕ × ℕ × ℕ)
unpack_header (a ∷ b ∷ c ∷ d ∷ flags ∷ w ∷ x ∷ y ∷ z ∷ []) =
    ok (((a * 256 + b) * 256 + c) * 256 + d, flags, ((w * 256 + x) * 256 + y) * 256 + z)
unpack_header _ = raised struct_error

-- The checksum, the length and the header, on a body that could be encrypted
unfoldable pub add_header : ℕ → Result Bytes → Result Bytes
unfolding pack_header compute_checksum
add_header flags (raised x) = raised x
add_header flags (ok raw) =
    elim (pack_header (length raw + message_header_length) flags (compute_checksum raw)) [
      | raised x ↦ raised x
      | ok header ↦ ok (header ++ raw)
    ]

module _ (gcm : AesGcm) where
  -- The part of `encode` behind the serialization; the nonce is that of the encryption.
  unfoldable pub encode_body : Bytes → Bytes → Option Bytes → Result Bytes
  unfolding add_header
  encode_body nonce body none = add_header 0 (ok body)
  encode_body nonce body (some key) = add_header 128 (encrypt_data gcm nonce body key 0)

  -- `encryption` is the list of keys, or `None`, over which `decrypt_data` cannot iterate.
  unfoldable pub decrypt_message : Bytes → Option (List (Option Bytes)) → Result Bytes
  decrypt_message [] encryption = raised struct_error
  decrypt_message (b ∷ raw) none = raised type_error
  decrypt_message (b ∷ raw) (some keys) = decrypt_data gcm (b ∷ raw) keys

  unfoldable pub verify_checksum : Bytes → ℕ → Bool
  unfolding compute_checksum
  verify_checksum raw crc = eqb crc (compute_checksum raw)

  -- The part of `decode` before the deserialization. The length in the header is not used.
  unfoldable pub decode_body : Bytes → Option (List (Option Bytes)) → Result Bytes
  unfolding unpack_header decrypt_message verify_checksum
  decode_body buf encryption =
      let raw = drop message_header_length buf in
      if leb (length buf) message_header_length
      then raised message_decode_error
      else (elim (unpack_header (take message_header_length buf)) [
        | raised x ↦ raised x
        | ok (size, flags, crc) ↦
            if not (verify_checksum raw crc)
            then raised message_checksum_error
            else if eqb (flags / 128 % 2) 1
            then decrypt_message raw encryption
            else ok raw
      ])
