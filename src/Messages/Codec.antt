-- ===== src/Messages/Codec.antt =====
-- `MessageSerializer.encode` and `decode` of tattle/messages.py as a whole: the message is serialized,
-- packed by msgpack, encrypted and framed, and back.
use tattle.Prelude.{
  ◌+◌, ◌^◌, ◌<◌, ◌≡◌, ap, ◌∙◌, sym, Option, none, some, List, ◌∷◌, ◌++◌, length, All,
}
use tattle.Exec.{Result, ok}
use tattle.Messages.{Bytes, Message}
use tattle.Messages.Values.{Value, to_value}
use tattle.Messages.Serializer.{serialize, deserialize_internal, after}
use tattle.Messages.Serializer.RoundTrip.{deserialize-serialize}
use tattle.Messages.Wire.{encode_body, decode_body}
use tattle.Messages.Wire.RoundTrip.{IsFrame, decode-encode_plain, decode-encode_encrypted}
use tattle.Crypto.{AesGcm, validate_key, encrypt_data}
use tattle.Crypto.RoundTrip.{Fails}

-- `msgpack.packb(…, use_bin_type=True)` and `msgpack.unpackb(…, use_list=True)`: what has been packed
-- is unpacked as it was, and is never empty.
pub record MsgPack : Type 0 where
  pub packb : Value → Result Bytes
  pub unpackb : Bytes → Result Value
  pub unpackb-packb : (v : Value) (raw : Bytes) → packb v ≡ ok raw → unpackb raw ≡ ok v
  pub packb_pos : (v : Value) (raw : Bytes) → packb v ≡ ok raw → 0 < length raw

module _ (gcm : AesGcm) (msgpack : MsgPack) where
  unfoldable pub serialize_message : Message → Result Bytes
  unfolding serialize
  serialize_message m = after (serialize (to_value m)) msgpack.packb

  unfoldable pub deserialize_message : Bytes → Result Value
  unfolding deserialize_internal
  deserialize_message raw = after (msgpack.unpackb raw) deserialize_internal

  unfoldable pub encode : Bytes → Message → Option Bytes → Result Bytes
  unfolding serialize_message encode_body
  encode nonce m key = after (serialize_message m) (λ raw. encode_body gcm nonce raw key)

  unfoldable pub decode : Bytes → Option (List (Option Bytes)) → Result Value
  unfolding deserialize_message decode_body
  decode buf encryption = after (decode_body gcm buf encryption) deserialize_message

  module _ (nonce : Bytes) (m : Message) (body : Bytes)
      (packed : serialize_message m ≡ ok body) where
    opens : (0 < length body) × (deserialize_message body ≡ ok (to_value m))
    unfolding serialize_message deserialize_message
    opens =
        let (items, there, back) = deserialize-serialize m in
        let p : msgpack.packb items ≡ ok body =
          sym (ap (λ r. after r msgpack.packb) there) ∙ packed in
        (
          msgpack.packb_pos items body p,
          ap (λ r. after r deserialize_internal) (msgpack.unpackb-packb items body p) ∙ back,
        )

    -- A message that msgpack packs to less than 2 ^ 32 bytes, with the header, is encoded without
    -- encryption to a frame, and every receiver decodes the frame to the message, all fields included.
    pub decode-encode_message :
        (keys : Option (List (Option Bytes)))
        → length body + 9 < 2 ^ 32
        → (buf : Bytes) × (encode nonce m none ≡ ok buf)
          × IsFrame buf
          × (decode buf keys ≡ ok (to_value m))
    unfolding encode decode
    decode-encode_message keys h =
        let (buf, there, frame, back) = decode-encode_plain gcm nonce body keys opens.0 h in
        (
          buf,
          ap (λ r. after r (λ raw. encode_body gcm nonce raw none)) packed ∙ there,
          frame,
          ap (λ r. after r deserialize_message) back ∙ opens.1,
        )

    -- Encrypted with a valid key and a nonce of twelve bytes, to less than 2 ^ 32 bytes with the header,
    -- the message is framed too, and a receiver that has the key behind valid keys that do not open
    -- it decodes the frame to the message, all fields included.
    pub decode-encode_secret :
        (key : Bytes) (wrong rest : List (Option Bytes)) (raw : Bytes)
        → length nonce ≡ 12
        → validate_key (some key) ≡ ok key
        → All (Fails gcm nonce (gcm.seal key nonce body).1 (gcm.seal key nonce body).0) wrong
        → encrypt_data gcm nonce body key 0 ≡ ok raw
        → length raw + 9 < 2 ^ 32
        → (buf : Bytes) × (encode nonce m (some key) ≡ ok buf)
          × IsFrame buf
          × (decode buf (some (wrong ++ some key ∷ rest)) ≡ ok (to_value m))
    unfolding encode decode
    decode-encode_secret key wrong rest raw l valid fails encrypted h =
        let (buf, there, frame, back) =
          decode-encode_encrypted gcm key nonce body wrong rest raw l valid fails encrypted h in
        (
          buf,
          ap (λ r. after r (λ b. encode_body gcm nonce b (some key))) packed ∙ there,
          frame,
          ap (λ r. after r deserialize_message) back ∙ opens.1,
        )
