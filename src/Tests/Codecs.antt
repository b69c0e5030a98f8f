-- ===== src/Tests/Codecs.antt =====
-- Whole messages of tattle/messages.py, with a packer that knows acknowledgements only.
use tattle.Prelude.{
  ◌≡◌, ◌≢◌, suc, refl, none, some, [], ◌∷◌, ◌++◌, arith, length, if◌then◌else◌, ◌==◌, eq_iff, ◌<◌,
}
use tattle.Exec.{Result, ok, raised, type_error, value_error, recursion_error}
use tattle.Messages.{Bytes, Message, ack, sync, ping, internet_address}
use tattle.Messages.Values.{Value, null, int, str, seq, nil, cons, to_value}
use tattle.Messages.Serializer.{serialize, deserialize, size, deserialize_internal}
use tattle.Messages.Serializer.Fuel.{deserialize-ends}
use tattle.Messages.Serializer.RoundTrip.{deserialize-serialize}
use tattle.Messages.Codec.{
  MsgPack, encode, decode, serialize_message, decode-encode_message, decode-encode_secret,
}
use tattle.Messages.Wire.RoundTrip.{IsFrame}
use tattle.Crypto.{encrypt_data}
use tattle.Tests.Wires.{toy, nonce, sixteen, key_checks}

abbrev packs : Value → Result Bytes
packs (seq (cons (str name) (cons (int n) (cons null nil)))) =
    if name == "AckMessage" then ok (n ∷ []) else raised type_error
packs _ = raised type_error

abbrev unpacks : Bytes → Result Value
unpacks (n ∷ []) = ok (seq (cons (str "AckMessage") (cons (int n) (cons null nil))))
unpacks _ = raised value_error

unpacks-packs : (v : Value) (raw : Bytes) → packs v ≡ ok raw → unpacks raw ≡ ok v
unpacks-packs (seq (cons (str name) (cons (int n) (cons null nil)))) raw h =
    ground (arith, h, eq_iff name "AckMessage")
unpacks-packs v raw h = cc

packs_pos : (v : Value) (raw : Bytes) → packs v ≡ ok raw → 0 < length raw
packs_pos (seq (cons (str name) (cons (int n) (cons null nil)))) raw h = ground (arith, h)
packs_pos v raw h = cc

abbrev msgpack : MsgPack
msgpack = record {
  packb = packs;
  unpackb = unpacks;
  unpackb-packb = unpacks-packs;
  packb_pos = packs_pos;
}

abbrev seven : Message
seven = ack (record { seq = 7; sender = none })

packed : serialize_message toy msgpack seven ≡ ok (7 ∷ [])
unfolding serialize_message
packed = refl

sealed : encrypt_data toy nonce (7 ∷ []) (sixteen 5) 0 ≡ ok (0 ∷ (nonce ++ (sixteen 5 ++ 7 ∷ [])))
unfolding encrypt_data
sealed = refl

decode-encode_message_example :
    (buf : Bytes) × (encode toy msgpack nonce seven none ≡ ok buf)
    × IsFrame buf
    × (decode toy msgpack buf none ≡ ok (to_value seven))
decode-encode_message_example =
    decode-encode_message toy msgpack nonce seven (7 ∷ []) packed none (omega arith)

decode-encode_secret_example :
    (buf : Bytes) × (encode toy msgpack nonce seven (some (sixteen 5)) ≡ ok buf)
    × IsFrame buf
    × (decode toy msgpack buf (some (some (sixteen 6) ∷ some (sixteen 5) ∷ []))
        ≡ ok (to_value seven))
decode-encode_secret_example =
    decode-encode_secret toy msgpack nonce seven (7 ∷ []) packed (sixteen 5) (some (sixteen 6) ∷ [])
      [] (0 ∷ (nonce ++ (sixteen 5 ++ 7 ∷ []))) refl key_checks.0
      ((sixteen 6, key_checks.1, refl), tt) sealed (omega arith)

-- A sync message with one state, as tattle/cluster.py sends it
abbrev a_sync : Message
a_sync = sync (
    record {
      node = "peer";
      addr = some (internet_address (some "10.0.0.2") 7900);
      version = 1;
      incarnation = 5;
      status = "ALIVE";
      metadata = some (("role", "db") ∷ []);
    }
    ∷ [])

deserialize-serialize_example :
    (items : Value) × (serialize (to_value a_sync) ≡ ok items)
    × (deserialize_internal items ≡ ok (to_value a_sync))
deserialize-serialize_example = deserialize-serialize a_sync

ping_items :
    serialize (
      to_value (
        ping (record {
          seq = 3;
          node = "peer";
          sender = none;
          sender_addr = some (internet_address none 7900);
        })))
    ≡ ok (
        seq (
          cons (str "PingMessage") (
            cons (int 3) (
              cons (str "peer") (
                cons null
                  (cons (str "InternetAddress") (cons null (cons null (cons (int 7900) nil)))))))))
unfolding serialize
ping_items = refl

deserialize-ends_example :
    (deserialize 90 (seq (cons (str "AckMessage") (cons (int 7) (cons null nil))))
      ≢ raised recursion_error)
    × (deserialize 90 (seq (cons (str "AckMessage") (cons (int 7) (cons null nil))))
        ≡ deserialize
            (suc (size (seq (cons (str "AckMessage") (cons (int 7) (cons null nil))))))
            (seq (cons (str "AckMessage") (cons (int 7) (cons null nil)))))
unfolding size
deserialize-ends_example =
    deserialize-ends 90 (seq (cons (str "AckMessage") (cons (int 7) (cons null nil)))) (omega arith)
