-- ===== src/Messages/Serializer/RoundTrip.antt =====
-- What tattle/messages.py serializes, it deserializes to the same message.
use tattle.Prelude.{ℕ, suc, String, ◌≡◌, refl, ap, true, Option, none, some, List, [], ◌∷◌, arith}
use tattle.Prelude.Dict.{Dict}
use tattle.Exec.{ok}
use tattle.Messages.{
  Message, ping, ping_request, ack, nack, suspect, dead, alive, sync, user, InternetAddress,
  RemoteNodeState,
}
use tattle.Messages.Values.{
  internet_address_type, Value, null, int, str, bin, seq, dict, object, Values, nil, cons, entry,
  text, optional_address, address_value, optional_metadata, metadata_entries, state_value,
  state_values, to_value,
}
use tattle.Messages.Serializer.{
  serialize, serialize_untyped, serialize_items, serialize_entries, field_part, join, deserialize,
  deserialize_items, deserialize_internal, has_type, pop_untyped, pop_typed, after, size,
  size_values,
}

-- The items that an address field adds
abbrev address_items : Option InternetAddress → Values
address_items none = cons null nil
address_items (some a) =
    cons (str "InternetAddress")
      (cons (text a.addr_v4) (cons (text a.addr_v6) (cons (int a.port) nil)))

serialize_untyped-text : (o : Option String) → serialize_untyped (text o) ≡ ok (text o)
unfolding serialize
serialize_untyped-text none = refl
serialize_untyped-text (some s) = refl

serialize_entries-metadata :
    (d : Dict String) → serialize_entries (metadata_entries d) ≡ ok (metadata_entries d)
unfolding serialize
serialize_entries-metadata [] = refl
serialize_entries-metadata ((k, v) ∷ d) =
    ap (λ r. after r (λ fs. ok (entry k (str v) fs))) (serialize_entries-metadata d)

serialize_untyped-metadata :
    (o : Option (Dict String)) → serialize_untyped (optional_metadata o) ≡ ok (optional_metadata o)
unfolding serialize
serialize_untyped-metadata none = refl
serialize_untyped-metadata (some d) =
    ap (λ r. after r (λ fs. ok (dict fs))) (serialize_entries-metadata d)

abbrev address_fields : Option String → Option String → ℕ → Values
address_fields v4 v6 port = cons (text v4) (cons (text v6) (cons (int port) nil))

serialize-address :
    (v4 v6 : Option String) (port : ℕ)
    → serialize (object internet_address_type (address_fields v4 v6 port))
      ≡ ok (seq (cons (str "InternetAddress") (address_fields v4 v6 port)))
unfolding serialize
serialize-address none none port = refl
serialize-address none (some b) port = refl
serialize-address (some a) none port = refl
serialize-address (some a) (some b) port = refl

field_part-address :
    (o : Option InternetAddress)
    → field_part
        (some internet_address_type)
        (optional_address o)
        (serialize (optional_address o))
        (serialize_untyped (optional_address o))
      ≡ ok (address_items o)
unfolding serialize
field_part-address none = refl
field_part-address (some a) =
    ap (λ r. field_part (some internet_address_type) (address_value a) r (ok (address_value a)))
      (serialize-address a.addr_v4 a.addr_v6 a.port)

module _ (fuel : ℕ) where
  pop-text :
      (o : Option String) (rest : Values)
      → pop_untyped (deserialize fuel) (cons (text o) rest) ≡ ok (text o, rest)
  unfolding pop_untyped
  pop-text none rest = refl
  pop-text (some s) rest = refl

  pop-metadata :
      (o : Option (Dict String)) (rest : Values)
      → pop_untyped (deserialize fuel) (cons (optional_metadata o) rest)
        ≡ ok (optional_metadata o, rest)
  unfolding pop_untyped
  pop-metadata none rest = refl
  pop-metadata (some d) rest = refl

  deserialize-address :
      (v4 v6 : Option String) (port : ℕ) (rest : Values)
      → deserialize
          (suc fuel)
          (seq (cons (str "InternetAddress") (join (address_fields v4 v6 port) rest)))
        ≡ ok (object internet_address_type (address_fields v4 v6 port), rest)
  unfolding deserialize
  deserialize-address none none port rest = refl
  deserialize-address none (some b) port rest = refl
  deserialize-address (some a) none port rest = refl
  deserialize-address (some a) (some b) port rest = refl

  pop-address :
      (o : Option InternetAddress) (rest : Values)
      → pop_typed (deserialize (suc fuel)) (join (address_items o) rest)
        ≡ ok (optional_address o, rest)
  unfolding pop_typed
  pop-address none rest = refl
  pop-address (some a) rest = deserialize-address a.addr_v4 a.addr_v6 a.port rest

has_type-address :
    (o : Option InternetAddress) → has_type (some internet_address_type) (optional_address o) ≡ true
has_type-address none = refl
has_type-address (some a) = refl

-- The items of a state of a node
abbrev state_items : RemoteNodeState → Values
state_items r = cons (str "RemoteNodeState") (
    cons (str r.node) (
      join (address_items r.addr) (
        cons (int r.version) (
          cons (int r.incarnation)
            (cons (str r.status) (cons (optional_metadata r.metadata) nil))))))

abbrev states_items : List RemoteNodeState → Values
states_items [] = nil
states_items (r ∷ rs) = cons (seq (state_items r)) (states_items rs)

-- The items that a message is serialized to
abbrev items_of : Message → Values
items_of (ping m) = cons (str "PingMessage") (
    cons (int m.seq)
      (cons (str m.node) (cons (text m.sender) (join (address_items m.sender_addr) nil))))
items_of (ping_request m) = cons (str "PingRequestMessage") (
    cons (int m.seq) (
      cons (str m.node) (
        join (address_items m.node_addr)
          (cons (text m.sender) (join (address_items m.sender_addr) nil)))))
items_of (ack m) = cons (str "AckMessage") (cons (int m.seq) (cons (text m.sender) nil))
items_of (nack m) = cons (str "NackMessage") (cons (int m.seq) (cons (text m.sender) nil))
items_of (suspect m) =
    cons (str "SuspectMessage")
      (cons (str m.node) (cons (int m.incarnation) (cons (text m.sender) nil)))
items_of (dead m) =
    cons (str "DeadMessage")
      (cons (str m.node) (cons (int m.incarnation) (cons (text m.sender) nil)))
items_of (alive m) = cons (str "AliveMessage") (
    cons (str m.node) (
      join (address_items m.addr)
        (cons (int m.incarnation) (cons (optional_metadata m.metadata) nil))))
items_of (sync rs) = cons (str "SyncMessage") (cons (seq (states_items rs)) nil)
items_of (user m) = cons (str "UserMessage") (cons (bin m.payload) (cons (text m.sender) nil))

ruleset fields = (field_part-address, serialize_untyped-text, serialize_untyped-metadata)

serialize-state : (r : RemoteNodeState) → serialize (state_value r) ≡ ok (seq (state_items r))
unfolding serialize
serialize-state r = simp fields

serialize_items-states :
    (rs : List RemoteNodeState) → serialize_items (state_values rs) ≡ ok (states_items rs)
unfolding serialize
serialize_items-states [] = refl
serialize_items-states (r ∷ rs) = simp (serialize-state r, serialize_items-states rs)

serialize-message : (m : Message) → serialize (to_value m) ≡ ok (seq (items_of m))
unfolding serialize
serialize-message (ping m) = simp fields
serialize-message (ping_request m) = simp fields
serialize-message (ack m) = simp fields
serialize-message (nack m) = simp fields
serialize-message (suspect m) = simp fields
serialize-message (dead m) = simp fields
serialize-message (alive m) = simp fields
serialize-message (sync rs) = simp (serialize_items-states rs)
serialize-message (user m) = simp fields

deserialize-state :
    (f : ℕ) (r : RemoteNodeState)
    → deserialize (suc (suc f)) (seq (state_items r)) ≡ ok (state_value r, nil)
unfolding deserialize
deserialize-state f r = simp (pop-address f) (simp (pop-metadata (suc f)) (simp has_type-address))

deserialize_items-states :
    (f : ℕ) (rs : List RemoteNodeState)
    → deserialize_items (deserialize (suc (suc f))) (states_items rs) ≡ ok (state_values rs)
unfolding deserialize_items
deserialize_items-states f [] = refl
deserialize_items-states f (r ∷ rs) =
    simp (deserialize-state f r) (simp (deserialize_items-states f rs))

-- Three levels of calls are enough: a sync message, its states and their addresses.
deserialize-message :
    (f : ℕ) (m : Message)
    → deserialize (suc (suc (suc f))) (seq (items_of m)) ≡ ok (to_value m, nil)
unfolding deserialize
deserialize-message f (ping m) =
    simp (pop-text (suc (suc f))) (simp (pop-address (suc f)) (simp has_type-address))
deserialize-message f (ping_request m) =
    simp (pop-address (suc f))
      (simp (pop-text (suc (suc f))) (simp (pop-address (suc f)) (simp has_type-address)))
deserialize-message f (ack m) = simp (pop-text (suc (suc f)))
deserialize-message f (nack m) = simp (pop-text (suc (suc f)))
deserialize-message f (suspect m) = simp (pop-text (suc (suc f)))
deserialize-message f (dead m) = simp (pop-text (suc (suc f)))
deserialize-message f (alive m) =
    simp (pop-address (suc f)) (simp (pop-metadata (suc (suc f))) (simp has_type-address))
deserialize-message f (sync rs) = simp (deserialize_items-states f rs)
deserialize-message f (user m) = simp (pop-text (suc (suc f)))

size-named :
    (name : String) (rest : Values) → (f : ℕ) × (size (seq (cons (str name) rest)) ≡ suc (suc f))
unfolding size
size-named name rest = (size_values rest, omega arith)

size-items_of : (m : Message) → (f : ℕ) × (size (seq (items_of m)) ≡ suc (suc f))
size-items_of (ping m) = size-named _ _
size-items_of (ping_request m) = size-named _ _
size-items_of (ack m) = size-named _ _
size-items_of (nack m) = size-named _ _
size-items_of (suspect m) = size-named _ _
size-items_of (dead m) = size-named _ _
size-items_of (alive m) = size-named _ _
size-items_of (sync rs) = size-named _ _
size-items_of (user m) = size-named _ _

-- Each message, as the object that it is in Python, is serialized, and what it is serialized to is
-- deserialized to the same object, with all of its fields.
pub deserialize-serialize :
    (m : Message)
    → (items : Value) × (serialize (to_value m) ≡ ok items)
      × (deserialize_internal items ≡ ok (to_value m))
unfolding deserialize_internal
deserialize-serialize m =
    let (f, enough) = size-items_of m in
    (seq (items_of m), serialize-message m, rw (enough, deserialize-message f m) refl)
