-- ===== src/Messages/Serializer.antt =====
-- `MessageSerializer` of tattle/messages.py on values: messages as lists that begin with the name of
-- their class, with the fields of a nested message in line.
pub mod RoundTrip
pub mod Shrinking
pub mod Fuel
use Prim.Native.String.{String}
use tattle.Prelude.{
  ℕ, zero, suc, ◌+◌, Bool, true, false, Option, none, some, List, [], ◌∷◌, ◌==◌, if◌then◌else◌,
}
use tattle.Exec.{
  Result, ok, raised, attribute_error, index_error, key_error, type_error, recursion_error,
}
use tattle.Messages.Values.{
  MessageType, internet_address_type, ping_type, ping_request_type, ack_type, nack_type,
  suspect_type, dead_type, alive_type, remote_node_state_type, sync_type, user_type, message_type,
  base_message_type, Value, null, int, str, bin, seq, dict, object, Values, nil, cons, Entries, end,
  entry, class_name, Field, get_fields,
}

-- Where the first part raises, nothing follows.
abbrev pub after {ℓ κ} : {A : Type ℓ} {B : Type κ} → Result A → (A → Result B) → Result B
after (raised x) next = raised x
after (ok a) next = next a

abbrev pub join : Values → Values → Values
join nil ys = ys
join (cons x xs) ys = cons x (join xs ys)

abbrev characters : String → Values
characters String.[] = nil
characters (String.◌∷◌ c s) = cons (str (String.◌∷◌ c String.[])) (characters s)

abbrev byte_values : List ℕ → Values
byte_values [] = nil
byte_values (b ∷ bs) = cons (int b) (byte_values bs)

-- What `list.extend` adds
abbrev pub extension : Value → Result Values
extension (seq vs) = ok vs
extension (str s) = ok (characters s)
extension (bin bs) = ok (byte_values bs)
extension _ = raised type_error

-- What a field adds to the list: a typed one that is not `None` what its value is serialized to, any
-- other one item.
abbrev pub field_part : Option MessageType → Value → Result Value → Result Value → Result Values
field_part (some t) null typed untyped = after untyped (λ v. ok (cons v nil))
field_part (some t) attr typed untyped = after typed extension
field_part none attr typed untyped = after untyped (λ v. ok (cons v nil))

-- `_serialize_internal`; `serialize_untyped` is its branch on the value of a field without a class.
unfoldable mutual
  pub serialize : Value → Result Value
  serialize (str s) = ok (str s)
  serialize (bin bs) = ok (bin bs)
  serialize (int n) = ok (int n)
  serialize null = raised attribute_error
  serialize (seq vs) = raised attribute_error
  serialize (dict es) = raised attribute_error
  serialize (object t attrs) =
      after (serialize_fields attrs (get_fields t)) (λ vs. ok (seq (cons (str (class_name t)) vs)))

  pub serialize_untyped : Value → Result Value
  serialize_untyped (seq vs) = after (serialize_items vs) (λ ws. ok (seq ws))
  serialize_untyped (dict es) = after (serialize_entries es) (λ fs. ok (dict fs))
  serialize_untyped (str s) = ok (str s)
  serialize_untyped (bin bs) = ok (bin bs)
  serialize_untyped (int n) = ok (int n)
  serialize_untyped null = ok null
  serialize_untyped (object t attrs) = ok (object t attrs)

  pub serialize_fields : Values → List Field → Result Values
  serialize_fields attrs [] = ok nil
  serialize_fields nil (field ∷ fields) = raised attribute_error
  serialize_fields (cons attr attrs) (field ∷ fields) =
      after (field_part field.1 attr (serialize attr) (serialize_untyped attr))
        (λ part. after (serialize_fields attrs fields) (λ rest. ok (join part rest)))

  pub serialize_items : Values → Result Values
  serialize_items nil = ok nil
  serialize_items (cons v vs) =
      after (serialize v) (λ w. after (serialize_items vs) (λ ws. ok (cons w ws)))

  pub serialize_entries : Entries → Result Entries
  serialize_entries end = ok end
  serialize_entries (entry k v es) =
      after (serialize v) (λ w. after (serialize_entries es) (λ fs. ok (entry k w fs)))

-- `getattr(sys.modules[__name__], name)`, as far as it has fields
unfoldable pub class_named : String → Option MessageType
class_named name =
    if name == "InternetAddress"
    then some internet_address_type
    else if name == "PingMessage"
    then some ping_type
    else if name == "PingRequestMessage"
    then some ping_request_type
    else if name == "AckMessage"
    then some ack_type
    else if name == "NackMessage"
    then some nack_type
    else if name == "SuspectMessage"
    then some suspect_type
    else if name == "DeadMessage"
    then some dead_type
    else if name == "AliveMessage"
    then some alive_type
    else if name == "RemoteNodeState"
    then some remote_node_state_type
    else if name == "SyncMessage"
    then some sync_type
    else if name == "UserMessage"
    then some user_type
    else if name == "Message"
    then some message_type
    else if name == "_BaseMessage"
    then some base_message_type
    else none

-- A field with a class takes `None` and the objects of the class. No class of a field has subclasses.
abbrev pub has_type : Option MessageType → Value → Bool
has_type none v = true
has_type (some t) null = true
has_type (some t) (object u attrs) = class_name u == class_name t
has_type (some t) v = false

-- The loop over the positional arguments in `_BaseMessage.__init__`; what is not given is `None`.
unfoldable pub assign_fields : List Field → Values → Result Values
assign_fields [] nil = ok nil
assign_fields [] (cons arg args) = raised index_error
assign_fields (field ∷ fields) nil = after (assign_fields fields nil) (λ rest. ok (cons null rest))
assign_fields (field ∷ fields) (cons arg args) =
    let rest = assign_fields fields args in
    if has_type field.1 arg then after rest (λ vs. ok (cons arg vs)) else raised type_error

-- `_BaseMessage.__init__(message, *args)`
unfoldable pub init_message : MessageType → Values → Result Value
unfolding assign_fields
init_message t args = after (assign_fields (get_fields t) args) (λ attrs. ok (object t attrs))

-- One value, and what is left of the list that it was popped from
abbrev pub Popped : Type 0
Popped = Result (Value × Values)

module _ (recur : Value → Popped) where
  unfoldable pub deserialize_items : Values → Result Values
  deserialize_items nil = ok nil
  deserialize_items (cons v vs) =
      after (recur v) (λ p. after (deserialize_items vs) (λ ws. ok (cons p.0 ws)))

  -- A field with a class: `None` is popped, anything else is a message in line.
  unfoldable pub pop_typed : Values → Popped
  pop_typed nil = raised index_error
  pop_typed (cons null rest) = ok (null, rest)
  pop_typed (cons v rest) = recur (seq (cons v rest))

  unfoldable pub pop_untyped : Values → Popped
  unfolding deserialize_items
  pop_untyped nil = raised index_error
  pop_untyped (cons (seq vs) rest) = after (deserialize_items vs) (λ ws. ok (seq ws, rest))
  pop_untyped (cons v rest) = ok (v, rest)

  unfoldable pub pop_field : Option MessageType → Values → Popped
  unfolding pop_typed pop_untyped
  pop_field (some t) items = pop_typed items
  pop_field none items = pop_untyped items

  unfoldable pub deserialize_fields : List Field → Values → Result (Values × Values)
  unfolding pop_field
  deserialize_fields [] items = ok (nil, items)
  deserialize_fields (field ∷ fields) items =
      after (pop_field field.1 items)
        (λ p. after (deserialize_fields fields p.1) (λ q. ok (cons p.0 q.0, q.1)))

  -- The rest of `_deserialize_internal`, with the name of the class
  unfoldable pub deserialize_named : Value → Values → Popped
  unfolding class_named deserialize_fields init_message
  deserialize_named null items = ok (null, items)
  deserialize_named (str name) items = elim (class_named name) [
    | none ↦ raised attribute_error
    | some t ↦
        after (deserialize_fields (get_fields t) items)
          (λ p. after (init_message t p.0) (λ v. ok (v, p.1)))
  ]
  deserialize_named name items = raised type_error

-- `_deserialize_internal`. Each call pops an item, so that the size of the data is fuel enough.
unfoldable pub deserialize : ℕ → Value → Popped
unfolding deserialize_named
deserialize zero v = raised recursion_error
deserialize (suc fuel) (str s) = ok (str s, nil)
deserialize (suc fuel) (bin bs) = ok (bin bs, nil)
deserialize (suc fuel) (int n) = ok (int n, nil)
deserialize (suc fuel) null = raised attribute_error
deserialize (suc fuel) (dict es) = raised key_error
deserialize (suc fuel) (object t attrs) = raised attribute_error
deserialize (suc fuel) (seq nil) = raised index_error
deserialize (suc fuel) (seq (cons name items)) = deserialize_named (deserialize fuel) name items

unfoldable mutual
  pub size : Value → ℕ
  size (seq vs) = suc (size_values vs)
  size (object t vs) = suc (size_values vs)
  size _ = 1

  pub size_values : Values → ℕ
  size_values nil = 0
  size_values (cons v vs) = size v + size_values vs

-- `_deserialize_internal` of data that msgpack has unpacked
unfoldable pub deserialize_internal : Value → Result Value
unfolding deserialize size
deserialize_internal v = after (deserialize (suc (size v)) v) (λ p. ok p.0)
