-- ===== src/Messages/Values.antt =====
-- The Python values that tattle/messages.py serializes: messages as objects of a class with their
-- fields, and what msgpack packs and unpacks.
use tattle.Prelude.{ℕ, String, Option, none, some, List, [], ◌∷◌}
use tattle.Prelude.Dict.{Dict}
use tattle.Messages.{
  Bytes, Message, ping, ping_request, ack, nack, suspect, dead, alive, sync, user, InternetAddress,
  RemoteNodeState,
}

-- The subclasses of `_BaseMessage`
pub data MessageType : Type 0 where
  internet_address_type ping_type ping_request_type ack_type nack_type : MessageType
  suspect_type dead_type alive_type remote_node_state_type sync_type user_type : MessageType
  message_type base_message_type : MessageType

-- `seq` is a list, `dict` a dictionary with string keys, and `object` an object of a message class with
-- the values of its fields, in the order of `get_fields`.
mutual
  pub data Value : Type 0 where
    null : Value
    int : ℕ → Value
    str : String → Value
    bin : Bytes → Value
    seq : Values → Value
    dict : Entries → Value
    object : MessageType → Values → Value

  pub data Values : Type 0 where
    nil : Values
    cons : Value → Values → Values

  pub data Entries : Type 0 where
    end : Entries
    entry : String → Value → Entries → Entries

-- `message_type.__name__`
abbrev pub class_name : MessageType → String
class_name internet_address_type = "InternetAddress"
class_name ping_type = "PingMessage"
class_name ping_request_type = "PingRequestMessage"
class_name ack_type = "AckMessage"
class_name nack_type = "NackMessage"
class_name suspect_type = "SuspectMessage"
class_name dead_type = "DeadMessage"
class_name alive_type = "AliveMessage"
class_name remote_node_state_type = "RemoteNodeState"
class_name sync_type = "SyncMessage"
class_name user_type = "UserMessage"
class_name message_type = "Message"
class_name base_message_type = "_BaseMessage"

-- A field has a name and, in some cases, the class of its values.
abbrev pub Field : Type 0
Field = String × Option MessageType

abbrev plain : String → Field
plain name = (name, none)

abbrev address_field : String → Field
address_field name = (name, some internet_address_type)

-- The fields of the class; its base classes have none.
abbrev pub get_fields : MessageType → List Field
get_fields internet_address_type = plain "addr_v4" ∷ plain "addr_v6" ∷ plain "port" ∷ []
get_fields ping_type =
    plain "seq" ∷ plain "node" ∷ plain "sender" ∷ address_field "sender_addr" ∷ []
get_fields ping_request_type =
    plain "seq"
    ∷ plain "node"
    ∷ address_field "node_addr"
    ∷ plain "sender"
    ∷ address_field "sender_addr"
    ∷ []
get_fields ack_type = plain "seq" ∷ plain "sender" ∷ []
get_fields nack_type = plain "seq" ∷ plain "sender" ∷ []
get_fields suspect_type = plain "node" ∷ plain "incarnation" ∷ plain "sender" ∷ []
get_fields dead_type = plain "node" ∷ plain "incarnation" ∷ plain "sender" ∷ []
get_fields alive_type =
    plain "node" ∷ address_field "addr" ∷ plain "incarnation" ∷ plain "metadata" ∷ []
get_fields remote_node_state_type =
    plain "node"
    ∷ address_field "addr"
    ∷ plain "version"
    ∷ plain "incarnation"
    ∷ plain "status"
    ∷ plain "metadata"
    ∷ []
get_fields sync_type = plain "nodes" ∷ []
get_fields user_type = plain "data" ∷ plain "sender" ∷ []
get_fields message_type = []
get_fields base_message_type = []

-- `None` or a string
abbrev pub text : Option String → Value
text none = null
text (some s) = str s

abbrev pub address_value : InternetAddress → Value
address_value a =
    object internet_address_type
      (cons (text a.addr_v4) (cons (text a.addr_v6) (cons (int a.port) nil)))

abbrev pub optional_address : Option InternetAddress → Value
optional_address none = null
optional_address (some a) = address_value a

abbrev pub metadata_entries : Dict String → Entries
metadata_entries [] = end
metadata_entries ((k, v) ∷ d) = entry k (str v) (metadata_entries d)

abbrev pub optional_metadata : Option (Dict String) → Value
optional_metadata none = null
optional_metadata (some d) = dict (metadata_entries d)

abbrev pub state_value : RemoteNodeState → Value
state_value r = object remote_node_state_type (
    cons (str r.node) (
      cons (optional_address r.addr) (
        cons (int r.version) (
          cons (int r.incarnation)
            (cons (str r.status) (cons (optional_metadata r.metadata) nil))))))

abbrev pub state_values : List RemoteNodeState → Values
state_values [] = nil
state_values (r ∷ rs) = cons (state_value r) (state_values rs)

abbrev rumor_values : String → ℕ → Option String → Values
rumor_values node incarnation sender =
    cons (str node) (cons (int incarnation) (cons (text sender) nil))

-- The object that a message is in Python
abbrev pub to_value : Message → Value
to_value (ping m) = object ping_type (
    cons (int m.seq)
      (cons (str m.node) (cons (text m.sender) (cons (optional_address m.sender_addr) nil))))
to_value (ping_request m) = object ping_request_type (
    cons (int m.seq) (
      cons (str m.node) (
        cons (optional_address m.node_addr)
          (cons (text m.sender) (cons (optional_address m.sender_addr) nil)))))
to_value (ack m) = object ack_type (cons (int m.seq) (cons (text m.sender) nil))
to_value (nack m) = object nack_type (cons (int m.seq) (cons (text m.sender) nil))
to_value (suspect m) = object suspect_type (rumor_values m.node m.incarnation m.sender)
to_value (dead m) = object dead_type (rumor_values m.node m.incarnation m.sender)
to_value (alive m) = object alive_type (
    cons (str m.node) (
      cons (optional_address m.addr)
        (cons (int m.incarnation) (cons (optional_metadata m.metadata) nil))))
to_value (sync rs) = object sync_type (cons (seq (state_values rs)) nil)
to_value (user m) = object user_type (cons (bin m.payload) (cons (text m.sender) nil))
