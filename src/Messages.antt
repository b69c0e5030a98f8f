-- ===== src/Messages.antt =====
-- tattle/messages.py: the messages of the protocol, with the fields in the order of `_fields_`.
-- A field that a caller may leave out is an `Option`: `None` is `none`. Names, sequence numbers and
-- incarnations have the types that the program gives them.
pub mod Values
pub mod Serializer
pub mod Codec
pub mod Wire
use tattle.Prelude.{ℕ, String, Option, none, some, List}
use tattle.Prelude.Dict.{Dict}

abbrev pub Bytes : Type 0
Bytes = List ℕ

abbrev pub Metadata : Type 0
Metadata = Dict String

pub record InternetAddress : Type 0 where
  pub addr_v4 : Option String
  pub addr_v6 : Option String
  pub port : ℕ

-- The property `address`.
abbrev pub address : InternetAddress → Option String
address a = elim a.addr_v6 [ some v6 ↦ some v6 | none ↦ a.addr_v4 ]

-- `InternetAddress(addr_v4, port)`
abbrev pub internet_address : Option String → ℕ → InternetAddress
internet_address host port = record { addr_v4 = host; addr_v6 = none; port = port }

pub record PingMessage : Type 0 where
  pub seq : ℕ
  pub node : String
  pub sender : Option String
  pub sender_addr : Option InternetAddress

pub record PingRequestMessage : Type 0 where
  pub seq : ℕ
  pub node : String
  pub node_addr : Option InternetAddress
  pub sender : Option String
  pub sender_addr : Option InternetAddress

-- `AckMessage` and `NackMessage`
pub record AckMessage : Type 0 where
  pub seq : ℕ
  pub sender : Option String

-- `SuspectMessage` and `DeadMessage`
pub record RumorMessage : Type 0 where
  pub node : String
  pub incarnation : ℕ
  pub sender : Option String

pub record AliveMessage : Type 0 where
  pub node : String
  pub addr : Option InternetAddress
  pub incarnation : ℕ
  pub metadata : Option Metadata

pub record RemoteNodeState : Type 0 where
  pub node : String
  pub addr : Option InternetAddress
  pub version : ℕ
  pub incarnation : ℕ
  pub status : String
  pub metadata : Option Metadata

pub record UserMessage : Type 0 where
  pub payload : Bytes
  pub sender : Option String

pub data Message : Type 0 where
  ping : PingMessage → Message
  ping_request : PingRequestMessage → Message
  ack nack : AckMessage → Message
  suspect dead : RumorMessage → Message
  alive : AliveMessage → Message
  sync : List RemoteNodeState → Message
  user : UserMessage → Message
