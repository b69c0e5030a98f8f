-- ===== src/State/Node.antt =====
-- tattle/state.py: the nodes, the suspicions and the state of the `NodeManager`, with what an
-- operation takes from outside. `F` is the type of the floats.
use tattle.Prelude.{ℕ, String, Bool, true, false, Option, none, List, []}
use tattle.Prelude.Dict.{Dict}
use tattle.Prelude.Int.{ℤ}
use tattle.Exec.{Result}
use tattle.Sequence.{Sequence}
use tattle.Messages.{Message, Bytes, Metadata}
use tattle.Queue.{BroadcastQueue}

pub data Status : Type 0 where
  alive suspect dead : Status

-- `NODE_STATUS_ALIVE`, `NODE_STATUS_SUSPECT` and `NODE_STATUS_DEAD`
abbrev pub status_text : Status → String
status_text alive = "ALIVE"
status_text suspect = "SUSPECT"
status_text dead = "DEAD"

abbrev pub status_eq : Status → Status → Bool
status_eq alive alive = true
status_eq suspect suspect = true
status_eq dead dead = true
status_eq _ _ = false

-- `Node` without its streams.
pub record Node : Type 0 where
  pub name : String
  pub host : Option String
  pub port : ℕ
  pub incarnation : ℕ
  pub version : ℕ
  pub metadata : Metadata
  pub status : Status
  pub status_change_timestamp : Option ℕ

-- `Node(name, host, port)`
abbrev pub new_node : String → Option String → ℕ → Node
new_node name host port = record {
  name = name;
  host = host;
  port = port;
  incarnation = 0;
  version = 1;
  metadata = [];
  status = dead;
  status_change_timestamp = none;
}

-- A suspicion timer that the event loop is to run, with the node that its callback names.
pub record Timer (F : Type 0) : Type 0 where
  pub id : ℕ
  pub node : ℕ
  pub time : F

pub record SuspectNode (F : Type 0) : Type 0 where
  pub timer : ℕ
  pub k : ℤ
  pub min_timeout : F
  pub max_timeout : F
  pub confirmations : Dict String

pub record Event : Type 0 where
  pub event : String
  pub node : ℕ

-- Nodes are shared objects: `nodes` and `nodes_map` hold references into `heap`, and the references
-- from `next` on are unused. `scheduled` are the timers that the event loop holds, `tasks` the nodes
-- whose timer has run and whose death is about to be declared, `emitted` the events so far.
pub record NodeManager (F : Type 0) : Type 0 where
  pub heap : ℕ → Node
  pub next : ℕ
  pub queue : BroadcastQueue
  pub leaving : Bool
  pub nodes : List ℕ
  pub nodes_map : Dict ℕ
  pub suspect_nodes : Dict (SuspectNode F)
  pub local_node_name : Option String
  pub local_node_seq : Sequence
  pub scheduled : List (Timer F)
  pub next_timer : ℕ
  pub tasks : List ℕ
  pub emitted : List Event

-- What one operation takes from outside: the configuration, the operations of the floats, the clock,
-- a random number and the encoder of messages, which may raise (`encode` of tattle/messages.py, which
-- Messages/Codec.antt models).
pub record Env (F : Type 0) : Type 0 where
  pub suspicion_min_timeout_multi : ℕ
  pub suspicion_max_timeout_multi : ℕ
  pub probe_interval : F
  pub from_int : ℕ → F
  pub log10 : F → F
  pub mul : F → F → F
  pub max_float : F → F → F
  pub now : ℕ
  pub random : ℕ
  pub encode : Message → Result Bytes
