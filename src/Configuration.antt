-- ===== src/Configuration.antt =====
-- tattle/config.py, and the address and the port of the local node, which tattle/cluster.py takes from it.
-- `F` is the type of the floats.
pub mod Advertised
use tattle.Prelude.{
  ℕ, String, Bool, true, false, Option, none, some, List, [], ◌∷◌, ◌==◌, if◌then◌else◌,
}
use tattle.Exec.{Result, ok, raised, runtime_error}
use tattle.Messages.{Bytes}
use tattle.Network.Addresses.{Machine, default_ip_address}

pub record Configuration (F : Type 0) : Type 0 where
  pub node_name : String
  pub bind_address : Option String
  pub bind_port : Option ℕ
  pub node_address : Option String
  pub node_port : Option ℕ
  pub api_address : String
  pub api_port : ℕ
  pub retransmit_multi : ℕ
  pub probe_interval : F
  pub probe_timeout : F
  pub probe_indirect_nodes : ℕ
  pub sync_interval : ℕ
  pub sync_nodes : ℕ
  pub encryption_key : Option Bytes
  pub suspicion_min_timeout_multi : ℕ
  pub suspicion_max_timeout_multi : ℕ

-- The keyword arguments of `Configuration`
pub data Setting (F : Type 0) : Type 0 where
  set_node_name set_api_address : String → Setting F
  set_bind_address set_node_address : Option String → Setting F
  set_bind_port set_node_port : Option ℕ → Setting F
  set_api_port set_retransmit_multi set_probe_indirect_nodes set_sync_interval set_sync_nodes :
      ℕ → Setting F
  set_suspicion_min_timeout_multi set_suspicion_max_timeout_multi : ℕ → Setting F
  set_probe_interval set_probe_timeout : F → Setting F
  set_encryption_key : Option Bytes → Setting F

module _ {F : Type 0} where
  -- The defaults, with the host's name and the floats that are written with one digit behind the point
  abbrev pub init_config : String → (ℕ → F) → Configuration F
  init_config host_name tenths = record {
    node_name = host_name;
    bind_address = some "0.0.0.0";
    bind_port = some 7900;
    node_address = none;
    node_port = none;
    api_address = "127.0.0.1";
    api_port = 7800;
    retransmit_multi = 3;
    probe_interval = tenths 1;
    probe_timeout = tenths 5;
    probe_indirect_nodes = 3;
    sync_interval = 10;
    sync_nodes = 1;
    encryption_key = none;
    suspicion_min_timeout_multi = 5;
    suspicion_max_timeout_multi = 6;
  }

  -- `self.__dict__.update(**settings)`, one after the other
  unfoldable pub apply_setting : Setting F → Configuration F → Configuration F
  apply_setting (set_node_name name) c = record c { node_name = name }
  apply_setting (set_bind_address address) c = record c { bind_address = address }
  apply_setting (set_bind_port port) c = record c { bind_port = port }
  apply_setting (set_node_address address) c = record c { node_address = address }
  apply_setting (set_node_port port) c = record c { node_port = port }
  apply_setting (set_api_address address) c = record c { api_address = address }
  apply_setting (set_api_port port) c = record c { api_port = port }
  apply_setting (set_retransmit_multi n) c = record c { retransmit_multi = n }
  apply_setting (set_probe_interval time) c = record c { probe_interval = time }
  apply_setting (set_probe_timeout time) c = record c { probe_timeout = time }
  apply_setting (set_probe_indirect_nodes n) c = record c { probe_indirect_nodes = n }
  apply_setting (set_sync_interval n) c = record c { sync_interval = n }
  apply_setting (set_sync_nodes n) c = record c { sync_nodes = n }
  apply_setting (set_encryption_key key) c = record c { encryption_key = key }
  apply_setting (set_suspicion_min_timeout_multi n) c = record c { suspicion_min_timeout_multi = n }
  apply_setting (set_suspicion_max_timeout_multi n) c = record c { suspicion_max_timeout_multi = n }

  unfoldable pub update_settings : List (Setting F) → Configuration F → Configuration F
  unfolding apply_setting
  update_settings [] c = c
  update_settings (s ∷ settings) c = update_settings settings (apply_setting s c)

  -- `Configuration(**settings)`
  abbrev pub configuration : String → (ℕ → F) → List (Setting F) → Configuration F
  configuration host_name tenths settings = update_settings settings (init_config host_name tenths)

-- What is left where the configuration names no address: that of the machine
unfoldable pub machine_address : Result (Option String) → Result String
machine_address (raised x) = raised x
machine_address (ok none) = raised runtime_error
machine_address (ok (some address)) = ok address

-- The address that the node is bound to, or that of its listener
unfoldable pub bound_address : Machine → String → Option String → Result String
unfolding machine_address default_ip_address
bound_address m listening none = ok listening
bound_address m listening (some address) =
    let found = machine_address (default_ip_address m) in
    if address == "0.0.0.0" then found else ok address

abbrev pub or_else : {A : Type 0} → Option A → A → A
or_else none a = a
or_else (some b) a = b

module _ {F : Type 0} where
  -- `Cluster.local_node_address`; `listening` is the address of the listener.
  unfoldable pub local_node_address : Machine → String → Configuration F → Result String
  unfolding bound_address
  local_node_address m listening c = elim c.node_address [
    | some address ↦ ok address
    | none ↦ bound_address m listening c.bind_address
  ]

  -- `Cluster.local_node_port`
  unfoldable pub local_node_port : ℕ → Configuration F → ℕ
  local_node_port listening c = or_else c.node_port (or_else c.bind_port listening)
