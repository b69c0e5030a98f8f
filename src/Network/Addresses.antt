-- ===== src/Network/Addresses.antt =====
-- `default_ip_address` of tattle/network.py. What netifaces and ipaddress answer are parameters.
use tattle.Prelude.{String, Bool, not, ◌&&◌, ◌||◌, Option, none, some, List, [], ◌∷◌, if◌then◌else◌}
use tattle.Exec.{Result, ok, raised}

-- What the code reads of an `ipaddress.IPv4Address`
pub record IpAddress : Type 0 where
  pub text : String
  pub is_loopback : Bool
  pub is_global : Bool
  pub is_private : Bool

-- The network interfaces, for each the `AF_INET` addresses that it has, if any, and `ip_address`
pub record Machine : Type 0 where
  pub interfaces : List String
  pub inet_addresses : String → Option (List String)
  pub ip_address : String → Result IpAddress

abbrev pub is_usable : IpAddress → Bool
is_usable ip = not ip.is_loopback && (ip.is_global || ip.is_private)

module _ (m : Machine) where
  -- An address, and the rest of the loop
  unfoldable pub try_address : Result IpAddress → Result (Option String) → Result (Option String)
  try_address (raised x) later = raised x
  try_address (ok ip) later = if is_usable ip then ok (some ip.text) else later

  -- The loop over the addresses of a device, with what comes behind them
  unfoldable pub try_addresses : List String → Result (Option String) → Result (Option String)
  unfolding try_address
  try_addresses [] later = later
  try_addresses (a ∷ rest) later = try_address (m.ip_address a) (try_addresses rest later)

  -- The loop over the devices: one without the key has no address.
  unfoldable pub try_devices : List String → Result (Option String)
  unfolding try_addresses
  try_devices [] = ok none
  try_devices (device ∷ devices) = elim (m.inet_addresses device) [
    | none ↦ try_devices devices
    | some addresses ↦ try_addresses addresses (try_devices devices)
  ]

  unfoldable pub default_ip_address : Result (Option String)
  unfolding try_devices
  default_ip_address = try_devices m.interfaces
