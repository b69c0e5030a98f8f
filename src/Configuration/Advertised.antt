-- ===== src/Configuration/Advertised.antt =====
-- The address that a node makes known: `default_ip_address` of tattle/network.py and `local_node_address` of
-- tattle/cluster.py.
use tattle.Prelude.{
  String, ◌≡◌, refl, ◌↔◌, Bool, Option, none, some, List, [], ◌∷◌, ◌++◌, arith, ◌==◌, eq_iff,
  if◌then◌else◌, Bool-cases, Option-cases, inl, inr,
}
use tattle.Exec.{ok, raised, runtime_error}
use tattle.Network.Addresses.{
  IpAddress, Machine, is_usable, try_address, try_addresses, try_devices, default_ip_address,
}
use tattle.Configuration.{Configuration, machine_address, bound_address, local_node_address}

abbrev first_text : List String → Option String
first_text [] = none
first_text (a ∷ rest) = some a

module _ (m : Machine) (ip_of : String → IpAddress)
    (parsed : (a : String) → m.ip_address a ≡ ok (ip_of a)) where
  abbrev pub usable : String → Bool
  usable a = is_usable (ip_of a)

  -- The texts of the usable addresses, in their order
  abbrev pub usable_texts : List String → List String
  usable_texts [] = []
  usable_texts (a ∷ rest) =
      let later = usable_texts rest in if usable a then (ip_of a).text ∷ later else later

  abbrev inet_of : Option (List String) → List String
  inet_of none = []
  inet_of (some addresses) = addresses

  -- All the addresses of the machine, one device after the other
  abbrev pub all_addresses : List String → List String
  all_addresses [] = []
  all_addresses (device ∷ devices) = inet_of (m.inet_addresses device) ++ all_addresses devices

  try_addresses-first :
      (addresses behind : List String)
      → try_addresses m addresses (ok (first_text (usable_texts behind)))
        ≡ ok (first_text (usable_texts (addresses ++ behind)))
  unfolding try_addresses try_address
  try_addresses-first [] behind = refl
  try_addresses-first (a ∷ rest) behind = elim (Bool-cases (usable a)) [
    | inl h ↦ rw (parsed a, h) refl
    | inr h ↦ rw (parsed a, h) (try_addresses-first rest behind)
  ]

  try_devices-first :
      (devices : List String)
      → try_devices m devices ≡ ok (first_text (usable_texts (all_addresses devices)))
  unfolding try_devices
  try_devices-first [] = refl
  try_devices-first (device ∷ devices) = elim (Option-cases (m.inet_addresses device)) [
    | inl h ↦ rw (try_devices, h) (try_devices-first devices)
    | inr (addresses, h) ↦
        rw (try_devices, h, try_devices-first devices)
          (try_addresses-first addresses (all_addresses devices))
  ]

  -- The addresses of the machine can all be parsed: `default_ip_address` is the first of them that is not a
  -- loopback address and is global or private, in the order of the devices, and none if there is no such.
  pub default_ip_address-first :
      default_ip_address m ≡ ok (first_text (usable_texts (all_addresses m.interfaces)))
  unfolding default_ip_address
  default_ip_address-first = try_devices-first m.interfaces

  first_text-none : (texts : List String) → (first_text texts ≡ none) ↔ (texts ≡ [])
  first_text-none [] = (λ e. refl, λ e. refl)
  first_text-none (a ∷ rest) = ground arith

  machine_address-raised :
      (found : Option String) → (machine_address (ok found) ≡ raised runtime_error) ↔ (found ≡ none)
  unfolding machine_address
  machine_address-raised none = (λ e. refl, λ e. refl)
  machine_address-raised (some a) = ground arith

  bound_address-raised :
      (listening : String) (bind_address : Option String)
      → (bound_address m listening bind_address ≡ raised runtime_error)
        ↔ ((bind_address ≡ some "0.0.0.0") × (usable_texts (all_addresses m.interfaces) ≡ []))
  unfolding bound_address
  bound_address-raised listening none = ground arith
  bound_address-raised listening (some address) =
      let texts = usable_texts (all_addresses m.interfaces) in
      let all = eq_iff address "0.0.0.0" in
      elim (Bool-cases (address == "0.0.0.0")) [
        | inl h ↦
            rw (h, default_ip_address-first)
              (ground
                (arith, all, h, machine_address-raised (first_text texts), first_text-none texts))
        | inr h ↦ rw h (ground (arith, all, h))
      ]

  -- The addresses of the machine can all be parsed: a node cannot tell its own address exactly if none is
  -- set to be made known, it is bound to all interfaces, and none of them has a usable address.
  pub local_node_address-raised :
      {F : Type 0} (listening : String) (c : Configuration F)
      → (local_node_address m listening c ≡ raised runtime_error) ↔ (
          (c.node_address ≡ none)
          × (c.bind_address ≡ some "0.0.0.0")
          × (usable_texts (all_addresses m.interfaces) ≡ []))
  unfolding local_node_address bound_address
  local_node_address-raised listening c = elim (Option-cases c.node_address) [
    | inr (address, h) ↦ rw (local_node_address, h) (ground (arith, h))
    | inl h ↦
        rw (local_node_address, h)
          (ground (arith, h, bound_address-raised listening c.bind_address))
  ]
