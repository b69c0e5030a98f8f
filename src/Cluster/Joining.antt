-- ===== src/Cluster/Joining.antt =====
-- `join` of tattle/cluster.py, with `_sync_host` for each address and `partition` of tattle/utilities.py.
pub mod Failing
use tattle.Prelude.{
  ℕ, String, Bool, true, false, not, ◌&&◌, ◌||◌, ◌==◌, eqb, Option, none, some, List, [], ◌∷◌,
  if◌then◌else◌,
}
use tattle.Exec.{Result, ok, raised, runtime_error, Exec}
use tattle.Messages.{Bytes, Message}
use tattle.State.Node.{NodeManager}
use tattle.Cluster.Handling.{Cluster, ClusterEnv}
use tattle.Cluster.Choosing.{members}
use tattle.Cluster.Connections.{Served, sync_host}

-- A host and a port
abbrev pub Address : Type 0
Address = String × ℕ

unfoldable pub partition {ℓ} : {A : Type ℓ} → (A → Bool) → List A → List A × List A
partition fun [] = ([], [])
partition fun (i ∷ iterable) =
    let (trues, falses) = partition fun iterable in
    if fun i then (i ∷ trues, falses) else (trues, i ∷ falses)

abbrev pub is_empty {ℓ} : {A : Type ℓ} → List A → Bool
is_empty [] = true
is_empty (x ∷ xs) = false

-- `(node.host, node.port) in known_hosts`
unfoldable pub in_known_hosts : Option String → ℕ → List Address → Bool
in_known_hosts none port known_hosts = false
in_known_hosts (some host) port [] = false
in_known_hosts (some host) port ((h, p) ∷ known_hosts) =
    let rest = in_known_hosts (some host) port known_hosts in ((h == host) && eqb p port) || rest

module _ {F : Type 0} (e : ClusterEnv F) (decode : Bytes → Result (Option Message)) where
  -- `_sync_host` with what arrives on the connection, or with none if it cannot be opened
  unfoldable pub sync_address : Option (List Bytes) → Cluster F → Bool × Cluster F
  unfolding sync_host
  sync_address none s = (false, s)
  sync_address (some segments) s =
      let (success, t) =
        sync_host e decode (record { cluster = s; arriving = segments; written = [] }) in
      (success, t.cluster)

  -- The syncs, one after the other, and which of them succeeded
  unfoldable pub sync_addresses :
      (Address → Option (List Bytes)) → List Address → Cluster F → List Bool × Cluster F
  unfolding sync_address
  sync_addresses connect [] s = ([], s)
  sync_addresses connect (a ∷ addresses) s =
      let (success, t) = sync_address (connect a) s in
      let (results, u) = sync_addresses connect addresses t in (success ∷ results, u)

  -- The hosts of the second round: those of the members that are in the given addresses
  unfoldable pub hosts_again : List Address → NodeManager F → List ℕ → List Address
  unfolding in_known_hosts
  hosts_again known_hosts s [] = []
  hosts_again known_hosts s (r ∷ rest) =
      let node = s.heap r in
      let later = hosts_again known_hosts s rest in
      elim node.host [
        | none ↦ later
        | some host ↦
            if node.name == e.local_node_name
            then later
            else if in_known_hosts (some host) node.port known_hosts
            then (host, node.port) ∷ later
            else later
      ]

  -- `connect` is for the first round of syncs and `again` for the second.
  unfoldable pub join :
      (connect again : Address → Option (List Bytes)) → List Address → Exec (Cluster F) Unit
  unfolding sync_addresses hosts_again partition members
  join connect again addresses s =
      let (results, t) = sync_addresses connect addresses s in
      let (successful, failed) = partition (λ r. r) results in
      if not (is_empty failed) && is_empty successful
      then (raised runtime_error, t)
      else (ok tt, (sync_addresses again (hosts_again addresses t.manager (members t.manager)) t).1)
