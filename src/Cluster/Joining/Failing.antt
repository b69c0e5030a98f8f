-- ===== src/Cluster/Joining/Failing.antt =====
-- When `join` of tattle/cluster.py fails, and what it does to the cluster.
use tattle.Prelude.{
  ℕ, ◌<◌, ◌≡◌, refl, ◌↔◌, ◌⊎◌, String, Bool, true, false, not, ◌&&◌, ◌==◌, Option, none, some, List,
  [], ◌∷◌, arith, All, length, Bool-cases, Option-cases, inl, inr,
}
use tattle.Exec.{Result, ok, raised, runtime_error}
use tattle.Messages.{Bytes, Message}
use tattle.State.Node.{NodeManager}
use tattle.State.Runs.{IsSafe}
use tattle.Cluster.Handling.{Cluster, ClusterEnv}
use tattle.Cluster.Choosing.{members}
use tattle.Cluster.Connections.Safe.{sync_host-IsSafe}
use tattle.Cluster.Joining.{
  Address, partition, is_empty, in_known_hosts, sync_address, sync_addresses, hosts_again, join,
}

-- The failures among the results are all of them.
partition-failed :
    (results : List Bool)
    → (is_empty (partition (λ r. r) results).0 ≡ true) ↔ All (λ r. r ≡ false) results
unfolding partition
partition-failed [] = (λ h. tt, λ h. refl)
partition-failed (true ∷ results) = (λ h. cc, λ h. cc)
partition-failed (false ∷ results) =
    (λ h. (refl, (partition-failed results).0 h), λ h. (partition-failed results).1 h.1)

partition-none :
    (results : List Bool)
    → All (λ r. r ≡ false) results
    → length (partition (λ r. r) results).1 ≡ length results
unfolding partition
partition-none [] h = refl
partition-none (true ∷ results) h = cc
partition-none (false ∷ results) h = omega (arith, partition-none results h.1)

is_empty-length : {A : Type 0} (xs : List A) → 0 < length xs → is_empty xs ≡ false
is_empty-length [] h = elim h [ ]
is_empty-length (x ∷ xs) h = refl

partition-some :
    (results : List Bool) → is_empty (partition (λ r. r) results).1 ≡ false → 0 < length results
unfolding partition
partition-some [] h = cc
partition-some (r ∷ results) h = omega arith

module _ {F : Type 0} (e : ClusterEnv F) (decode : Bytes → Result (Option Message)) where
  length-sync_addresses :
      (connect : Address → Option (List Bytes)) (addresses : List Address) (s : Cluster F)
      → length (sync_addresses e decode connect addresses s).0 ≡ length addresses
  unfolding sync_addresses
  length-sync_addresses connect [] s = refl
  length-sync_addresses connect (a ∷ addresses) s =
      omega (arith, length-sync_addresses connect addresses (sync_address e decode (connect a) s).1)

  -- A join raises its error if every sync of the given addresses fails, and there is at least one, and
  -- only then.
  pub join-fails :
      (connect again : Address → Option (List Bytes)) (addresses : List Address) (s : Cluster F)
      → ((join e decode connect again addresses s).0 ≡ raised runtime_error) ↔ (
          (0 < length addresses)
          × All (λ r. r ≡ false) (sync_addresses e decode connect addresses s).0)
  unfolding join
  join-fails connect again addresses s =
      let results = (sync_addresses e decode connect addresses s).0 in
      let size = length-sync_addresses connect addresses s in
      (
        λ h.
            let (one, all) : (is_empty (partition (λ r. r) results).1 ≡ false)
                × (is_empty (partition (λ r. r) results).0 ≡ true) =
              (ground (arith, h), ground (arith, h)) in
            (omega (arith, size, partition-some results one), (partition-failed results).0 all),
        λ (some_address, all).
            let one =
              is_empty-length (partition (λ r. r) results).1
                (omega (arith, size, partition-none results all, some_address)) in
            ground (arith, one, (partition-failed results).1 all),
      )

  -- It raises nothing else.
  pub join-returns :
      (connect again : Address → Option (List Bytes)) (addresses : List Address) (s : Cluster F)
      → ((join e decode connect again addresses s).0 ≡ ok tt)
        ⊎ ((join e decode connect again addresses s).0 ≡ raised runtime_error)
  unfolding join
  join-returns connect again addresses s =
      let (successful, failed) =
        partition (λ r. r) (sync_addresses e decode connect addresses s).0 in
      elim (Bool-cases (not (is_empty failed) && is_empty successful)) [
        | inl h ↦ rw (join, h) (inr refl)
        | inr h ↦ rw (join, h) (inl refl)
      ]

  sync_address-IsSafe :
      (me : String) (connection : Option (List Bytes)) (s : Cluster F)
      → IsSafe me s.manager
      → IsSafe me (sync_address e decode connection s).1.manager
  unfolding sync_address
  sync_address-IsSafe me none s v = v
  sync_address-IsSafe me (some segments) s v =
      sync_host-IsSafe e me decode (record { cluster = s; arriving = segments; written = [] }) v

  sync_addresses-IsSafe :
      (me : String) (connect : Address → Option (List Bytes)) (addresses : List Address)
      (s : Cluster F)
      → IsSafe me s.manager
      → IsSafe me (sync_addresses e decode connect addresses s).1.manager
  unfolding sync_addresses
  sync_addresses-IsSafe me connect [] s v = v
  sync_addresses-IsSafe me connect (a ∷ addresses) s v =
      sync_addresses-IsSafe me connect addresses _ (sync_address-IsSafe me (connect a) s v)

  -- A join keeps the manager well-formed and its own node alive, whatever the other hosts answer, also
  -- where it fails.
  pub join-IsSafe :
      (me : String) (connect again : Address → Option (List Bytes)) (addresses : List Address)
      (s : Cluster F)
      → IsSafe me s.manager
      → IsSafe me (join e decode connect again addresses s).1.manager
  unfolding join
  join-IsSafe me connect again addresses s v =
      let (results, t) = sync_addresses e decode connect addresses s in
      let first = sync_addresses-IsSafe me connect addresses s v in
      let second =
        sync_addresses-IsSafe me again
          (hosts_again e decode addresses t.manager (members t.manager)) t first in
      let (successful, failed) = partition (λ r. r) results in
      elim (Bool-cases (not (is_empty failed) && is_empty successful)) [
        | inl h ↦ rw (join, h) first
        | inr h ↦ rw (join, h) second
      ]

  -- The hosts that the second round of a join syncs with are given addresses, whatever members there are.
  -- A node that the first round has made known is left out, unless its address was given.
  pub hosts_again-known :
      (known_hosts : List Address) (s : NodeManager F) (rs : List ℕ)
      → All
          (λ a. in_known_hosts (some a.0) a.1 known_hosts ≡ true)
          (hosts_again e decode known_hosts s rs)
  unfolding hosts_again
  hosts_again-known known_hosts s [] = tt
  hosts_again-known known_hosts s (r ∷ rs) =
      let later = hosts_again-known known_hosts s rs in
      elim (Option-cases (s.heap r).host) [
        | inl h ↦ rw (h, hosts_again) later
        | inr (host, h) ↦ elim (Bool-cases ((s.heap r).name == e.local_node_name)) [
          | inl mine ↦ rw (h, hosts_again, mine) later
          | inr other ↦ elim (Bool-cases (in_known_hosts (some host) (s.heap r).port known_hosts)) [
            | inl known ↦ rw (h, hosts_again, other, known) (known, later)
            | inr new ↦ rw (h, hosts_again, other, new) later
          ]
        ]
      ]
