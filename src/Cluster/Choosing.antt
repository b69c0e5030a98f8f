-- ===== src/Cluster/Choosing.antt =====
-- The nodes that the schedules of tattle/cluster.py choose: `members`, the targets of `_do_sync` and of
-- `_probe_node_indirect`, and the ping requests that this sends.
pub mod Members
pub mod Requests
use tattle.Prelude.{
  ℕ, ◌+◌, ◌≤◌, ◌≡◌, refl, sym, ap, ◌∙◌, String, Bool, true, false, not, ◌&&◌, ◌==◌, Option, none,
  some, List, [], ◌∷◌, ◌++◌, arith, length, length-append, count, All, All-append, Bool-cases,
  if◌then◌else◌, inl, inr,
}
use Prim.Native.String.{compare}
use text.Mathlib.Text.{is_lt}
use tattle.Exec.{ok, modify}
use tattle.State.Node.{NodeManager, status_eq, alive, dead}
use tattle.Cluster.Probing.{select_random_nodes, IsSelection, select_random_nodes-IsSelection}
use tattle.Cluster.Handling.{Cluster, ClusterEnv, probe_node_indirect_via, send_udp_message}

module _ {F : Type 0} (s : NodeManager F) where
  unfoldable pub insert_member : ℕ → List ℕ → List ℕ
  insert_member r [] = r ∷ []
  insert_member r (q ∷ rest) =
      let later = insert_member r rest in
      if is_lt (compare (s.heap q).name (s.heap r).name) then q ∷ later else r ∷ q ∷ rest

  unfoldable pub sort_members : List ℕ → List ℕ
  unfolding insert_member
  sort_members [] = []
  sort_members (r ∷ rest) = insert_member r (sort_members rest)

  -- `members`
  unfoldable pub members : List ℕ
  unfolding sort_members
  members = sort_members s.nodes

  -- `_find_nodes` of `_do_sync`
  unfoldable pub may_sync : String → ℕ → Bool
  may_sync local_node_name r =
      not ((s.heap r).name == local_node_name) && not (status_eq (s.heap r).status dead)

  unfoldable pub first : List ℕ → Option ℕ
  first [] = none
  first (r ∷ rest) = some r

  -- The node that `_do_sync` syncs with, if any
  unfoldable pub do_sync : (ℕ → ℕ) → ℕ → String → Option ℕ
  unfolding may_sync first select_random_nodes
  do_sync draw sync_nodes local_node_name =
      first (select_random_nodes draw sync_nodes s.nodes (may_sync local_node_name))

  -- `_find_nodes` of `_probe_node_indirect`
  unfoldable pub may_probe : ℕ → String → ℕ → Bool
  may_probe target local_node_name r =
      not ((s.heap r).name == (s.heap target).name)
      && (not ((s.heap r).name == local_node_name) && status_eq (s.heap r).status alive)

module _ {F : Type 0} (e : ClusterEnv F) where
  -- One request after the other, until each waits. What one of them raises stops no other.
  unfoldable pub probe_each : ℕ → List ℕ → Cluster F → Cluster F
  unfolding probe_node_indirect_via
  probe_each target [] s = s
  probe_each target (r ∷ rest) s = probe_each target rest (probe_node_indirect_via e target r s).1

  unfoldable pub probe_node_indirect : (ℕ → ℕ) → ℕ → ℕ → Cluster F → Cluster F
  unfolding probe_each may_probe select_random_nodes
  probe_node_indirect draw target k s =
      probe_each target
        (select_random_nodes draw k s.manager.nodes (may_probe s.manager target e.local_node_name))
        s
