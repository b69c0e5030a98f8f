-- ===== src/Cluster/Exchange/Probed.antt =====
-- What the outcome of a probe, as tattle/cluster.py handles it, makes of the knowledge of the node
-- manager.
use tattle.Prelude.{ℕ, String, ◌≡◌, Bool, false, some, arith, if◌then◌else◌, ◌==◌, eq_iff}
use tattle.Prelude.Dict.{get}
use tattle.State.Node.{alive, suspect, status_eq, NodeManager, Env}
use tattle.State.Shape.{Inv, view}
use tattle.State.Knowledge.{names_local}
use tattle.State.Refinement.{on_node_alive-Learns, on_node_suspect-Learns}
use tattle.Cluster.Exchange.{handle_probe_result, handle_probe_timeout}

module _ {F : Type 0} (e : Env F) (name : String) (r : ℕ) (s : NodeManager F) (v : Inv s)
    (mapped : get s.nodes_map name ≡ some r) (remote : names_local s name ≡ false) where
  known_as : view s name ≡ some ((s.heap r).status, (s.heap r).incarnation)
  known_as = ground (arith, mapped)

  -- In a well-formed state, the answer or the failure of a probe of a node that is not the local one
  -- changes the knowledge of no node: a suspect node that answers is announced alive under the
  -- incarnation that it is suspect with, which its own handler takes for old, so it stays suspect.
  pub handle_probe_result-view :
      (result : Bool) (n : String) → view (handle_probe_result e r result s).1 n ≡ view s n
  unfolding handle_probe_result
  handle_probe_result-view result n =
      let node = s.heap r in
      let named : node.name ≡ name = (v.named name r mapped).0 in
      let told =
        on_node_alive-Learns e name node.incarnation node.host node.port (some node.metadata) s v in
      ground (arith, told.views n, named, known_as, remote, eq_iff name n)

  -- In a well-formed state, a probe that times out makes a node that is not the local one and that
  -- was alive suspect, under the incarnation that it had, and keeps the knowledge of all other nodes.
  pub handle_probe_timeout-view :
      (n : String)
      → view (handle_probe_timeout e r s).1 n ≡ (
          if name == n
          then (if status_eq (s.heap r).status alive
              then some (suspect, (s.heap r).incarnation)
              else view s name)
          else view s n)
  unfolding handle_probe_timeout
  handle_probe_timeout-view n =
      let node = s.heap r in
      let named : node.name ≡ name = (v.named name r mapped).0 in
      let told = on_node_suspect-Learns e name node.incarnation s v (some node.metadata) in
      ground (arith, told.views n, named, known_as, remote, eq_iff name n)
