-- ===== src/Cluster/Waits/Safe.antt =====
-- What comes behind the wait for a probe, and `ping`, keep a node of tattle/cluster.py sound.
use tattle.Prelude.{
  ℕ, String, ◌||◌, Bool, true, false, Option, none, some, List, [], ◌∷◌, eqb, length, Bool-cases,
  Option-cases, inl, inr, if◌then◌else◌,
}
use tattle.Prelude.Dict.{get}
use tattle.Exec.{ok, modify}
use tattle.Exec.Does.{Does-bind}
use tattle.Messages.{PingRequestMessage}
use tattle.State.Node.{NodeManager, status_eq, suspect}
use tattle.State.Runs.{IsSafe, alive_call-IsSafe, suspect_call-IsSafe}
use tattle.Cluster.Probing.{select_random_nodes}
use tattle.Cluster.Exchange.{handle_probe_result, handle_probe_timeout}
use tattle.Cluster.Handling.{
  Cluster, ClusterEnv, on_manager, probe_node, forward_indirect_probe_result,
}
use tattle.Cluster.Handling.Safe.{
  Keeps, send_to-Keeps, probe_node-Keeps, probe_node_indirect_via-Keeps,
}
use tattle.Cluster.Choosing.{may_probe, probe_each, probe_node_indirect}
use tattle.Cluster.Waits.{
  stop_waiting, probe_timed_out, indirect_ended, request_ended, ping_unknown, ping_named,
}

module _ {F : Type 0} (e : ClusterEnv F) (me : String) where
  pub handle_probe_result-IsSafe :
      (r : ℕ) (result : Bool) (s : NodeManager F)
      → IsSafe me s
      → IsSafe me (handle_probe_result e.env r result s).1
  unfolding handle_probe_result
  handle_probe_result-IsSafe r false s v = v
  handle_probe_result-IsSafe r true s v =
      let node = s.heap r in
      elim (Bool-cases (status_eq node.status suspect)) [
        | inl h ↦
            rw (handle_probe_result, h)
              (alive_call-IsSafe e.env me s v node.name node.incarnation node.host node.port
                (some node.metadata))
        | inr h ↦ rw (handle_probe_result, h) v
      ]

  probe_each-Keeps :
      (target : ℕ) (rs : List ℕ) (s : Cluster F) → Keeps e me s (probe_each e target rs s)
  unfolding probe_each
  probe_each-Keeps target [] s v = v
  probe_each-Keeps target (r ∷ rs) s v =
      probe_each-Keeps target rs _ ((probe_node_indirect_via-Keeps e me target r).at s v)

  pub probe_timed_out-Keeps :
      (r seq : ℕ) (draw : ℕ → ℕ) (k : ℕ) (s : Cluster F)
      → Keeps e me s (probe_timed_out e r seq draw k s).1
  unfolding probe_timed_out stop_waiting on_manager handle_probe_timeout probe_node_indirect
  probe_timed_out-Keeps r seq draw k s =
      (Does-bind {R = Keeps e me} (λ s t u f g v. g (f v))
          (on_manager (handle_probe_timeout e.env r)) (λ u. modify (probe_node_indirect e draw r k))
          (record {
            at = λ (t : Cluster F) v.
                suspect_call-IsSafe e.env me t.manager v (t.manager.heap r).name
                  (t.manager.heap r).incarnation (some (t.manager.heap r).metadata);
          })
          (λ u. record {
            at = λ (t : Cluster F).
                probe_each-Keeps r
                  (select_random_nodes draw k t.manager.nodes
                    (may_probe t.manager r e.local_node_name))
                  t;
          })).at
        (stop_waiting seq s)

  pub indirect_ended-Keeps :
      (r seq : ℕ) (result : Option Bool) (s : Cluster F)
      → Keeps e me s (indirect_ended e r seq result s).1
  unfolding indirect_ended on_manager stop_waiting handle_probe_timeout
  indirect_ended-Keeps r seq none s v =
      let node = s.manager.heap r in
      suspect_call-IsSafe e.env me s.manager v node.name node.incarnation (some node.metadata)
  indirect_ended-Keeps r seq (some result) s v = handle_probe_result-IsSafe r result s.manager v

  pub request_ended-Keeps :
      (msg : PingRequestMessage) (seq : ℕ) (result : Option Bool) (s : Cluster F)
      → Keeps e me s (request_ended e msg seq result s).1
  unfolding request_ended stop_waiting forward_indirect_probe_result
  request_ended-Keeps msg seq none s v = v
  request_ended-Keeps msg seq (some result) s v =
      (send_to-Keeps e me msg.sender_addr _).at (stop_waiting seq s) v

  ping_unknown-Keeps :
      (k : ℕ) (indirect : Bool) (s : Cluster F) → Keeps e me s (ping_unknown k indirect s).1
  unfolding ping_unknown
  ping_unknown-Keeps k true s v = elim (Bool-cases (eqb k 0 || eqb (length s.manager.nodes) 0)) [
    | inl h ↦ rw h v
    | inr h ↦ rw h v
  ]
  ping_unknown-Keeps k false s v = v

  pub ping_named-Keeps :
      (draw : ℕ → ℕ) (k : ℕ) (name : String) (indirect : Bool) (s : Cluster F)
      → Keeps e me s (ping_named e draw k name indirect s).1
  unfolding ping_named probe_node_indirect
  ping_named-Keeps draw k name indirect s v = elim (Option-cases (get s.manager.nodes_map name)) [
    | inl h ↦ rw (ping_named, h) (ping_unknown-Keeps k indirect s v)
    | inr (r, h) ↦ rw (ping_named, h) (known r indirect)
  ]
    where
      known :
          (r : ℕ) (b : Bool)
          → IsSafe me
              (if b then (ok tt, probe_node_indirect e draw r k s) else probe_node e r s).1.manager
      known r true =
          probe_each-Keeps r
            (select_random_nodes draw k s.manager.nodes (may_probe s.manager r e.local_node_name)) s
            v
      known r false = (probe_node-Keeps e me r).at s v
