-- ===== src/Api/Serving.antt =====
-- What the HTTP interface of tattle/api.py answers.
use tattle.Prelude.{
  ℕ, ◌<◌, String, ◌≡◌, ◌↔◌, ◌⊎◌, refl, ap, ◌∙◌, List, arith, map, count, All, length, false, inl,
  inr,
}
use tattle.Exec.{Result, ok, raised, runtime_error}
use tattle.State.Node.{NodeManager}
use tattle.State.Shape.{Inv, is_mapped, view}
use tattle.State.Runs.{IsSafe}
use tattle.Cluster.Choosing.{members}
use tattle.Cluster.Choosing.Members.{IsOrdered, members-IsOrdered}
use tattle.Cluster.Exchange.Reporting.{found, carried, found-view}
use tattle.Cluster.Joining.{Address, join, sync_addresses}
use tattle.Cluster.Joining.Failing.{join-fails, join-returns, join-IsSafe}
use tattle.Cluster.Lifecycle.{ClusterNode}
use tattle.Api.{
  NodeJson, member_body, exception_body, Response, json_response, middleware_handler, respond,
  join_addresses, get_method, post_method, Request, Web, ApiEnv, node_to_json, join_members,
  on_linked_cluster, post, get_member, handle, route, serve,
}

-- The answer to a request whose operation returns or raises a RuntimeError
abbrev failure_answer : Response
failure_answer = record { status = 500; body = exception_body runtime_error }

respond-join :
    (outcome : Result (Unit {0}))
    → (outcome ≡ ok tt) ⊎ (outcome ≡ raised runtime_error)
    → ((middleware_handler (respond outcome) ≡ json_response)
        ⊎ (middleware_handler (respond outcome) ≡ failure_answer))
      × ((middleware_handler (respond outcome) ≡ failure_answer) ↔ (outcome ≡ raised runtime_error))
unfolding middleware_handler respond
respond-join outcome (inl h) = rw h (inl refl, (λ k. ground (arith, ap (λ r. r.status) k), λ k. cc))
respond-join outcome (inr h) = rw h (inr refl, (λ k. refl, λ k. refl))

module _ {F : Type 0} (e : ApiEnv F) (w : Web) (s : ClusterNode F) where
  abbrev manager : NodeManager F
  manager = s.linked.cluster.manager

  abbrev listed : List NodeJson
  listed = map (node_to_json manager) (members manager)

  -- A request for the members is answered with what the node knows and changes nothing: if its manager is
  -- well-formed, the answer has one entry for each node, each name is not before the one in front of it, and of
  -- each name it says the status and the incarnation that the node knows, or nothing if it is unknown.
  pub serve-members :
      (request : Request)
      → request.path ≡ "/cluster/members/"
      → request.method ≡ get_method
      → Inv manager
      → (serve e w request s ≡ (record { status = 200; body = member_body listed }, s))
        × IsOrdered manager (members manager)
        × ((q : ℕ) → count q (members manager) ≡ is_mapped manager q)
        × ((n : String)
            → found
                (λ (x : NodeJson). x.name)
                (λ (x : NodeJson). (x.status, x.incarnation))
                listed
                n
              ≡ carried (view manager n))
  unfolding serve handle get_member middleware_handler route node_to_json
  serve-members request p m v =
      let (ordered, counts) = members-IsOrdered manager in
      let once : (q : ℕ) → count q (members manager) ≡ is_mapped manager q =
        λ q. counts q ∙ v.listed q in
      (
        rw (p, m) refl,
        ordered,
        once,
        λ n.
            found-view (λ (x : NodeJson). x.name) (λ (x : NodeJson). (x.status, x.incarnation))
              manager (node_to_json manager) (λ r. refl) (λ r. refl) n (members manager) v once,
      )

  -- A request to join whose body is read as addresses, to a node whose manager is well-formed with its own node
  -- alive, is answered with success or with the RuntimeError of the join, and in this way exactly if there is
  -- an address in it and every sync with one fails; either way the manager stays well-formed with its
  -- own node alive.
  pub serve-join :
      (request : Request) (addresses : List Address) (me : String)
      → request.path ≡ "/cluster/join"
      → request.method ≡ post_method
      → join_addresses request.nodes ≡ ok addresses
      → IsSafe me manager
      → let (response, t) = serve e w request s in
        ((response ≡ json_response)
          ⊎ (response ≡ record { status = 500; body = exception_body runtime_error }))
        × ((response ≡ record { status = 500; body = exception_body runtime_error }) ↔ (
            (0 < length addresses)
            × All
                (λ r. r ≡ false)
                (sync_addresses e.env e.decode e.connect addresses s.linked.cluster).0))
        × IsSafe me t.linked.cluster.manager
  unfolding serve handle post join_members on_linked_cluster middleware_handler route respond
  serve-join request addresses me p m a v =
      let outcome = (join e.env e.decode e.connect e.again addresses s.linked.cluster).0 in
      let returns = join-returns e.env e.decode e.connect e.again addresses s.linked.cluster in
      let (answer, failure) = respond-join outcome returns in
      let fails = join-fails e.env e.decode e.connect e.again addresses s.linked.cluster in
      rw (p, m, a)
        (
          answer,
          (λ h. fails.0 (failure.0 h), λ h. failure.1 (fails.1 h)),
          join-IsSafe e.env e.decode me e.connect e.again addresses s.linked.cluster v,
        )
