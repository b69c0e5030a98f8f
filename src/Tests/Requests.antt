-- ===== src/Tests/Requests.antt =====
-- Requests to the HTTP interface of tattle/api.py, at a newcomer and at the started cluster.
use tattle.Prelude.{
  ℕ, ◌<◌, ◌≡◌, ◌↔◌, ◌⊎◌, String, refl, true, false, some, List, [], ◌∷◌, map, count, All, length,
}
use tattle.Exec.{ok, raised, runtime_error, value_error}
use tattle.Network.Receiving
use tattle.Configuration.{init_config}
use tattle.State.Runs.{IsSafe}
use tattle.State.Shape.{is_mapped, view}
use tattle.Cluster.Choosing.{members}
use tattle.Cluster.Choosing.Members.{IsOrdered}
use tattle.Cluster.Exchange.Reporting.{found, carried}
use tattle.Cluster.Joining.{Address, sync_addresses}
use tattle.Cluster.Lifecycle.{ClusterNode, init_node}
use tattle.Api.{
  NodeJson, HostJson, member_body, exception_body, error_body, json_response, http_error,
  get_method, post_method, Request, Web, ApiEnv, node_to_json, join_addresses, serve,
}
use tattle.Api.Serving.{serve-members, serve-join}
use tattle.Tests.Nodes.{manager}
use tattle.Tests.Handling.{cluster, cluster_env, manager-IsSafe}
use tattle.Tests.Connections.{newcomer, newcomer-IsSafe, decode, connect, nowhere}
use tattle.Tests.Networks.{machine}

abbrev running : ClusterNode ℕ
running = record init_node { linked = record init_node.linked { cluster = cluster } }

abbrev starting : ClusterNode ℕ
starting = record init_node {
  linked = record init_node.linked { cluster = record cluster { manager = newcomer } };
}

abbrev api_env : ApiEnv ℕ
api_env = record {
  env = cluster_env;
  decode = decode;
  connect = connect;
  again = nowhere;
  machine = machine;
  configuration = init_config "host" (λ n. n);
  listening = "0.0.0.0";
  listening_port = 7900;
  outcome = Receiving.blocked;
  opened = true;
}

abbrev web : Web
web = record {
  not_found = http_error 404 "Not Found";
  not_allowed = http_error 405 "Method Not Allowed";
}

abbrev member_request : Request
member_request = record {
  path = "/cluster/members/";
  method = get_method;
  nodes = raised value_error;
}

abbrev hosts : List HostJson
hosts =
    record { host = some "10.0.0.2"; port = some 7900 }
    ∷ record { host = some "10.0.0.8"; port = some 7900 }
    ∷ []

abbrev join_request : Request
join_request = record { path = "/cluster/join"; method = post_method; nodes = ok hosts }

abbrev joining : List Address
joining = ("10.0.0.2", 7900) ∷ ("10.0.0.8", 7900) ∷ []

serve-members_example :
    (serve api_env web member_request running ≡ (
      record { status = 200; body = member_body (map (node_to_json manager) (members manager)) },
      running,
    ))
    × IsOrdered manager (members manager)
    × ((q : ℕ) → count q (members manager) ≡ is_mapped manager q)
    × ((n : String)
        → found
            (λ (x : NodeJson). x.name)
            (λ (x : NodeJson). (x.status, x.incarnation))
            (map (node_to_json manager) (members manager))
            n
          ≡ carried (view manager n))
serve-members_example =
    serve-members api_env web running member_request refl refl manager-IsSafe.inv

serve-join_example :
    ((((serve api_env web join_request starting).0 ≡ json_response)
        ⊎ ((serve api_env web join_request starting).0
            ≡ record { status = 500; body = exception_body runtime_error }))
      × (((serve api_env web join_request starting).0
            ≡ record { status = 500; body = exception_body runtime_error })
          ↔ ((0 < length joining)
              × All
                  (λ r. r ≡ false)
                  (sync_addresses cluster_env decode connect joining starting.linked.cluster).0))
      × IsSafe "new" (serve api_env web join_request starting).1.linked.cluster.manager)
unfolding join_addresses
serve-join_example =
    serve-join api_env web starting join_request joining "new" refl refl refl newcomer-IsSafe

-- A request to ping is answered with an error, whatever the method.
ping_request :
    (serve api_env web
      (record { path = "/cluster/ping"; method = post_method; nodes = ok [] })
      running).0
    ≡ record { status = 405; body = error_body "Method Not Allowed" }
unfolding serve
ping_request = refl

no_route :
    (serve api_env web (record { path = "/"; method = get_method; nodes = ok [] }) running).0
    ≡ record { status = 404; body = error_body "Not Found" }
unfolding serve
no_route = refl
