-- ===== src/Api.antt =====
-- tattle/api.py: the HTTP interface of a node. aiohttp finds the handler of a request, and what it raises where there is
-- none is given by `Web`.
pub mod Serving
use tattle.Prelude.{
  ℕ, String, Bool, true, false, Option, none, some, List, [], ◌∷◌, map, ◌==◌, if◌then◌else◌,
}
use tattle.Exec.{Exec, Exception, Result, ok, raised, key_error, continue, ◌>>=◌, ◌>>◌}
use tattle.Messages.{Bytes, Message}
use tattle.Network.Addresses.{Machine}
use tattle.Network.Receiving
use tattle.Configuration.{Configuration}
use tattle.State.Node.{status_text, NodeManager}
use tattle.Cluster.Handling.{Cluster, ClusterEnv}
use tattle.Cluster.Choosing.{members}
use tattle.Cluster.Joining.{Address, join}
use tattle.Cluster.Lifecycle
use tattle.Cluster.Lifecycle.{ClusterNode, leave}

-- What `_node_to_json` makes: its metadata are always empty.
pub record NodeJson : Type 0 where
  pub name : String
  pub host : Option String
  pub port : ℕ
  pub incarnation : ℕ
  pub version : ℕ
  pub status : String
  pub metadata : List (String × String)

-- What a handler may raise: an `APIError` with its message, another error of aiohttp, both with a status and a
-- reason, or any other exception.
pub data Raised : Type 0 where
  api_error : ℕ → Option String → String → Raised
  http_error : ℕ → String → Raised
  exception : Exception → Raised

-- The bodies: none, the members, an error, and an exception, which is written out with its traceback
pub data Body : Type 0 where
  empty_body : Body
  member_body : List NodeJson → Body
  error_body : String → Body
  exception_body : Exception → Body

pub record Response : Type 0 where
  pub status : ℕ
  pub body : Body

pub data Handled : Type 0 where
  responded : Response → Handled
  failed : Raised → Handled

-- `web.json_response()`
abbrev pub json_response : Response
json_response = record { status = 200; body = empty_body }

-- `ex.message or ex.reason`
unfoldable pub message_of : Option String → String → String
message_of none reason = reason
message_of (some message) reason = if message == "" then reason else message

-- `_middleware_handler`: what a handler raises becomes a response.
unfoldable pub middleware_handler : Handled → Response
unfolding message_of
middleware_handler (responded response) = response
middleware_handler (failed (api_error status message reason)) = record {
  status = status;
  body = error_body (message_of message reason);
}
middleware_handler (failed (http_error status reason)) = record {
  status = status;
  body = error_body reason;
}
middleware_handler (failed (exception x)) = record { status = 500; body = exception_body x }

-- An entry of the body of a join, with the keys that it has, a text and a number
pub record HostJson : Type 0 where
  pub host : Option String
  pub port : Option ℕ

-- `(n['host'], n['port'])`
unfoldable pub host_address : Option String → Option ℕ → Result Address
host_address none port = raised key_error
host_address (some host) none = raised key_error
host_address (some host) (some port) = ok (host, port)

-- With the addresses of the others, if there are any
unfoldable pub add_address : Result Address → Result (List Address) → Result (List Address)
add_address (raised x) rest = raised x
add_address (ok a) (raised x) = raised x
add_address (ok a) (ok rest) = ok (a ∷ rest)

unfoldable pub host_addresses : List HostJson → Result (List Address)
unfolding host_address add_address
host_addresses [] = ok []
host_addresses (n ∷ nodes) = add_address (host_address n.host n.port) (host_addresses nodes)

-- `await self.request.json()` and the addresses in it
unfoldable pub join_addresses : Result (List HostJson) → Result (List Address)
unfolding host_addresses
join_addresses (raised x) = raised x
join_addresses (ok nodes) = host_addresses nodes

pub data Method : Type 0 where
  get_method post_method other_method : Method

-- The handlers
pub data Handler : Type 0 where
  join_api leave_api start_api stop_api ping_api sync_api member_api : Handler

-- `router.add_route`
unfoldable pub route : String → Option Handler
route path =
    if path == "/cluster/join"
    then some join_api
    else if path == "/cluster/leave"
    then some leave_api
    else if path == "/cluster/start"
    then some start_api
    else if path == "/cluster/stop"
    then some stop_api
    else if path == "/cluster/ping"
    then some ping_api
    else if path == "/cluster/sync"
    then some sync_api
    else if path == "/cluster/members/"
    then some member_api
    else none

-- A request, with its body as JSON, or what reading it raises
pub record Request : Type 0 where
  pub path : String
  pub method : Method
  pub nodes : Result (List HostJson)

-- What aiohttp raises for a path that has no route, and for a method that the view of a route does not have
pub record Web : Type 0 where
  pub not_found : Raised
  pub not_allowed : Raised

-- What the operations of the cluster take from outside
pub record ApiEnv (F : Type 0) : Type 0 where
  pub env : ClusterEnv F
  pub decode : Bytes → Result (Option Message)
  pub connect : Address → Option (List Bytes)
  pub again : Address → Option (List Bytes)
  pub machine : Machine
  pub configuration : Configuration F
  pub listening : String
  pub listening_port : ℕ
  pub outcome : Receiving.Outcome
  pub opened : Bool

-- `return web.json_response()` behind an operation
unfoldable pub respond : Result (Unit {0}) → Handled
respond (raised x) = failed (exception x)
respond (ok u) = responded json_response

module _ {F : Type 0} where
  unfoldable pub node_to_json : NodeManager F → ℕ → NodeJson
  node_to_json s r = record {
    name = (s.heap r).name;
    host = (s.heap r).host;
    port = (s.heap r).port;
    incarnation = (s.heap r).incarnation;
    version = (s.heap r).version;
    status = status_text (s.heap r).status;
    metadata = [];
  }

  unfoldable pub on_linked_cluster : Exec (Cluster F) Unit → Exec (ClusterNode F) Unit
  on_linked_cluster action s =
      let (result, c) = action s.linked.cluster in
      (result, record s { linked = record s.linked { cluster = c } })

  -- `JoinAPIHandler.post`, with the addresses of its body
  unfoldable pub join_members : ApiEnv F → Result (List Address) → Exec (ClusterNode F) Unit
  unfolding on_linked_cluster join
  join_members e (raised x) s = (raised x, s)
  join_members e (ok addresses) s =
      on_linked_cluster (join e.env e.decode e.connect e.again addresses) s

  unfoldable pub post : ApiEnv F → Web → Handler → Request → ClusterNode F → Handled × ClusterNode F
  unfolding respond join_members join_addresses leave Lifecycle.start Lifecycle.stop
  post e w join_api request s =
      let (result, t) = join_members e (join_addresses request.nodes) s in (respond result, t)
  post e w leave_api request s = let (result, t) = leave e.env.env s in (respond result, t)
  post e w start_api request s =
      let (result, t) =
        Lifecycle.start e.env.env e.machine e.configuration e.listening e.listening_port e.outcome
          e.opened s in
      (respond result, t)
  post e w stop_api request s = let (result, t) = Lifecycle.stop s in (respond result, t)
  post e w ping_api request s = (failed w.not_allowed, s)
  post e w sync_api request s = (failed w.not_allowed, s)
  post e w member_api request s = (failed w.not_allowed, s)

  unfoldable pub get_member : ClusterNode F → Response
  unfolding node_to_json members
  get_member s =
      let manager = s.linked.cluster.manager in
      record { status = 200; body = member_body (map (node_to_json manager) (members manager)) }

  -- A view runs the method of the request, if it has it.
  unfoldable pub handle :
      ApiEnv F → Web → Option Handler → Request → ClusterNode F → Handled × ClusterNode F
  unfolding post get_member
  handle e w none request s = (failed w.not_found, s)
  handle e w (some handler) request s = elim request.method [
    | post_method ↦ post e w handler request s
    | get_method ↦ elim handler [
      | member_api ↦ (responded (get_member s), s)
      | join_api ↦ (failed w.not_allowed, s)
      | leave_api ↦ (failed w.not_allowed, s)
      | start_api ↦ (failed w.not_allowed, s)
      | stop_api ↦ (failed w.not_allowed, s)
      | ping_api ↦ (failed w.not_allowed, s)
      | sync_api ↦ (failed w.not_allowed, s)
    ]
    | other_method ↦ (failed w.not_allowed, s)
  ]

  -- A request, through the middleware
  unfoldable pub serve : ApiEnv F → Web → Request → ClusterNode F → Response × ClusterNode F
  unfolding handle route middleware_handler
  serve e w request s =
      let (handled, t) = handle e w (route request.path) request s in
      (middleware_handler handled, t)
