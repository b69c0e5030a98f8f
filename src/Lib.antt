-- ===== src/Lib.antt =====
-- Tattle, a gossip-based cluster membership service: each node keeps a table of the nodes that it
-- knows, probes them, and spreads what it hears by messages that ride on its datagrams.
--
-- Parts and files
--   tattle/queue.py (Queue): the messages that wait to be spread. `BroadcastQueue` is the class
--     of that name, its list of items kept as the source keeps it, sorted by transmissions with the most
--     sent in front. `push`, `pop`, `fetch` and `sort` are its methods; what their loops do from the
--     newest item on is in Queue/Fetching.antt (`pop_newest`, `fetch_newest`). Children prove
--     what they keep (Sorted, Budget, Invariant) and what they promise (Dissemination, Full).
--   tattle/sequence.py (Sequence): the counter of incarnations and of probes.
--   tattle/state.py (State): the table of nodes. State/Node.antt has the data,
--     State/Manager.antt the helpers of `NodeManager`, State/Handlers.antt the notifications
--     `on_node_alive`, `on_node_dead`, `on_node_suspect`, `forget_node` and the callback of the suspicion
--     timer. A node is a number that refers to the manager's heap, for the source shares node
--     objects between its list and its dictionary. State/Shape.antt has the invariant and the
--     abstract view, a partial function from names to status and incarnation;
--     State/Knowledge.antt says what a notification is to make of the view; Tails, Changes,
--     Accepting, Entering and Refinement compare the handlers with it, Forgetting does so
--     for `forget_node`, Runs for sequences of calls, and Telling, Keeping and Returning have what a
--     handler tells and when it returns. Rumors, Repeating and Refutation have the consequences
--     for gossip between nodes, and Announcing what a rumor makes a node tell.
--   tattle/timer.py (Timer): a `Timer` by itself, with the handles of its event loop; Timer/Sole.antt has how often it
--     calls. The node manager's suspicion timers are entries of its state (State/Node.antt).
--   tattle/messages.py (Messages): the messages as data. Messages/Values.antt has the Python object that
--     each of them is, Messages/Serializer.antt the two halves of `MessageSerializer` that go between objects
--     and lists, Messages/Wire.antt the frame: header, checksum and encryption. Messages/Codec.antt puts
--     them together to `encode` and `decode`.
--   tattle/event.py (Events): the `EventManager`. Events/Tree.antt is its tree of branches, with a reference
--     for each listener; Events.antt has `on`, `off` and `emit`, and the children prove what they do.
--   tattle/crypto.py (Crypto): key validation, encryption, decryption by trial of keys.
--   tattle/cluster.py (Cluster): Streams and Datagrams split a datagram into frames and
--     dispatch the messages; Probing chooses the node to probe and, for
--     `select_random_nodes` of tattle/state.py, random nodes; Rounds has the probes that follow each other, and
--     Choosing the other choices of nodes and the indirect probe. Exchange merges the states that a peer
--     sends and takes the outcome of a probe to the node manager; Handling dispatches the messages of
--     datagrams to the handlers and sends messages with gossip behind them. A `Cluster` holds the node
--     manager, and its operations call those of the manager by `on_manager`; a probe that
--     waits is an entry of `probe_status`, and the code before and after the wait is two operations.
--     Connections has the TCP side: a `Served` is the cluster with one connection, the segments that are
--     still to arrive and what was written. Its children prove what is read (Reading), that the loop ends
--     (Ending), what is handled (Serving), what a sync brings about (Syncing) and what is kept (Safe).
--     Joining is `join` with `partition` of tattle/utilities.py.
--     Waits has what comes behind the wait for a probe, and `ping`; its child Relaying follows an indirect probe over
--     three nodes.
--     Clients has the connections that a node keeps to others, with the streams of `Node` of
--     tattle/state.py, and what `send`, `sync`, `_do_sync` and `_after_connect_loop` do by them: a `Linked` is the
--     cluster with the connection of each node. Steps is a node at work: a `Running` is all of this with
--     the messages whose tasks have not run, and a `Step` is what its event loop comes to. Dispatching puts the
--     listener of tattle/network.py and `_handle_udp_data` together, and Lifecycle has `start`, `stop` and `leave`
--     of a node with its listeners and schedules.
--   tattle/network.py (Network): `UDPConnection.sendto` (Sending) and `recvfrom` with `UDPListener`
--     (Receiving), as steps of the event loop: a call has a future, and the loop holds one writer and one
--     reader for the socket. Sending/Accounts and Complete follow the bytes of a call through all that happens on
--     the socket, Registered the writer, and Waiting the calls that wait; Receiving/Reading has one read of a
--     listener, Serving a listener that works, and Silence one that does not. Addresses is `default_ip_address`.
--   tattle/schedule.py (Schedule): `ScheduledCallback`, with the task of `_run` as a state.
--   tattle/config.py (Configuration): the settings, and the address and port of the local node, which
--     tattle/cluster.py takes from them.
--   tattle/api.py (Api): the HTTP interface: the routes, the handlers, which call `join`, `leave`, `start`, `stop` and
--     `members` of the cluster, and the middleware. Api/Serving.antt has what it answers.
--   Prelude and Exec are shared: lists, association lists and tests over the native numbers, and the
--   state and exception monad in which the handlers are written. Tests runs the definitions.
--
-- Correspondence
--   A method that changes its object takes the state and returns the new one; one that may raise is
--   in the monad `Exec`, which keeps the changes made before an exception. The lock of the source is
--   held for the whole of a handler, so handlers are functions, and what happens between them
--   is a list of calls (State/Runs.antt), the task of a timer among them. A dictionary is an
--   association list; `nodes_map` maps a name to a reference.
--
-- Parameters
--   Code outside the repository is a parameter: AES-GCM is a record with the law that opening
--   undoes sealing; the clock, the random numbers and the suspicion timeout's logarithm are fields of
--   `Env`; msgpack is the record `MsgPack`, with the law that
--   what was packed is unpacked as it was; what a TCP connection brings is a list of segments, and how a
--   connection opens is a function of the address; the rounded logarithm
--   of the transmit limit is one of `ClusterEnv`. The waits of a probe are left to the caller. What the
--   socket does when it is called is an argument of the step that calls it, and so is what the callback of
--   a schedule does; the network interfaces and the parsing of addresses are the record `Machine`; what aiohttp raises for a request
--   that has no handler is the record `Web`. The encoder of
--   messages is the repository's own, and modelled by Messages/Codec.antt; for the handlers it is a field of `Env` too,
--   which may raise, as the code does for messages of 2 ^ 32 bytes and more, and a theorem that needs a
--   message to be encoded asks it of that message. No law
--   is asked of them save where a theorem names it.
--
-- Bounds
--   Incarnations and sequence numbers are natural numbers, as the source counts them up from zero.
--   The size field of the frame is 32 bits wide, and theorems on frames ask for messages of less
--   than 2 ^ 32 bytes. The loop over a datagram has the number of bytes and one as its fuel, for each round
--   that goes on reads a byte; so does the loop over a TCP connection, with the bytes that are still to
--   arrive. The deserializer's fuel is the size of the data and one, for each call pops an item. The loop of
--   `select_random_nodes` has the turns that the source counts, three for each node and one. The
--   probe loop recurs on the nodes that are still to be checked.
--
-- Not modelled
--   The connections of `TCPListener`, `parse_address` and the methods that only pass a call on to the socket
--   in tattle/network.py; the registration of callbacks in tattle/cluster.py, so that user messages
--   are delivered as to a callback; the decorator form of `on` and `off` in tattle/event.py; the HTTP server that is started and stopped
--   in tattle/api.py; logging (tattle/logging.py), tattle/json.py and the scripts, which only call the rest. A task that is cancelled while it
--   waits is taken to end. The loop of a connection to a node runs as long as the node stays connected, and what
--   is written to a stream that closes is lost. The steps of a node leave out the intervals, so that they
--   may come in any order, and each is taken as a whole. The events that the node manager emits are a list in its
--   state, and the `EventManager` is a state of its own; a callback does not change it while an event is
--   emitted, and its delimiter is one character. The syncs of a join run one after the other, which is one of
--   the orders that the source allows. Floats in messages have no value in Messages/Values.antt.
pub mod Prelude
pub mod Exec
pub mod Sequence
pub mod Messages
pub mod Network
pub mod Schedule
pub mod Timer
pub mod Configuration
pub mod Crypto
pub mod Queue
pub mod State
pub mod Events
pub mod Cluster
pub mod Api
pub mod Tests
