-- ===== src/Tests/Networks.antt =====
-- The socket, the listener, the schedule and the address of a node at small runs.
use tattle.Prelude.{
  ℕ, ◌≡◌, refl, String, Bool, true, false, Option, none, some, List, [], ◌∷◌, ◌++◌, arith, get_or,
  eqb, ◌==◌, ◌+◌, if◌then◌else◌,
}
use tattle.Exec.{Exec, ok, raised, os_error, value_error}
use tattle.Messages.{Bytes}
use tattle.Network.{Address, pending, done}
use tattle.Network.Addresses.{IpAddress, Machine}
use tattle.Network.Sending.{SendStep, send_step, writable_step, cancel_step, sendto, run_sends}
use tattle.Network.Sending
use tattle.Network.Sending.Accounts.{bytes_of}
use tattle.Network.Sending.Complete.{no_calls, sendto_complete}
use tattle.Network.Sending.Waiting.{write_on, sendto_overtaken, sendto_ends}
use tattle.Network.Receiving
use tattle.Network.Receiving.{
  ListenStep, reader_step, due_step, stop_step, start, stop, serve, run_reader, run_listens,
  new_listener,
}
use tattle.Network.Receiving.Serving.{run_callbacks}
use tattle.Network.Receiving.Silence.{run_listens-silent}
use tattle.Configuration.{init_config, local_node_address}
use tattle.Schedule
use tattle.Schedule.{ScheduledCallback, run_schedule, take_schedule}
use tattle.Schedule.Ending.{run_schedule-ended}
use tattle.Cluster.Streams.{decode_message}
use tattle.Cluster.Lifecycle
use tattle.Tests.Clusters.{framed, framed-IsFrame, decode}
use tattle.Cluster.Dispatching.{
  Arrival, handle_udp_callback, dispatched, read_all, serve-dispatched,
}

abbrev peer : Address
peer = ("10.0.0.2", 7900)

abbrev other : Address
other = ("10.0.0.3", 7900)

-- A datagram of three bytes, which the socket takes in two pieces while another is sent
abbrev before : List SendStep
before = send_step (9 ∷ []) other (Sending.took 1) ∷ []

abbrev behind : List SendStep
behind =
    send_step (8 ∷ []) other (Sending.took 1)
    ∷ writable_step Sending.blocked
    ∷ writable_step (Sending.took 2)
    ∷ []

sendto_complete_example :
    bytes_of (
      (run_sends behind
          (sendto (1 ∷ 2 ∷ 3 ∷ []) peer (Sending.took 1) (run_sends before no_calls))).taken
        (run_sends before no_calls).made)
    ≡ 1 ∷ 2 ∷ 3 ∷ []
unfolding run_sends sendto
sendto_complete_example = sendto_complete before behind (1 ∷ 2 ∷ 3 ∷ []) peer (Sending.took 1) refl

sendto_overtaken_example :
    (run_sends behind (
        sendto
          (4 ∷ [])
          other
          Sending.blocked
          (sendto (1 ∷ 2 ∷ []) peer Sending.blocked (run_sends before no_calls)))).futures
      (run_sends before no_calls).made
    ≡ pending
sendto_overtaken_example =
    sendto_overtaken before behind 1 4 (2 ∷ []) [] peer other (tt, (tt, (tt, tt)))

sendto_ends_example :
    (write_on
        (0 ∷ 5 ∷ 0 ∷ [])
        (sendto (1 ∷ 2 ∷ 3 ∷ []) peer Sending.blocked (run_sends before no_calls))).futures
      (run_sends before no_calls).made
    ≡ done (ok tt)
sendto_ends_example = sendto_ends before 1 (2 ∷ 3 ∷ []) peer (0 ∷ 5 ∷ 0 ∷ []) (omega arith)

-- A callback that keeps what it gets, makes a task of its first byte, and raises on 7
abbrev keep : Bytes → Address → Exec (List Bytes) (Option ℕ)
keep content addr kept = (
  elim (eqb (get_or content 0 0) 7) [
    | true ↦ raised value_error
    | false ↦ ok (some (get_or content 0 0))
  ],
  kept ++ content ∷ [],
)

abbrev coming : List Receiving.Outcome
coming =
    Receiving.arrived (7 ∷ 1 ∷ []) peer
    ∷ Receiving.arrived (5 ∷ 1 ∷ 2 ∷ []) other
    ∷ Receiving.blocked
    ∷ []

abbrev listening : Receiving.UdpListener (List Bytes) ℕ
listening =
    serve 2 (some keep) (coming ++ Receiving.blocked ∷ [])
      (start 2 Receiving.blocked (new_listener []))

-- What comes after the error, and after `stop`
abbrev later : List ListenStep
later =
    due_step (Receiving.arrived (6 ∷ []) peer)
    ∷ reader_step (Receiving.arrived (6 ∷ []) peer)
    ∷ stop_step
    ∷ []

run_listens-silent_example :
    let u =
      run_listens 2
        (some keep)
        later
        (run_reader 2 listening.reader (Receiving.failed os_error) listening) in
    let v = run_listens 2 (some keep) later (stop listening.task listening).1 in
    ((u.state, u.tasks) ≡ run_callbacks 2 (some keep) coming ([], []))
    × ((v.state, v.tasks) ≡ run_callbacks 2 (some keep) coming ([], []))
run_listens-silent_example =
    run_listens-silent 2 (some keep) coming [] os_error later (tt, (tt, (tt, tt)))

heard : run_callbacks 2 (some keep) coming ([], []) ≡ ((7 ∷ 1 ∷ []) ∷ (5 ∷ 1 ∷ []) ∷ [], 5 ∷ [])
unfolding run_callbacks
heard = refl

abbrev arrivals : List (Arrival ℕ)
arrivals =
    (framed 5 ∷ framed 7 ∷ [], some 5 ∷ none ∷ [], peer) ∷ (framed 6 ∷ [], some 6 ∷ [], other) ∷ []

serve-dispatched_example :
    (serve 1024
      (some (handle_udp_callback decode))
      (read_all arrivals ++ Receiving.blocked ∷ [])
      (start 1024 Receiving.blocked (new_listener []))).state
    ≡ dispatched arrivals
unfolding decode_message
serve-dispatched_example = serve-dispatched decode arrivals (
  ((framed-IsFrame 5, refl, (framed-IsFrame 7, refl, tt)), omega arith),
  (((framed-IsFrame 6, refl, tt), omega arith), tt),
)

-- The second call raises.
abbrev failing : Exec ℕ Bool
failing n = (raised value_error, n + 1)

abbrev scheduled : ScheduledCallback ℕ
scheduled = record { state = 4; started = true; task = some Schedule.awaiting }

-- A probe or a sync that raises behind its first wait
abbrev failing_later : Exec ℕ Unit
failing_later n = (raised value_error, n + 1)

abbrev restarts : List (Schedule.ScheduleStep ℕ)
restarts = Schedule.start_step ∷ Schedule.wake_step failing ∷ []

run_schedule-ended_example :
    let t = run_schedule restarts (take_schedule (Schedule.awaited_step failing_later) scheduled) in
    (t.state ≡ 5) × ((Schedule.stop t.started t).0 ≡ raised value_error)
run_schedule-ended_example =
    run_schedule-ended (Schedule.awaited_step failing_later) restarts scheduled value_error refl
      (refl, refl) (tt, (tt, tt))

-- A machine with a loopback address and a private one
abbrev ip_of : String → IpAddress
ip_of a =
    if a == "127.0.0.1"
    then record { text = a; is_loopback = true; is_global = false; is_private = true }
    else record { text = a; is_loopback = false; is_global = false; is_private = true }

abbrev pub machine : Machine
machine = record {
  interfaces = "lo" ∷ "eth0" ∷ [];
  inet_addresses =
      λ device. if device == "lo" then some ("127.0.0.1" ∷ []) else some ("10.0.0.7" ∷ []);
  ip_address = λ a. ok (ip_of a);
}

found : local_node_address machine "0.0.0.0" (init_config "host" (λ n. n)) ≡ ok "10.0.0.7"
unfolding local_node_address
found = refl
