-- ===== src/Network/Receiving.antt =====
-- `UDPConnection.recvfrom` and `UDPListener` of tattle/network.py. `S` is what the callback works on, `T`
-- a coroutine that it returns.
pub mod Reading
pub mod Serving
pub mod Silence
use tattle.Prelude.{
  ℕ, suc, Bool, true, false, Option, none, some, List, [], ◌∷◌, ◌++◌, take, if◌then◌else◌,
}
use tattle.Exec.{Exception, Exec, Result, ok, raised, os_error, attribute_error}
use tattle.Messages.{Bytes}
use tattle.Network.{
  Address, Future, pending, done, cancelled, put, settle_future, cancel, is_cancelled,
}

-- What `socket.recvfrom` does: it would block or is interrupted, there is a datagram, or it raises.
pub data Outcome : Type 0 where
  blocked : Outcome
  arrived : Bytes → Address → Outcome
  failed : Exception → Outcome

-- The listener on its event loop: the coroutines that are tasks, the future of each call of `recvfrom` and
-- whether `_handle_data` is to be called when it is done, the reader that the loop holds for the socket,
-- and the futures for which `_handle_data` is due.
pub record UdpListener (S T : Type 0) : Type 0 where
  pub state : S
  pub tasks : List T
  pub futures : ℕ → Future (Bytes × Address)
  pub watched : ℕ → Bool
  pub made : ℕ
  pub reader : Option ℕ
  pub task : Option ℕ
  pub due : List ℕ
  pub closed : Bool

-- A closed socket raises.
abbrev pub read_socket : Bool → Outcome → Outcome
read_socket true outcome = failed os_error
read_socket false outcome = outcome

-- What may happen to a listener: the socket can be read, the event loop comes to what is due, with what
-- the socket does at the next read, or `stop` is called.
pub data ListenStep : Type 0 where
  reader_step : Outcome → ListenStep
  due_step : Outcome → ListenStep
  stop_step : ListenStep

module _ {S T : Type 0} where
  -- `AbstractListener._run_callback`: what the callback raises is logged, a coroutine becomes a task.
  unfoldable pub after_callback : List T → Result (Option T) × S → S × List T
  after_callback tasks (raised x, left) = (left, tasks)
  after_callback tasks (ok none, left) = (left, tasks)
  after_callback tasks (ok (some coroutine), left) = (left, tasks ++ coroutine ∷ [])

  unfoldable pub run_callback :
      Option (Bytes → Address → Exec S (Option T)) → Bytes × Address → S × List T → S × List T
  unfolding after_callback
  run_callback none (content, addr) (s, tasks) = (s, tasks)
  run_callback (some callback) (content, addr) (s, tasks) =
      after_callback tasks (callback content addr s)

  -- The listener before it is started
  abbrev pub new_listener : S → UdpListener S T
  new_listener s = record {
    state = s;
    tasks = [];
    futures = λ q. cancelled;
    watched = λ q. false;
    made = 0;
    reader = none;
    task = none;
    due = [];
    closed = false;
  }

  -- A future is done: `_handle_data` is due if it was asked for.
  abbrev pub finish : ℕ → Future (Bytes × Address) → UdpListener S T → UdpListener S T
  finish fut future s = record s {
    futures = put fut future s.futures;
    due = if s.watched fut then s.due ++ fut ∷ [] else s.due;
  }

  -- `cancel` of a future
  unfoldable pub cancel_future : ℕ → Future (Bytes × Address) → UdpListener S T → UdpListener S T
  cancel_future fut pending s = finish fut cancelled s
  cancel_future fut (done result) s = s
  cancel_future fut cancelled s = s

  -- `add_done_callback`
  unfoldable pub add_done_callback :
      ℕ → Future (Bytes × Address) → UdpListener S T → UdpListener S T
  add_done_callback fut pending s = record s { watched = put fut true s.watched }
  add_done_callback fut (done result) s = record s { due = s.due ++ fut ∷ [] }
  add_done_callback fut cancelled s = record s { due = s.due ++ fut ∷ [] }

  -- `stop`
  unfoldable pub stop : Option ℕ → UdpListener S T → Result (Unit {0}) × UdpListener S T
  unfolding cancel_future
  stop none s = (raised attribute_error, s)
  stop (some fut) s = (ok tt, record (cancel_future fut (s.futures fut) s) { closed = true })

  module _ (read_size : ℕ) where
    -- `_recvfrom` from the call of `socket.recvfrom` on: the rest of a longer datagram is lost.
    unfoldable pub try_recvfrom : ℕ → Outcome → UdpListener S T → UdpListener S T
    try_recvfrom fut blocked s = record s { reader = some fut }
    try_recvfrom fut (arrived content addr) s =
        finish fut (settle_future (ok (take read_size content, addr)) (s.futures fut)) s
    try_recvfrom fut (failed x) s = finish fut (settle_future (raised x) (s.futures fut)) s

    -- `_recvfrom`
    unfoldable pub recvfrom_now : ℕ → Bool → Outcome → UdpListener S T → UdpListener S T
    unfolding try_recvfrom
    recvfrom_now fut registered outcome s =
        let t = if registered then record s { reader = none } else s in
        if is_cancelled (t.futures fut)
        then t
        else try_recvfrom fut (read_socket t.closed outcome) t

    -- `recvfrom`, which returns the future `s.made`
    unfoldable pub recvfrom : Outcome → UdpListener S T → UdpListener S T
    unfolding recvfrom_now
    recvfrom outcome s = recvfrom_now s.made false outcome (record s {
      futures = put s.made pending s.futures;
      watched = put s.made false s.watched;
      made = suc s.made;
    })

    -- `_read_data`
    unfoldable pub read_data : Outcome → UdpListener S T → UdpListener S T
    unfolding recvfrom add_done_callback
    read_data outcome s =
        let t = recvfrom outcome s in
        add_done_callback s.made (t.futures s.made) (record t { task = some s.made })

    -- `start`
    abbrev pub start : Outcome → UdpListener S T → UdpListener S T
    start outcome s = read_data outcome s

    -- The socket can be read: the event loop runs the reader.
    unfoldable pub run_reader : Option ℕ → Outcome → UdpListener S T → UdpListener S T
    unfolding recvfrom_now
    run_reader none outcome s = s
    run_reader (some fut) outcome s = recvfrom_now fut true outcome s

    module _ (callback : Option (Bytes → Address → Exec S (Option T))) where
      -- `_handle_data`: after a cancelled read and after an error there is no further read.
      unfoldable pub handle_data :
          Future (Bytes × Address) → Outcome → UdpListener S T → UdpListener S T
      unfolding read_data run_callback
      handle_data cancelled outcome s = s
      handle_data (done (raised x)) outcome s = s
      handle_data (done (ok datagram)) outcome s =
          let (left, tasks) = run_callback callback datagram (s.state, s.tasks) in
          read_data outcome (record s { state = left; tasks = tasks })
      handle_data pending outcome s = read_data outcome s

      -- The event loop comes to the first `_handle_data` that is due.
      unfoldable pub run_due : List ℕ → Outcome → UdpListener S T → UdpListener S T
      unfolding handle_data
      run_due [] outcome s = s
      run_due (fut ∷ rest) outcome s = handle_data (s.futures fut) outcome (record s { due = rest })

      -- What the event loop comes to: what is due goes before the socket.
      unfoldable pub turn : List ℕ → Outcome → UdpListener S T → UdpListener S T
      unfolding run_due run_reader
      turn [] outcome s = run_reader s.reader outcome s
      turn (fut ∷ rest) outcome s = run_due (fut ∷ rest) outcome s

      unfoldable pub serve : List Outcome → UdpListener S T → UdpListener S T
      unfolding turn
      serve [] s = s
      serve (o ∷ os) s = serve os (turn s.due o s)

      unfoldable pub take_listen : ListenStep → UdpListener S T → UdpListener S T
      unfolding run_reader run_due stop
      take_listen (reader_step outcome) s = run_reader s.reader outcome s
      take_listen (due_step outcome) s = run_due s.due outcome s
      take_listen stop_step s = (stop s.task s).1

      unfoldable pub run_listens : List ListenStep → UdpListener S T → UdpListener S T
      unfolding take_listen
      run_listens [] s = s
      run_listens (st ∷ steps) s = run_listens steps (take_listen st s)
