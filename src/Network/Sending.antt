-- ===== src/Network/Sending.antt =====
-- `UDPConnection.sendto` of tattle/network.py: the calls, and the writer by which the event loop
-- continues one of them when the socket does not take all at once.
pub mod Accounts
pub mod Complete
pub mod Registered
pub mod Waiting
use tattle.Prelude.{
  ℕ, zero, suc, Bool, true, false, Option, none, some, List, [], ◌∷◌, ◌++◌, eqb, length, take, drop,
  if◌then◌else◌,
}
use tattle.Exec.{Exception, Result, ok, raised}
use tattle.Messages.{Bytes}
use tattle.Network.{Address, Future, pending, put, settle_future, cancel, is_cancelled}

-- What `socket.sendto` does: it would block or is interrupted, it takes a number of bytes, or it raises.
pub data Outcome : Type 0 where
  blocked : Outcome
  took : ℕ → Outcome
  failed : Exception → Outcome

-- What `add_writer` was given: the bytes that are left, their address and the future of their call
pub record Writer : Type 0 where
  pub data_left : Bytes
  pub addr : Address
  pub fut : ℕ

-- The calls of `sendto`: the future of each, what the socket took for each, and the one writer that the
-- event loop holds for the socket.
pub record Sending : Type 0 where
  pub futures : ℕ → Future (Unit {0})
  pub made : ℕ
  pub taken : ℕ → List (Bytes × Address)
  pub writer : Option Writer

-- What is left of the data after a call that took some of it
abbrev pub left_of : ℕ → Bytes → Bytes
left_of n content = if eqb n 0 then content else drop n content

abbrev pub settle_call : Result (Unit {0}) → ℕ → Sending → Sending
settle_call result fut s = record s {
  futures = put fut (settle_future result (s.futures fut)) s.futures;
}

abbrev pub add_taken : ℕ → Bytes → Address → Sending → Sending
add_taken fut piece addr s = record s {
  taken = put fut (s.taken fut ++ (piece, addr) ∷ []) s.taken;
}

-- A writer takes the place of the one that the event loop had for the socket.
abbrev pub add_writer : Bytes → Address → ℕ → Sending → Sending
add_writer content addr fut s = record s {
  writer = some (record { data_left = content; addr = addr; fut = fut });
}

-- `_sendto` behind `socket.sendto`, of which `n` bytes were taken
unfoldable pub after_sendto : Bytes → Address → ℕ → ℕ → Sending → Sending
after_sendto content addr fut n s =
    if eqb n (length content)
    then settle_call (ok tt) fut s
    else add_writer (left_of n content) addr fut s

-- `_sendto` from the call of `socket.sendto` on
unfoldable pub try_sendto : Bytes → Address → ℕ → Outcome → Sending → Sending
unfolding after_sendto
try_sendto content addr fut blocked s = after_sendto content addr fut 0 s
try_sendto content addr fut (took n) s =
    after_sendto content addr fut n (add_taken fut (take n content) addr s)
try_sendto content addr fut (failed x) s = settle_call (raised x) fut s

-- `_sendto`
unfoldable pub sendto_now : Bytes → Address → ℕ → Bool → Outcome → Sending → Sending
unfolding try_sendto
sendto_now content addr fut registered outcome s =
    let t = if registered then record s { writer = none } else s in
    if is_cancelled (t.futures fut) then t else try_sendto content addr fut outcome t

-- The future that `sendto` returns
abbrev pub create_future : Sending → Sending
create_future s = record s {
  futures = put s.made pending s.futures;
  taken = put s.made [] s.taken;
  made = suc s.made;
}

-- `sendto`, which returns the future `s.made`
unfoldable pub sendto : Bytes → Address → Outcome → Sending → Sending
unfolding sendto_now
sendto [] addr outcome s = settle_call (ok tt) s.made (create_future s)
sendto (b ∷ bs) addr outcome s = sendto_now (b ∷ bs) addr s.made false outcome (create_future s)

-- The writer that the event loop has, if any, is run.
unfoldable pub run_registered : Option Writer → Outcome → Sending → Sending
unfolding sendto_now
run_registered none outcome s = s
run_registered (some w) outcome s = sendto_now w.data_left w.addr w.fut true outcome s

-- The socket can be written again.
abbrev pub run_writer : Outcome → Sending → Sending
run_writer outcome s = run_registered s.writer outcome s

-- What may happen on the socket
pub data SendStep : Type 0 where
  send_step : Bytes → Address → Outcome → SendStep
  writable_step : Outcome → SendStep
  cancel_step : ℕ → SendStep

unfoldable pub take_send : SendStep → Sending → Sending
unfolding sendto run_registered
take_send (send_step content addr outcome) s = sendto content addr outcome s
take_send (writable_step outcome) s = run_writer outcome s
take_send (cancel_step fut) s = record s { futures = put fut (cancel (s.futures fut)) s.futures }

unfoldable pub run_sends : List SendStep → Sending → Sending
unfolding take_send
run_sends [] s = s
run_sends (st ∷ steps) s = run_sends steps (take_send st s)
