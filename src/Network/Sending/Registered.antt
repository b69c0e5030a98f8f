-- ===== src/Network/Sending/Registered.antt =====
-- The writer of `UDPConnection.sendto` of tattle/network.py: it is always of a call that was made.
use tattle.Prelude.{
  ℕ, suc, ◌<◌, ◌≡◌, refl, Bool, true, false, Option, none, some, List, [], ◌∷◌, arith, eqb, length,
  Bool-cases, inl, inr,
}
use mathlib.Core.Path.{subst}
use tattle.Messages.{Bytes}
use tattle.Network.{Address, is_cancelled}
use tattle.Network.Sending.{
  Outcome, blocked, took, failed, Writer, Sending, after_sendto, try_sendto, sendto_now,
  create_future, sendto, run_registered, SendStep, send_step, writable_step, cancel_step, take_send,
  run_sends,
}

-- The writer is of a call that was made.
abbrev pub OfCall : ℕ → Option Writer → Type 0
OfCall made none = Unit
OfCall made (some w) = w.fut < made

try_sendto-OfCall :
    (left : Bytes) (addr : Address) (fut : ℕ) (o : Outcome) (s : Sending)
    → fut < s.made
    → OfCall s.made s.writer
    → let t = try_sendto left addr fut o s in (t.made ≡ s.made) × OfCall t.made t.writer
unfolding try_sendto after_sendto
try_sendto-OfCall left addr fut blocked s below h = elim (Bool-cases (eqb 0 (length left))) [
  | inl e ↦ rw e (refl, h)
  | inr e ↦ rw e (refl, below)
]
try_sendto-OfCall left addr fut (took n) s below h = elim (Bool-cases (eqb n (length left))) [
  | inl e ↦ rw e (refl, h)
  | inr e ↦ rw e (refl, below)
]
try_sendto-OfCall left addr fut (failed x) s below h = (refl, h)

sendto_now-OfCall :
    (left : Bytes) (addr : Address) (fut : ℕ) (registered : Bool) (o : Outcome) (s : Sending)
    → fut < s.made
    → OfCall s.made s.writer
    → let t = sendto_now left addr fut registered o s in (t.made ≡ s.made) × OfCall t.made t.writer
unfolding sendto_now
sendto_now-OfCall left addr fut true o s below h =
    elim (Bool-cases (is_cancelled (s.futures fut))) [
      | inl e ↦ rw e (refl, tt)
      | inr e ↦ rw e (try_sendto-OfCall left addr fut o (record s { writer = none }) below tt)
    ]
sendto_now-OfCall left addr fut false o s below h =
    elim (Bool-cases (is_cancelled (s.futures fut))) [
      | inl e ↦ rw e (refl, h)
      | inr e ↦ rw e (try_sendto-OfCall left addr fut o s below h)
    ]

OfCall-later : (m : ℕ) (w : Option Writer) → OfCall m w → OfCall (suc m) w
OfCall-later m none h = tt
OfCall-later m (some w) h = omega (arith, h)

sendto-OfCall :
    (content : Bytes) (addr : Address) (o : Outcome) (s : Sending)
    → OfCall s.made s.writer
    → let t = sendto content addr o s in (t.made ≡ suc s.made) × OfCall t.made t.writer
unfolding sendto
sendto-OfCall [] addr o s h = (refl, OfCall-later s.made s.writer h)
sendto-OfCall (b ∷ bs) addr o s h =
    sendto_now-OfCall (b ∷ bs) addr s.made false o (create_future s) (omega arith)
      (OfCall-later s.made s.writer h)

run_registered-OfCall :
    (w : Option Writer) (o : Outcome) (s : Sending)
    → s.writer ≡ w
    → OfCall s.made s.writer
    → let t = run_registered w o s in OfCall t.made t.writer
unfolding run_registered
run_registered-OfCall none o s e h = h
run_registered-OfCall (some w) o s e h =
    (sendto_now-OfCall w.data_left w.addr w.fut true o s (subst (OfCall s.made) e h) h).1

take_send-OfCall :
    (st : SendStep) (s : Sending)
    → OfCall s.made s.writer
    → OfCall (take_send st s).made (take_send st s).writer
unfolding take_send
take_send-OfCall (send_step content addr o) s h = (sendto-OfCall content addr o s h).1
take_send-OfCall (writable_step o) s h = run_registered-OfCall s.writer o s refl h
take_send-OfCall (cancel_step fut) s h = h

pub run_sends-OfCall :
    (steps : List SendStep) (s : Sending)
    → OfCall s.made s.writer
    → OfCall (run_sends steps s).made (run_sends steps s).writer
unfolding run_sends
run_sends-OfCall [] s h = h
run_sends-OfCall (st ∷ steps) s h =
    run_sends-OfCall steps (take_send st s) (take_send-OfCall st s h)
