-- ===== src/Network/Sending/Waiting.antt =====
-- The calls of `UDPConnection.sendto` of tattle/network.py that wait for the socket: the event loop
-- continues one of them.
use tattle.Prelude.{
  ℕ, zero, suc, ◌-◌, ◌<◌, ◌≤◌, ◌≡◌, refl, sym, ap, ◌∙◌, ◌≢◌, false, Option, none, some, List, [],
  ◌∷◌, arith, eqb, eqb_iff, length, take, drop, length-drop, if◌then◌else◌, leb, Bool-cases, All,
  inl, inr,
}
use mathlib.Core.Path.{subst}
use tattle.Exec.{ok}
use tattle.Messages.{Bytes}
use tattle.Network.{Address, pending, done, settle_future, cancel, is_cancelled}
use tattle.Network.Sending.{
  Outcome, blocked, took, Writer, Sending, settle_call, add_writer, add_taken, left_of,
  after_sendto, try_sendto, sendto_now, create_future, sendto, run_registered, SendStep, send_step,
  writable_step, cancel_step, take_send, run_sends,
}
use tattle.Network.Sending.Accounts.{put-same, put-other, OtherWriter, Apart}
use tattle.Network.Sending.Complete.{sendto_now-Apart, sendto-Apart, no_calls}

-- Whether a step leaves the future of a call to the code
abbrev pub Spares : ℕ → SendStep → Type 0
Spares r (cancel_step fut) = r ≢ fut
Spares r (send_step content addr outcome) = Unit
Spares r (writable_step outcome) = Unit

-- The call waits, and the event loop has no writer that continues it.
record Forgotten (r : ℕ) (s : Sending) : Type 0 where
  called : r < s.made
  waits : s.futures r ≡ pending
  unwritten : OtherWriter s.made r s.writer

Forgotten-Apart : (r : ℕ) (s t : Sending) → Forgotten r s → Apart r [] s t → Forgotten r t
Forgotten-Apart r s t f apart = record {
  called = omega (arith, f.called, apart.made);
  waits = apart.future ∙ f.waits;
  unwritten = elim apart.writer [
    | inl e ↦ subst (OtherWriter t.made r) (sym e) (later s.writer f.unwritten)
    | inr other ↦ other
  ];
}
  where
    later : (w : Option Writer) → OtherWriter s.made r w → OtherWriter t.made r w
    later none h = tt
    later (some w) h = (omega (arith, h.0, apart.made), h.1)

run_registered-Forgotten :
    (r : ℕ) (w : Option Writer) (o : Outcome) (s : Sending)
    → s.writer ≡ w
    → Forgotten r s
    → Forgotten r (run_registered w o s)
unfolding run_registered sendto_now
run_registered-Forgotten r none o s e f = f
run_registered-Forgotten r (some w) o s e f =
    let other : OtherWriter s.made r (some w) = subst (OtherWriter s.made r) e f.unwritten in
    let t = record s { writer = none } in
    Forgotten-Apart r t (sendto_now w.data_left w.addr w.fut false o t)
      (record { called = f.called; waits = f.waits; unwritten = tt })
      (sendto_now-Apart r [] w.data_left w.addr w.fut o t (λ h. other.1 (sym h)) other.0)

take_send-Forgotten :
    (r : ℕ) (st : SendStep) (s : Sending)
    → Spares r st
    → Forgotten r s
    → Forgotten r (take_send st s)
unfolding take_send
take_send-Forgotten r (send_step content addr o) s h f =
    Forgotten-Apart r s (sendto content addr o s) f (sendto-Apart r [] content addr o s f.called)
take_send-Forgotten r (writable_step o) s h f = run_registered-Forgotten r s.writer o s refl f
take_send-Forgotten r (cancel_step fut) s h f = record {
  called = f.called;
  waits = put-other fut r (cancel (s.futures fut)) s.futures h ∙ f.waits;
  unwritten = f.unwritten;
}

run_sends-Forgotten :
    (r : ℕ) (steps : List SendStep) (s : Sending)
    → All (Spares r) steps
    → Forgotten r s
    → Forgotten r (run_sends steps s)
unfolding run_sends
run_sends-Forgotten r [] s h f = f
run_sends-Forgotten r (st ∷ steps) s h f =
    run_sends-Forgotten r steps (take_send st s) h.1 (take_send-Forgotten r st s h.0 f)

-- A call that the socket blocks: its writer is the one that the event loop has.
sendto-blocked :
    (b : ℕ) (bs : Bytes) (addr : Address) (s : Sending)
    → sendto (b ∷ bs) addr blocked s ≡ add_writer (b ∷ bs) addr s.made (create_future s)
unfolding sendto sendto_now try_sendto after_sendto
sendto-blocked b bs addr s =
    let now : is_cancelled ((create_future s).futures s.made) ≡ false =
      ap is_cancelled (put-same s.made pending s.futures) in
    let more : eqb 0 (length (b ∷ bs)) ≡ false = ground arith in
    ap
      (λ now'.
        if now' then create_future s else try_sendto (b ∷ bs) addr s.made blocked (create_future s))
      now
    ∙ ap
        (λ all.
          if all
          then settle_call (ok tt) s.made (create_future s)
          else add_writer (b ∷ bs) addr s.made (create_future s))
        more

Forgotten-overtaken :
    (b c : ℕ) (bs cs : Bytes) (addr next : Address) (s : Sending)
    → Forgotten s.made (sendto (c ∷ cs) next blocked (sendto (b ∷ bs) addr blocked s))
Forgotten-overtaken b c bs cs addr next s =
    let t = add_writer (b ∷ bs) addr s.made (create_future s) in
    let apart : s.made ≢ suc s.made = λ e. omega (arith, e) in
    rw (sendto-blocked b bs addr s, sendto-blocked c cs next t)
      (record {
        called = omega arith;
        waits =
            put-other (suc s.made) s.made pending t.futures apart
            ∙ put-same s.made pending s.futures;
        unwritten = (omega arith, λ e. apart (sym e));
      })

-- A call that has to wait for the socket is forgotten when the next call has to wait for it too: until its
-- future is cancelled, it is never done, whatever the socket does and whichever calls are made then.
pub sendto_overtaken :
    (earlier later : List SendStep) (b c : ℕ) (bs cs : Bytes) (addr next : Address)
    → let s = run_sends earlier no_calls in
      All (Spares s.made) later
      → (run_sends later (sendto (c ∷ cs) next blocked (sendto (b ∷ bs) addr blocked s))).futures
          s.made
        ≡ pending
sendto_overtaken earlier later b c bs cs addr next h =
    let s = run_sends earlier no_calls in
    (run_sends-Forgotten s.made later _ h (Forgotten-overtaken b c bs cs addr next s)).waits

-- The socket takes at least one byte each time that it can be written, and at most what it is given.
unfoldable pub take_some : ℕ → Bytes → Outcome
take_some k left = took (if leb (suc k) (length left) then suc k else length left)

-- The event loop runs the writer that it has, time and again, with no other call in between.
unfoldable pub write_some : ℕ → Option Writer → Sending → Sending
unfolding take_some run_registered
write_some k none s = s
write_some k (some w) s = run_registered (some w) (take_some k w.data_left) s

unfoldable pub write_on : List ℕ → Sending → Sending
unfolding write_some
write_on [] s = s
write_on (k ∷ ks) s = write_on ks (write_some k s.writer s)

-- A writer with some data left, and a time for each of its bytes at the most
write_on-none : (ks : List ℕ) (s : Sending) → s.writer ≡ none → write_on ks s ≡ s
unfolding write_on write_some
write_on-none [] s h = refl
write_on-none (k ∷ ks) s h = ap (λ w. write_on ks (write_some k w s)) h ∙ write_on-none ks s h

-- One run of the writer that does not take everything, and one that does
module _ (left : Bytes) (addr : Address) (fut m : ℕ) (s : Sending)
    (p : s.futures fut ≡ pending) where
  abbrev taken_now : Sending
  taken_now = add_taken fut (take m left) addr (record s { writer = none })

  abbrev run_now : Sending
  run_now = run_registered (some (record { data_left = left; addr = addr; fut = fut })) (took m) s

  run_now-open : run_now ≡ after_sendto left addr fut m taken_now
  unfolding run_registered sendto_now try_sendto
  run_now-open =
      ap (λ c. if c then record s { writer = none } else after_sendto left addr fut m taken_now)
        (ap is_cancelled p)

  run_now-last : m ≡ length left → run_now ≡ settle_call (ok tt) fut taken_now
  unfolding after_sendto
  run_now-last h =
      run_now-open
      ∙ ap
          (λ all.
            if all
            then settle_call (ok tt) fut taken_now
            else add_writer (left_of m left) addr fut taken_now)
          ((eqb_iff m (length left)).1 h)

  run_now-more : m ≢ length left → run_now ≡ add_writer (left_of m left) addr fut taken_now
  unfolding after_sendto
  run_now-more h =
      run_now-open
      ∙ ap
          (λ all.
            if all
            then settle_call (ok tt) fut taken_now
            else add_writer (left_of m left) addr fut taken_now)
          (let e : eqb m (length left) ≡ false = ground (arith, h) in e)

length-left_of : (m : ℕ) (left : Bytes) → length (left_of m left) ≡ length left - m
length-left_of zero left = omega arith
length-left_of (suc m) left =
    let e : eqb (suc m) 0 ≡ false = ground arith in
    ap (λ none_yet. length (if none_yet then left else drop (suc m) left)) e
    ∙ length-drop (suc m) left

some_bytes :
    (k : ℕ) (left : Bytes)
    → let m = if leb (suc k) (length left) then suc k else length left in
      0 < length left → (0 < m) × (m ≤ length left)
some_bytes k left h = ground (arith, h)

write_on-done :
    (ks : List ℕ) (left : Bytes) (addr : Address) (fut : ℕ) (s : Sending)
    → s.futures fut ≡ pending
    → 0 < length left
    → length left ≤ length ks
    → (write_on ks (add_writer left addr fut s)).futures fut ≡ done (ok tt)
unfolding write_on write_some take_some
write_on-done [] left addr fut s p h enough = absurd (omega arith)
write_on-done (k ∷ ks) left addr fut s p h enough =
    let m = if leb (suc k) (length left) then suc k else length left in
    let s' = add_writer left addr fut s in
    let t = taken_now left addr fut m s' p in
    let fits = some_bytes k left h in
    elim (Bool-cases (eqb m (length left))) [
      | inl e ↦
          ap (λ u. (write_on ks u).futures fut)
            (run_now-last left addr fut m s' p ((eqb_iff m (length left)).0 e))
          ∙ ap (λ u. u.futures fut) (write_on-none ks (settle_call (ok tt) fut t) refl)
          ∙ put-same fut (settle_future (ok tt) (s.futures fut)) s.futures
          ∙ ap (settle_future (ok tt)) p
      | inr e ↦
          let less : m ≢ length left = λ same. ground (arith, e, same) in
          let rest = length-left_of m left in
          ap (λ u. (write_on ks u).futures fut) (run_now-more left addr fut m s' p less)
          ∙ write_on-done ks (left_of m left) addr fut t p
              (omega (arith, rest, less, fits.0, fits.1))
              (omega (arith, rest, less, fits.0, fits.1, enough))
    ]

-- A call that has to wait ends with its result, if no other call is made and the socket takes at least one
-- byte each time: as many times as the data has bytes are enough.
pub sendto_ends :
    (earlier : List SendStep) (b : ℕ) (bs : Bytes) (addr : Address) (ks : List ℕ)
    → length (b ∷ bs) ≤ length ks
    → let s = run_sends earlier no_calls in
      (write_on ks (sendto (b ∷ bs) addr blocked s)).futures s.made ≡ done (ok tt)
sendto_ends earlier b bs addr ks enough =
    let s = run_sends earlier no_calls in
    ap (λ t. (write_on ks t).futures s.made) (sendto-blocked b bs addr s)
    ∙ write_on-done ks (b ∷ bs) addr s.made (create_future s) (put-same s.made pending s.futures)
        (omega arith) enough
