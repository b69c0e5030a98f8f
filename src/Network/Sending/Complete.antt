-- ===== src/Network/Sending/Complete.antt =====
-- The calls of `UDPConnection.sendto` of tattle/network.py through all that happens on the socket.
use tattle.Prelude.{
  ℕ, suc, ◌<◌, ◌≤◌, ◌⊎◌, ◌≡◌, refl, sym, ap, ◌∙◌, ◌≢◌, true, false, Option, none, some, List, [],
  ◌∷◌, ◌++◌, arith, eqb, eqb_iff, Bool-cases, inl, inr,
}
use mathlib.Core.Path.{subst}
use tattle.Exec.{ok}
use tattle.Messages.{Bytes}
use tattle.Network.{
  Address, Future, pending, done, cancelled, put, settle_future, cancel, is_cancelled,
}
use tattle.Network.Sending.{
  Outcome, Writer, Sending, sendto_now, create_future, sendto, run_registered, SendStep, send_step,
  writable_step, cancel_step, take_send, run_sends,
}
use tattle.Network.Sending.Accounts.{
  bytes_of, put-same, put-other, SettledFits, Undone, WriterFits, OtherWriter, OtherWriter-fits,
  all_taken, Accounts, Apart, Accounts-Apart, try_sendto-own, try_sendto-Apart,
}
use tattle.Network.Sending.Registered.{OfCall, run_sends-OfCall}

Undone-cases : (f : Future (Unit {0})) → Undone f → (f ≡ pending) ⊎ (is_cancelled f ≡ true)
Undone-cases pending h = inl refl
Undone-cases (done result) h = absurd h
Undone-cases cancelled h = inr refl

not_cancelled : (f : Future (Unit {0})) → f ≡ pending → is_cancelled f ≡ false
not_cancelled f e = ap is_cancelled e

SettledFits-cancel :
    (f : Future (Unit {0})) (bytes content : Bytes)
    → SettledFits f bytes content
    → SettledFits (cancel f) bytes content
SettledFits-cancel pending bytes content h = tt
SettledFits-cancel (done result) bytes content h = h
SettledFits-cancel cancelled bytes content h = tt

Undone-cancel : (f : Future (Unit {0})) → Undone f → Undone (cancel f)
Undone-cancel pending h = tt
Undone-cancel (done result) h = h
Undone-cancel cancelled h = tt

WriterFits-cancel :
    (made r : ℕ) (f : Future (Unit {0})) (bytes content : Bytes) (w : Option Writer)
    → WriterFits made r f bytes content w
    → WriterFits made r (cancel f) bytes content w
WriterFits-cancel made r f bytes content none h = tt
WriterFits-cancel made r f bytes content (some w) h =
    (h.0, λ e. ((h.1 e).0, Undone-cancel f (h.1 e).1))

module _ (r : ℕ) (content : Bytes) where
  -- A new future, the writer as it was
  create_future-Apart : (s : Sending) → r < s.made → Apart r content s (create_future s)
  create_future-Apart s h = record {
    made = omega arith;
    future = put-other s.made r pending s.futures (λ e. omega (arith, h, e));
    taken = put-other s.made r [] s.taken (λ e. omega (arith, h, e));
    writer = inl refl;
  }

  OtherWriter-later : (m n : ℕ) (w : Option Writer) → m ≤ n → OtherWriter m r w → OtherWriter n r w
  OtherWriter-later m n none h other = tt
  OtherWriter-later m n (some w) h other = (omega (arith, other.0), other.1)

  Apart-trans : (s t u : Sending) → Apart r content s t → Apart r content t u → Apart r content s u
  Apart-trans s t u p q = record {
    made = omega (arith, p.made, q.made);
    future = q.future ∙ p.future;
    taken = q.taken ∙ p.taken;
    writer = elim q.writer [
      | inr other ↦ inr other
      | inl e ↦ elim p.writer [
        | inl f ↦ inl (e ∙ f)
        | inr other ↦ inr (
            subst (OtherWriter u.made r) (sym e)
              (OtherWriter-later t.made u.made t.writer q.made other))
      ]
    ];
  }

  pub sendto_now-Apart :
      (left : Bytes) (addr : Address) (fut : ℕ) (o : Outcome) (s : Sending)
      → r ≢ fut
      → fut < s.made
      → Apart r content s (sendto_now left addr fut false o s)
  unfolding sendto_now
  sendto_now-Apart left addr fut o s h below = elim (Bool-cases (is_cancelled (s.futures fut))) [
    | inl e ↦ rw e (record { made = omega arith; future = refl; taken = refl; writer = inl refl })
    | inr e ↦ rw e (try_sendto-Apart r content left addr fut o s h below)
  ]

  pub sendto-Apart :
      (sent : Bytes) (addr : Address) (o : Outcome) (s : Sending)
      → r < s.made
      → Apart r content s (sendto sent addr o s)
  unfolding sendto
  sendto-Apart [] addr o s h =
      let fresh : r ≢ s.made = λ e. omega (arith, h, e) in
      let futures = put s.made pending s.futures in
      record {
        made = omega arith;
        future =
            put-other s.made r (settle_future (ok tt) (futures s.made)) futures fresh
            ∙ put-other s.made r pending s.futures fresh;
        taken = put-other s.made r [] s.taken fresh;
        writer = inl refl;
      }
  sendto-Apart (b ∷ bs) addr o s h =
      Apart-trans s (create_future s) (sendto_now (b ∷ bs) addr s.made false o (create_future s))
        (create_future-Apart s h)
        (sendto_now-Apart (b ∷ bs) addr s.made o (create_future s) (λ e. omega (arith, h, e))
          (omega arith))

  -- Without the writer
  unregistered :
      (s : Sending) → Accounts r content s → Accounts r content (record s { writer = none })
  unregistered s a = record { called = a.called; settled = a.settled; writing = tt }

  run_writer-own :
      (w : Writer) (o : Outcome) (s : Sending)
      → w.fut ≡ r
      → s.writer ≡ some w
      → Accounts r content s
      → Accounts r content (sendto_now w.data_left w.addr r true o s)
  unfolding sendto_now
  run_writer-own w o s h e a =
      let fits : WriterFits s.made r (s.futures r) (all_taken r content s) content (some w) =
        subst (WriterFits s.made r (s.futures r) (all_taken r content s) content) e a.writing in
      let (eq, undone) = fits.1 h in
      elim (Undone-cases (s.futures r) undone) [
        | inl p ↦ rw (not_cancelled (s.futures r) p) (
            try_sendto-own r content w.data_left w.addr o (record s { writer = none }) a.called p eq
              tt)
        | inr c ↦ rw c (unregistered s a)
      ]

  run_writer-other :
      (w : Writer) (o : Outcome) (s : Sending)
      → r ≢ w.fut
      → s.writer ≡ some w
      → Accounts r content s
      → Accounts r content (sendto_now w.data_left w.addr w.fut true o s)
  unfolding sendto_now
  run_writer-other w o s h e a =
      let fits : WriterFits s.made r (s.futures r) (all_taken r content s) content (some w) =
        subst (WriterFits s.made r (s.futures r) (all_taken r content s) content) e a.writing in
      let t = record s { writer = none } in
      Accounts-Apart r content t (sendto_now w.data_left w.addr w.fut false o t) (unregistered s a)
        (sendto_now-Apart w.data_left w.addr w.fut o t h fits.0)

  cancel-future :
      (fut : ℕ) (f : ℕ → Future (Unit {0}))
      → (put fut (cancel (f fut)) f r ≡ cancel (f r)) ⊎ (put fut (cancel (f fut)) f r ≡ f r)
  cancel-future fut f = elim (Bool-cases (eqb r fut)) [
    | inl e ↦ inl (rw e (ap (λ q. cancel (f q)) (sym ((eqb_iff r fut).0 e))))
    | inr e ↦ inr (rw e refl)
  ]

  cancel-Accounts :
      (fut : ℕ) (s : Sending)
      → Accounts r content s
      → Accounts r content (take_send (cancel_step fut) s)
  unfolding take_send
  cancel-Accounts fut s a = elim (cancel-future fut s.futures) [
    | inl e ↦ record {
      called = a.called;
      settled =
          subst (λ f. SettledFits f (all_taken r content s) content) (sym e)
            (SettledFits-cancel (s.futures r) _ content a.settled);
      writing =
          subst (λ f. WriterFits s.made r f (all_taken r content s) content s.writer) (sym e)
            (WriterFits-cancel s.made r (s.futures r) _ content s.writer a.writing);
    }
    | inr e ↦
        Accounts-Apart r content s (take_send (cancel_step fut) s) a
          (record { made = omega arith; future = e; taken = refl; writer = inl refl })
  ]

  run_registered-Accounts :
      (w : Option Writer) (o : Outcome) (s : Sending)
      → s.writer ≡ w
      → Accounts r content s
      → Accounts r content (run_registered w o s)
  unfolding run_registered
  run_registered-Accounts none o s e a = a
  run_registered-Accounts (some w) o s e a = elim (Bool-cases (eqb r w.fut)) [
    | inl same ↦
        let h = (eqb_iff r w.fut).0 same in
        subst (λ q. Accounts r content (sendto_now w.data_left w.addr q true o s)) h
          (run_writer-own w o s (sym h) e a)
    | inr other ↦ run_writer-other w o s (λ h. ground (arith, other, h)) e a
  ]

  take_send-Accounts :
      (st : SendStep) (s : Sending) → Accounts r content s → Accounts r content (take_send st s)
  unfolding take_send
  take_send-Accounts (send_step sent addr o) s a =
      Accounts-Apart r content s (sendto sent addr o s) a (sendto-Apart sent addr o s a.called)
  take_send-Accounts (cancel_step fut) s a = cancel-Accounts fut s a
  take_send-Accounts (writable_step o) s a = run_registered-Accounts s.writer o s refl a

  run_sends-Accounts :
      (steps : List SendStep) (s : Sending)
      → Accounts r content s
      → Accounts r content (run_sends steps s)
  unfolding run_sends
  run_sends-Accounts [] s a = a
  run_sends-Accounts (st ∷ steps) s a =
      run_sends-Accounts steps (take_send st s) (take_send-Accounts st s a)

OfCall-other : (m : ℕ) (w : Option Writer) → OfCall m w → OtherWriter (suc m) m w
OfCall-other m none h = tt
OfCall-other m (some w) h = (omega (arith, h), λ e. omega (arith, h, e))

sendto-made :
    (content : Bytes) (addr : Address) (o : Outcome) (s : Sending)
    → OfCall s.made s.writer
    → Accounts s.made content (sendto content addr o s)
unfolding sendto sendto_now
sendto-made [] addr o s h = record {
  called = omega arith;
  settled =
      subst (λ f. SettledFits f (all_taken s.made [] (create_future s)) [])
        (sym (
          put-same s.made (settle_future (ok tt) ((create_future s).futures s.made))
            (create_future s).futures
          ∙ ap (settle_future (ok tt)) (put-same s.made pending s.futures)))
        (ap bytes_of (put-same s.made [] s.taken));
  writing = OtherWriter-fits (suc s.made) s.made _ _ [] s.writer (OfCall-other s.made s.writer h);
}
sendto-made (b ∷ bs) addr o s h =
    let fresh = put-same s.made pending s.futures in
    rw (not_cancelled (put s.made pending s.futures s.made) fresh) (
      try_sendto-own s.made (b ∷ bs) (b ∷ bs) addr o (create_future s) (omega arith) fresh
        (ap (λ ds. bytes_of ds ++ b ∷ bs) (put-same s.made [] s.taken))
        (OfCall-other s.made s.writer h))

-- The connection before its first call
abbrev pub no_calls : Sending
no_calls = record { futures = λ q. cancelled; made = 0; taken = λ q. []; writer = none }

SettledFits-ok :
    (f : Future (Unit {0})) (bytes content : Bytes)
    → f ≡ done (ok tt)
    → SettledFits f bytes content
    → bytes ≡ content
SettledFits-ok f bytes content e h = subst (λ g. SettledFits g bytes content) e h

-- A call whose future gets its result has handed over all of its data, the pieces in their order and
-- nothing else, whatever the socket does and whichever calls are made before and behind it.
pub sendto_complete :
    (earlier later : List SendStep) (content : Bytes) (addr : Address) (o : Outcome)
    → let s = run_sends earlier no_calls in
      let t = run_sends later (sendto content addr o s) in
      t.futures s.made ≡ done (ok tt) → bytes_of (t.taken s.made) ≡ content
sendto_complete earlier later content addr o e =
    let s = run_sends earlier no_calls in
    let a =
      run_sends-Accounts s.made content later (sendto content addr o s)
        (sendto-made content addr o s (run_sends-OfCall earlier no_calls tt)) in
    SettledFits-ok _ _ content e a.settled
