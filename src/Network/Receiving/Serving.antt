-- ===== src/Network/Receiving/Serving.antt =====
-- `UDPListener` of tattle/network.py at work: which datagrams come to the callback.
use tattle.Prelude.{ℕ, ◌≡◌, refl, sym, ap, ◌∙◌, ◌⊎◌, inl, inr, Option, List, [], ◌∷◌, ◌++◌, All}
use mathlib.Core.Path.{subst}
use tattle.Exec.{Exec}
use tattle.Messages.{Bytes}
use tattle.Network.{Address}
use tattle.Network.Receiving.{
  Outcome, blocked, arrived, failed, UdpListener, run_callback, read_data, handle_data, run_due,
  start, turn, serve, new_listener,
}
use tattle.Network.Receiving.Reading.{
  cut, Received, Waiting, Held, Ready, done_so_far, read_data-blocked, read_data-arrived,
  run_reader-blocked, run_reader-arrived,
}

module _ {S T : Type 0} (read_size : ℕ)
    (callback : Option (Bytes → Address → Exec S (Option T))) where
  -- The callback on the datagrams of a run of reads
  unfoldable pub run_callbacks : List Outcome → S × List T → S × List T
  unfolding run_callback
  run_callbacks [] acc = acc
  run_callbacks (blocked ∷ os) acc = run_callbacks os acc
  run_callbacks (arrived content addr ∷ os) acc =
      run_callbacks os (run_callback callback (cut read_size content addr) acc)
  run_callbacks (failed x ∷ os) acc = acc

  -- A listener that works, with what the callback has done when nothing is due any more
  record Holding (acc : S × List T) (s : UdpListener S T) : Type 0 where
    fut : ℕ
    datagram : Bytes × Address
    held : Held fut datagram s
    upto : run_callback callback datagram (done_so_far s) ≡ acc

  abbrev Serves : S × List T → UdpListener S T → Type 0
  Serves acc s = ((r : ℕ) × Waiting r s × (done_so_far s ≡ acc)) ⊎ Holding acc s

  -- A datagram that is due goes to the callback, and the listener reads on.
  run_due-Held :
      (o : Outcome) (acc : S × List T) (s : UdpListener S T)
      → Holding acc s
      → (t : UdpListener S T) × (turn read_size callback s.due o s ≡ read_data read_size o t)
        × Ready t
        × (done_so_far t ≡ acc)
  unfolding turn run_due handle_data
  run_due-Held o acc s h =
      let after = run_callback callback h.datagram (done_so_far s) in
      (
        record s { due = []; state = after.0; tasks = after.1 },
        ap (λ q. turn read_size callback q o s) h.held.due_now
            ∙ ap (λ f. handle_data read_size callback f o (record s { due = [] })) h.held.holds,
        record { unread = h.held.unread; idle = refl; opened = h.held.opened },
        h.upto,
      )

  turn-blocked :
      (acc : S × List T) (s : UdpListener S T)
      → Serves acc s
      → let t = turn read_size callback s.due blocked s in
        (r : ℕ) × Waiting r t × (done_so_far t ≡ acc)
  unfolding turn
  turn-blocked acc s (inl (r, w, e)) =
      let same = ap (λ q. turn read_size callback q blocked s) w.idle in
      let (next, eq) = run_reader-blocked read_size r s w in
      subst (λ t. (q : ℕ) × Waiting q t × (done_so_far t ≡ acc)) (sym same) (r, next, eq ∙ e)
  turn-blocked acc s (inr h) =
      let (t, same, ready, e) = run_due-Held blocked acc s h in
      let (next, eq) = read_data-blocked read_size t ready in
      subst (λ u. (q : ℕ) × Waiting q u × (done_so_far u ≡ acc)) (sym same) (t.made, next, eq ∙ e)

  turn-arrived :
      (content : Bytes) (addr : Address) (acc : S × List T) (s : UdpListener S T)
      → Serves acc s
      → Holding
          (run_callback callback (cut read_size content addr) acc)
          (turn read_size callback s.due (arrived content addr) s)
  unfolding turn
  turn-arrived content addr acc s (inl (r, w, e)) =
      let d = cut read_size content addr in
      let (next, eq) = run_reader-arrived read_size r content addr s w in
      subst (Holding (run_callback callback d acc))
        (sym (ap (λ q. turn read_size callback q (arrived content addr) s) w.idle))
        (record {
          fut = r;
          datagram = d;
          held = next;
          upto = ap (run_callback callback d) (eq ∙ e);
        })
  turn-arrived content addr acc s (inr h) =
      let d = cut read_size content addr in
      let (t, same, ready, e) = run_due-Held (arrived content addr) acc s h in
      let (next, eq) = read_data-arrived read_size content addr t ready in
      subst (Holding (run_callback callback d acc)) (sym same) (record {
        fut = t.made;
        datagram = d;
        held = next;
        upto = ap (run_callback callback d) (eq ∙ e);
      })

  serve-Serves :
      (os : List Outcome) (acc : S × List T) (s : UdpListener S T)
      → All Received os
      → Serves acc s
      → let t = serve read_size callback (os ++ blocked ∷ []) s in
        (r : ℕ) × Waiting r t × (done_so_far t ≡ run_callbacks os acc)
  unfolding serve run_callbacks
  serve-Serves [] acc s h serves = turn-blocked acc s serves
  serve-Serves (blocked ∷ os) acc s h serves =
      serve-Serves os acc (turn read_size callback s.due blocked s) h.1
        (inl (turn-blocked acc s serves))
  serve-Serves (arrived content addr ∷ os) acc s h serves =
      serve-Serves os (run_callback callback (cut read_size content addr) acc)
        (turn read_size callback s.due (arrived content addr) s) h.1
        (inr (turn-arrived content addr acc s serves))
  serve-Serves (failed x ∷ os) acc s h serves = absurd h.0

  -- A listener that was started hands each datagram to its callback, in the order of their arrival and
  -- cut to the read size, whatever the callback raises, and then waits for the next, as long as the
  -- socket does not raise.
  pub serve-callbacks :
      (os : List Outcome) (s : S)
      → All Received os
      → let t =
          serve read_size callback
            (os ++ blocked ∷ [])
            (start read_size blocked (new_listener s)) in
        ((t.state, t.tasks) ≡ run_callbacks os (s, [])) × ((r : ℕ) × Waiting r t)
  serve-callbacks os s h =
      let fresh : UdpListener S T = new_listener s in
      let (first, eq) =
        read_data-blocked read_size fresh (record { unread = refl; idle = refl; opened = refl }) in
      let (r, w, e) =
        serve-Serves os (s, []) (start read_size blocked fresh) h (inl (fresh.made, first, eq)) in
      (e, (r, w))
