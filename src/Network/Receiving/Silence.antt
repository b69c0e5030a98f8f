-- ===== src/Network/Receiving/Silence.antt =====
-- `UDPListener` of tattle/network.py after an error of the socket and after `stop`.
use tattle.Prelude.{
  ℕ, ◌≡◌, refl, sym, ap, ◌∙◌, true, Option, none, some, List, [], ◌∷◌, ◌++◌, All, if◌then◌else◌,
}
use mathlib.Core.Path.{subst}
use tattle.Exec.{Exception, Exec, ok, raised}
use tattle.Messages.{Bytes}
use tattle.Network.{Address, Future, pending, done, cancelled, put, settle_future, is_cancelled}
use tattle.Network.Sending.Accounts.{put-same}
use tattle.Network.Receiving.{
  Outcome, blocked, failed, UdpListener, finish, read_socket, try_recvfrom, recvfrom_now,
  run_reader, cancel_future, handle_data, run_due, stop, start, serve, new_listener, ListenStep,
  reader_step, due_step, stop_step, take_listen, run_listens,
}
use tattle.Network.Receiving.Reading.{Waiting, done_so_far, Received, run_reader-open}
use tattle.Network.Receiving.Serving.{run_callbacks, serve-callbacks}

-- `_handle_data` does nothing for such a future.
abbrev Silent : Future (Bytes × Address) → Type 0
Silent pending = ⊥
Silent (done (ok datagram)) = ⊥
Silent (done (raised x)) = Unit
Silent cancelled = Unit

abbrev SilentReader : (ℕ → Future (Bytes × Address)) → Option ℕ → Type 0
SilentReader futures none = Unit
SilentReader futures (some fut) = futures fut ≡ cancelled

abbrev SilentTask : (ℕ → Future (Bytes × Address)) → Option ℕ → Type 0
SilentTask futures none = Unit
SilentTask futures (some fut) = Silent (futures fut)

module _ {S T : Type 0} where
  record Quiet (s : UdpListener S T) : Type 0 where
    reading : SilentReader s.futures s.reader
    due_none : All (λ fut. Silent (s.futures fut)) s.due
    tasked : SilentTask s.futures s.task

  abbrev StaysQuiet : UdpListener S T → UdpListener S T → Type 0
  StaysQuiet s t = Quiet t × (done_so_far t ≡ done_so_far s)

  module _ (read_size : ℕ) (callback : Option (Bytes → Address → Exec S (Option T))) where
    reader-Quiet :
        (q : Option ℕ) (o : Outcome) (s : UdpListener S T)
        → Quiet s
        → SilentReader s.futures q
        → StaysQuiet s (run_reader read_size q o s)
    unfolding run_reader recvfrom_now
    reader-Quiet none o s h e = (h, refl)
    reader-Quiet (some fut) o s h e =
        let t : UdpListener S T = record s { reader = none } in
        subst (StaysQuiet s)
          (sym (
            ap
              (λ f.
                if is_cancelled f then t else try_recvfrom read_size fut (read_socket s.closed o) t)
              e))
          (record { reading = tt; due_none = h.due_none; tasked = h.tasked }, refl)

    handle-Quiet :
        (f : Future (Bytes × Address)) (o : Outcome) (s : UdpListener S T)
        → Silent f
        → handle_data read_size callback f o s ≡ s
    unfolding handle_data
    handle-Quiet pending o s h = absurd h
    handle-Quiet (done (ok datagram)) o s h = absurd h
    handle-Quiet (done (raised x)) o s h = refl
    handle-Quiet cancelled o s h = refl

    due-Quiet :
        (q : List ℕ) (o : Outcome) (s : UdpListener S T)
        → Quiet s
        → All (λ fut. Silent (s.futures fut)) q
        → StaysQuiet s (run_due read_size callback q o s)
    unfolding run_due
    due-Quiet [] o s h silent = (h, refl)
    due-Quiet (fut ∷ rest) o s h silent =
        subst (StaysQuiet s)
          (sym (handle-Quiet (s.futures fut) o (record s { due = rest }) silent.0))
          (record { reading = h.reading; due_none = silent.1; tasked = h.tasked }, refl)

    cancel-Quiet :
        (fut : ℕ) (f : Future (Bytes × Address)) (s : UdpListener S T)
        → Silent f
        → cancel_future fut f s ≡ s
    unfolding cancel_future
    cancel-Quiet fut pending s h = absurd h
    cancel-Quiet fut (done result) s h = refl
    cancel-Quiet fut cancelled s h = refl

    stop-Quiet :
        (q : Option ℕ) (s : UdpListener S T)
        → Quiet s
        → SilentTask s.futures q
        → StaysQuiet s (stop q s).1
    unfolding stop
    stop-Quiet none s h silent = (h, refl)
    stop-Quiet (some fut) s h silent =
        subst (λ (t : UdpListener S T). StaysQuiet s (record t { closed = true }))
          (sym (cancel-Quiet fut (s.futures fut) s silent))
          (record { reading = h.reading; due_none = h.due_none; tasked = h.tasked }, refl)

    take_listen-Quiet :
        (st : ListenStep) (s : UdpListener S T)
        → Quiet s
        → StaysQuiet s (take_listen read_size callback st s)
    unfolding take_listen
    take_listen-Quiet (reader_step o) s h = reader-Quiet s.reader o s h h.reading
    take_listen-Quiet (due_step o) s h = due-Quiet s.due o s h h.due_none
    take_listen-Quiet stop_step s h = stop-Quiet s.task s h h.tasked

    run_listens-Quiet :
        (steps : List ListenStep) (s : UdpListener S T)
        → Quiet s
        → done_so_far (run_listens read_size callback steps s) ≡ done_so_far s
    unfolding run_listens
    run_listens-Quiet [] s h = refl
    run_listens-Quiet (st ∷ steps) s h =
        let (quiet, e) = take_listen-Quiet st s h in
        run_listens-Quiet steps (take_listen read_size callback st s) quiet ∙ e

    -- A listener that waits, after an error of the socket
    failed-Quiet :
        (r : ℕ) (x : Exception) (s : UdpListener S T)
        → Waiting r s
        → StaysQuiet s (run_reader read_size s.reader (failed x) s)
    unfolding try_recvfrom
    failed-Quiet r x s w =
        let f = settle_future (raised x) (s.futures r) in
        let now : put r f s.futures r ≡ done (raised x) =
          put-same r f s.futures ∙ ap (settle_future (raised x)) w.waits in
        let silent : Silent (put r f s.futures r) = subst Silent (sym now) tt in
        subst (StaysQuiet s) (sym (run_reader-open read_size r (failed x) s w)) (
          record {
            reading = tt;
            due_none =
                subst (All (λ fut. Silent (put r f s.futures fut)))
                  (sym (
                    ap (λ b. if b then s.due ++ r ∷ [] else s.due) w.watches
                    ∙ ap (λ q. q ++ r ∷ []) w.idle))
                  (silent, tt);
            tasked = subst (SilentTask (put r f s.futures)) (sym w.mine) silent;
          },
          refl,
        )

    -- and after `stop`
    stopped-Quiet : (r : ℕ) (s : UdpListener S T) → Waiting r s → StaysQuiet s (stop s.task s).1
    unfolding stop cancel_future
    stopped-Quiet r s w =
        let now : put r cancelled s.futures r ≡ cancelled = put-same r cancelled s.futures in
        let silent : Silent (put r cancelled s.futures r) = subst Silent (sym now) tt in
        let t : UdpListener S T = record (finish r cancelled s) { closed = true } in
        subst (StaysQuiet s)
          (sym (
            ap (λ q. (stop q s).1) w.mine
            ∙ ap (λ f. record (cancel_future r f s) { closed = true }) w.waits))
          (
            record {
              reading = subst (SilentReader t.futures) (sym w.reading) now;
              due_none =
                  subst (All (λ fut. Silent (t.futures fut)))
                    (sym (
                      ap (λ b. if b then s.due ++ r ∷ [] else s.due) w.watches
                      ∙ ap (λ q. q ++ r ∷ []) w.idle))
                    (silent, tt);
              tasked = subst (SilentTask t.futures) (sym w.mine) silent;
            },
            refl,
          )

    -- A listener has handed on what has come so far without an error, and waits. After an error of the
    -- socket, and after `stop`, its callback gets nothing more, whatever happens then short of another
    -- `start`.
    pub run_listens-silent :
        (os : List Outcome) (s : S) (x : Exception) (later : List ListenStep)
        → All Received os
        → let t =
            serve read_size callback
              (os ++ blocked ∷ [])
              (start read_size blocked (new_listener s)) in
          let u =
            run_listens read_size callback later (run_reader read_size t.reader (failed x) t) in
          let v = run_listens read_size callback later (stop t.task t).1 in
          ((u.state, u.tasks) ≡ run_callbacks read_size callback os (s, []))
          × ((v.state, v.tasks) ≡ run_callbacks read_size callback os (s, []))
    run_listens-silent os s x later h =
        let t =
          serve read_size callback (os ++ blocked ∷ [])
            (start read_size blocked (new_listener s)) in
        let (eq, last) = serve-callbacks read_size callback os s h in
        let (r, w) = last in
        let (quiet, same) = failed-Quiet r x t w in
        let (still, kept) = stopped-Quiet r t w in
        (run_listens-Quiet later _ quiet ∙ same ∙ eq, run_listens-Quiet later _ still ∙ kept ∙ eq)
