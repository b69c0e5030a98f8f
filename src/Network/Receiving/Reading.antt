-- ===== src/Network/Receiving/Reading.antt =====
-- What a read of `UDPListener` of tattle/network.py does to a listener.
use tattle.Prelude.{
  ℕ, suc, ◌≡◌, refl, sym, ap, ◌∙◌, true, false, none, some, List, [], ◌∷◌, ◌++◌, take,
  if◌then◌else◌,
}
use mathlib.Core.Path.{subst}
use tattle.Exec.{Result, ok}
use tattle.Messages.{Bytes}
use tattle.Network.{Address, pending, done, put, settle_future, is_cancelled}
use tattle.Network.Sending.Accounts.{put-same}
use tattle.Network.Receiving.{
  Outcome, blocked, arrived, failed, UdpListener, finish, add_done_callback, read_socket,
  try_recvfrom, recvfrom_now, recvfrom, read_data, run_reader,
}

-- What the listener gets of a datagram
abbrev pub cut : ℕ → Bytes → Address → Bytes × Address
cut read_size content addr = (take read_size content, addr)

-- The socket does not raise.
abbrev pub Received : Outcome → Type 0
Received blocked = Unit
Received (arrived content addr) = Unit
Received (failed x) = ⊥

module _ {S T : Type 0} where
  -- The listener waits for the socket.
  pub record Waiting (r : ℕ) (s : UdpListener S T) : Type 0 where
    pub reading : s.reader ≡ some r
    pub waits : s.futures r ≡ pending
    pub watches : s.watched r ≡ true
    pub idle : s.due ≡ []
    pub opened : s.closed ≡ false
    pub mine : s.task ≡ some r

  -- A datagram has been read, and `_handle_data` is due for it.
  pub record Held (r : ℕ) (d : Bytes × Address) (s : UdpListener S T) : Type 0 where
    pub unread : s.reader ≡ none
    pub holds : s.futures r ≡ done (ok d)
    pub due_now : s.due ≡ r ∷ []
    pub opened : s.closed ≡ false
    pub mine : s.task ≡ some r

  -- Nothing is read and nothing is due.
  pub record Ready (s : UdpListener S T) : Type 0 where
    pub unread : s.reader ≡ none
    pub idle : s.due ≡ []
    pub opened : s.closed ≡ false

  abbrev pub done_so_far : UdpListener S T → S × List T
  done_so_far s = (s.state, s.tasks)

  module _ (read_size : ℕ) where
    recvfrom_now-open :
        (fut : ℕ) (o : Outcome) (s : UdpListener S T)
        → s.futures fut ≡ pending
        → s.closed ≡ false
        → recvfrom_now read_size fut false o s ≡ try_recvfrom read_size fut o s
    unfolding recvfrom_now
    recvfrom_now-open fut o s p live =
        ap
          (λ f. if is_cancelled f then s else try_recvfrom read_size fut (read_socket s.closed o) s)
          p
        ∙ ap (λ c. try_recvfrom read_size fut (read_socket c o) s) live

    -- The listener with a new call of `recvfrom`
    abbrev called : UdpListener S T → UdpListener S T
    called s = record s {
      futures = put s.made pending s.futures;
      watched = put s.made false s.watched;
      made = suc s.made;
    }

    read_data-open :
        (o : Outcome) (s : UdpListener S T)
        → s.closed ≡ false
        → read_data read_size o s ≡ (
            let t = try_recvfrom read_size s.made o (called s) in
            add_done_callback s.made (t.futures s.made) (record t { task = some s.made }))
    unfolding read_data recvfrom
    read_data-open o s live =
        ap
          (λ (t : UdpListener S T).
            add_done_callback s.made (t.futures s.made) (record t { task = some s.made }))
          (recvfrom_now-open s.made o (called s) (put-same s.made pending s.futures) live)

    pub read_data-blocked :
        (s : UdpListener S T)
        → Ready s
        → let t = read_data read_size blocked s in
          Waiting s.made t × (done_so_far t ≡ done_so_far s)
    unfolding try_recvfrom add_done_callback
    read_data-blocked s h =
        let same = put-same s.made pending s.futures in
        let t : UdpListener S T = record (called s) { reader = some s.made; task = some s.made } in
        let eq : read_data read_size blocked s ≡ record t { watched = put s.made true t.watched } =
          read_data-open blocked s h.opened ∙ ap (λ f. add_done_callback s.made f t) same in
        subst (λ u. Waiting s.made u × (done_so_far u ≡ done_so_far s)) (sym eq)
          (
            record {
              reading = refl;
              waits = same;
              watches = put-same s.made true t.watched;
              idle = h.idle;
              opened = h.opened;
              mine = refl;
            },
            refl,
          )

    pub read_data-arrived :
        (content : Bytes) (addr : Address) (s : UdpListener S T)
        → Ready s
        → let t = read_data read_size (arrived content addr) s in
          Held s.made (cut read_size content addr) t × (done_so_far t ≡ done_so_far s)
    unfolding try_recvfrom add_done_callback
    read_data-arrived content addr s h =
        let r = s.made in
        let got : Result (Bytes × Address) = ok (cut read_size content addr) in
        let same =
          put-same r (settle_future got ((called s).futures r)) (called s).futures
          ∙ ap (settle_future got) (put-same r pending s.futures) in
        let t : UdpListener S T =
          record (finish r (settle_future got ((called s).futures r)) (called s)) {
            task = some r;
          } in
        let eq : read_data read_size (arrived content addr) s ≡ record t { due = t.due ++ r ∷ [] } =
          read_data-open (arrived content addr) s h.opened
          ∙ ap (λ f. add_done_callback r f t) same in
        let idle : t.due ≡ [] =
          ap (λ w. if w then s.due ++ r ∷ [] else s.due) (put-same r false s.watched) ∙ h.idle in
        subst (λ u. Held r (cut read_size content addr) u × (done_so_far u ≡ done_so_far s))
          (sym eq)
          (
            record {
              unread = h.unread;
              holds = same;
              due_now = ap (λ q. q ++ r ∷ []) idle;
              opened = h.opened;
              mine = refl;
            },
            refl,
          )

    pub run_reader-open :
        (r : ℕ) (o : Outcome) (s : UdpListener S T)
        → Waiting r s
        → run_reader read_size s.reader o s
          ≡ try_recvfrom read_size r o (record s { reader = none })
    unfolding run_reader recvfrom_now
    run_reader-open r o s w =
        let t : UdpListener S T = record s { reader = none } in
        ap (λ q. run_reader read_size q o s) w.reading
        ∙ ap
            (λ f. if is_cancelled f then t else try_recvfrom read_size r (read_socket s.closed o) t)
            w.waits
        ∙ ap (λ c. try_recvfrom read_size r (read_socket c o) t) w.opened

    pub run_reader-blocked :
        (r : ℕ) (s : UdpListener S T)
        → Waiting r s
        → let t = run_reader read_size s.reader blocked s in
          Waiting r t × (done_so_far t ≡ done_so_far s)
    unfolding try_recvfrom
    run_reader-blocked r s w =
        subst (λ u. Waiting r u × (done_so_far u ≡ done_so_far s))
          (sym (run_reader-open r blocked s w))
          (
            record {
              reading = refl;
              waits = w.waits;
              watches = w.watches;
              idle = w.idle;
              opened = w.opened;
              mine = w.mine;
            },
            refl,
          )

    pub run_reader-arrived :
        (r : ℕ) (content : Bytes) (addr : Address) (s : UdpListener S T)
        → Waiting r s
        → let t = run_reader read_size s.reader (arrived content addr) s in
          Held r (cut read_size content addr) t × (done_so_far t ≡ done_so_far s)
    unfolding try_recvfrom
    run_reader-arrived r content addr s w =
        let got : Result (Bytes × Address) = ok (cut read_size content addr) in
        subst (λ u. Held r (cut read_size content addr) u × (done_so_far u ≡ done_so_far s))
          (sym (run_reader-open r (arrived content addr) s w))
          (
            record {
              unread = refl;
              holds =
                  put-same r (settle_future got (s.futures r)) s.futures
                  ∙ ap (settle_future got) w.waits;
              due_now =
                  ap (λ b. if b then s.due ++ r ∷ [] else s.due) w.watches
                  ∙ ap (λ q. q ++ r ∷ []) w.idle;
              opened = w.opened;
              mine = w.mine;
            },
            refl,
          )
