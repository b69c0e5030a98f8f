-- ===== src/Cluster/Dispatching.antt =====
-- The listener of tattle/network.py with `_handle_udp_data` of tattle/cluster.py as its callback: what arrives
-- on the socket becomes tasks for its messages.
use tattle.Prelude.{
  ℕ, zero, suc, ◌≤◌, ◌≡◌, refl, sym, ap, ◌∙◌, Option, none, some, List, [], ◌∷◌, ◌++◌, All, length,
  take, arith,
}
use mathlib.Core.List.{append_assoc, append-nil}
use tattle.Exec.{Exec, Result, ok}
use tattle.Messages.{Bytes}
use tattle.Network.{Address}
use tattle.Network.Receiving.{
  Outcome, blocked, arrived, after_callback, run_callback, start, serve, new_listener,
}
use tattle.Network.Receiving.Reading.{Received}
use tattle.Network.Receiving.Serving.{run_callbacks, serve-callbacks}
use tattle.Cluster.Datagrams.{handle_udp_data, datagram, Decodes, present, handle_udp_data-datagram}

-- A datagram: its frames, what they decode to, and where it comes from
abbrev pub Arrival : Type 0 → Type 0
Arrival M = List Bytes × List (Option M) × Address

take_all : (n : ℕ) (bs : Bytes) → length bs ≤ n → take n bs ≡ bs
take_all zero [] h = refl
take_all zero (b ∷ bs) h = absurd (omega arith)
take_all (suc n) [] h = refl
take_all (suc n) (b ∷ bs) h = ap (λ cs. b ∷ cs) (take_all n bs (omega arith))

module _ {M : Type 0} where
  abbrev pub read_all : List (Arrival M) → List Outcome
  read_all [] = []
  read_all ((bufs, os, addr) ∷ arrivals) = arrived (datagram bufs) addr ∷ read_all arrivals

  abbrev pub dispatched : List (Arrival M) → List M
  dispatched [] = []
  dispatched ((bufs, os, addr) ∷ arrivals) = present os ++ dispatched arrivals

  read_all-Received : (arrivals : List (Arrival M)) → All Received (read_all arrivals)
  read_all-Received [] = tt
  read_all-Received ((bufs, os, addr) ∷ arrivals) = (tt, read_all-Received arrivals)

module _ {M : Type 0} (decode : Bytes → Result (Option M)) where
  -- `_handle_udp_data` as the callback: the messages get tasks, behind those that have one.
  unfoldable pub handle_udp_callback : Bytes → Address → Exec (List M) (Option (Unit {0}))
  unfolding handle_udp_data
  handle_udp_callback content addr waiting = (ok none, waiting ++ handle_udp_data decode content)

  abbrev pub Fits : Arrival M → Type 0
  Fits (bufs, os, addr) = Decodes decode bufs os × (length (datagram bufs) ≤ 1024)

  run_callbacks-dispatched :
      (arrivals : List (Arrival M)) (waiting : List M) (tasks : List (Unit {0}))
      → All Fits arrivals
      → run_callbacks 1024 (some handle_udp_callback) (read_all arrivals) (waiting, tasks)
        ≡ (waiting ++ dispatched arrivals, tasks)
  unfolding run_callbacks run_callback after_callback handle_udp_callback
  run_callbacks-dispatched [] waiting tasks h = ap (λ ms. (ms, tasks)) (sym (append-nil waiting))
  run_callbacks-dispatched ((bufs, os, addr) ∷ arrivals) waiting tasks h =
      let later : Bytes → List M × List (Unit {0}) = λ bs.
        run_callbacks 1024 (some handle_udp_callback) (read_all arrivals)
          (waiting ++ handle_udp_data decode bs, tasks) in
      let (first, rest) = h in
      ap later (take_all 1024 (datagram bufs) first.1)
      ∙ ap
          (λ ms.
            run_callbacks 1024 (some handle_udp_callback) (read_all arrivals)
              (waiting ++ ms, tasks))
          (handle_udp_data-datagram decode bufs os first.0)
      ∙ run_callbacks-dispatched arrivals (waiting ++ present os) tasks rest
      ∙ ap (λ ms. (ms, tasks)) (append_assoc waiting (present os) (dispatched arrivals))

  -- Datagrams of at most 1024 bytes, whose frames can be decoded or fail to be with an error that is logged,
  -- arrive one after the other at a node that listens: each message that can be decoded gets a task, in the
  -- order of arrival, and nothing else does.
  pub serve-dispatched :
      (arrivals : List (Arrival M))
      → All Fits arrivals
      → (serve 1024
          (some handle_udp_callback)
          (read_all arrivals ++ blocked ∷ [])
          (start 1024 blocked (new_listener []))).state
        ≡ dispatched arrivals
  serve-dispatched arrivals h =
      ap (λ o. o.0)
        ((serve-callbacks 1024 (some handle_udp_callback) (read_all arrivals) []
            (read_all-Received arrivals)).0
          ∙ run_callbacks-dispatched arrivals [] [] h)
