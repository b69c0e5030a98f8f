-- ===== src/Cluster/Handling/Sending.antt =====
-- What `_send_udp_message` of tattle/cluster.py puts into a datagram, and what an answer makes of the
-- probes that wait.
use Prim.Native.Nat.{max}
use tattle.Prelude.{
  ℕ, ◌≤◌, ◌≡◌, refl, Bool, Option, none, some, List, [], ◌∷◌, ◌++◌, arith, length, length-append,
  eqb, map, reverse, take, drop, Option-cases, inl, inr, if◌then◌else◌, String,
}
use tattle.Prelude.Int.{pos, ◌-ℤ◌}
use tattle.Exec.{ok}
use tattle.Messages.{Bytes, Message}
use tattle.Queue
use tattle.Queue.{BroadcastQueue}
use tattle.Queue.Items.{Item}
use tattle.Queue.Budget.{bytes}
use tattle.Queue.Dissemination.{fetch_newest_first}
use tattle.Queue.Full.{spend, NoRoom, fetch-NoRoom}
use tattle.Cluster.Datagrams.{datagram}
use tattle.Cluster.Handling.{
  Cluster, ClusterEnv, send_udp_message, resolve_probe, probe_future, set_future,
  calculate_transmit_limit,
}

length-datagram : (bufs : List Bytes) → length (datagram bufs) ≡ bytes bufs
length-datagram [] = ground arith
length-datagram (buf ∷ bufs) =
    ground (arith, length-append buf (datagram bufs), length-datagram bufs)

-- A datagram with the message in front, behind it messages of the queue, the newest ones in their order: no
-- more of them than 512 bytes have room for, and so many that the next one does not fit
pub record IsSent (host : Option String) (port : ℕ) (buf : Bytes) (queue : BroadcastQueue)
    (before after : List (Option String × ℕ × Bytes)) : Type 0 where
  pub gossip : List Bytes
  pub queued : gossip ≡ map (λ (i : Item). i.message) (take (length gossip) (reverse queue.items))
  pub full :
      NoRoom
        (spend (pos 512 -ℤ pos (length buf)) gossip)
        (drop (length gossip) (reverse queue.items))
  pub sent : after ≡ before ++ (host, port, datagram (buf ∷ gossip)) ∷ []
  pub fits : length (datagram (buf ∷ gossip)) ≤ max 512 (length buf)

module _ {F : Type 0} (e : ClusterEnv F) where
  -- If the message is encoded, one datagram is sent, to the given address. It is the message with whole
  -- messages of the queue behind it, the newest ones, newest first, up to the first that does not fit:
  -- together they have at most 512 bytes, or as many as the message alone if that is longer.
  pub send_udp_message-IsSent :
      (host : Option String) (port : ℕ) (message : Message) (buf : Bytes) (s : Cluster F)
      → e.env.encode message ≡ ok buf
      → IsSent host port buf s.manager.queue s.sent (send_udp_message e host port message s).1.sent
  unfolding send_udp_message
  send_udp_message-IsSent host port message buf s h =
      let limit =
        calculate_transmit_limit e.ceil_log10 (length s.manager.nodes) e.retransmit_multi in
      let room = pos 512 -ℤ pos (length buf) in
      let gossip = (Queue.fetch limit room 0 s.manager.queue).0 in
      rw (h, send_udp_message)
        (record {
          gossip = gossip;
          queued = (fetch_newest_first limit room 0 s.manager.queue).0;
          full = fetch-NoRoom limit room s.manager.queue;
          sent = refl;
          fits = ground (
            arith,
            (fetch_newest_first limit room 0 s.manager.queue).1,
            length-append buf (datagram gossip),
            length-datagram gossip,
          );
        })

-- After an answer: a future that waited has the result, one that was resolved before keeps its result,
-- and no other future is touched.
abbrev pub answered : Option (Option Bool) → Bool → Option (Option Bool)
answered none result = none
answered (some none) result = some (some result)
answered (some (some old)) result = some (some old)

probe_future-set_future :
    (futures : List (ℕ × Option Bool)) (seq n : ℕ) (result : Bool)
    → probe_future futures seq ≡ some none
    → probe_future (set_future futures seq result) n
      ≡ (if eqb seq n then some (some result) else probe_future futures n)
unfolding probe_future set_future
probe_future-set_future [] seq n result h = ground (arith, h)
probe_future-set_future ((m, f) ∷ futures) seq n result h =
    ground (arith, h, probe_future-set_future futures seq n result)

-- An acknowledgement, or a negative one, resolves the probe of its sequence number if that waits. A probe
-- that has a result keeps it, whatever comes later, and all other probes are kept as they are.
pub resolve_probe-answered :
    {F : Type 0} (s : Cluster F) (seq n : ℕ) (result : Bool)
    → probe_future (resolve_probe seq result s).1.probe_status n ≡ (
        if eqb seq n
        then answered (probe_future s.probe_status n) result
        else probe_future s.probe_status n)
unfolding resolve_probe
resolve_probe-answered s seq n result = elim (Option-cases (probe_future s.probe_status seq)) [
  | inl h ↦ ground (arith, h)
  | inr (some old, h) ↦ ground (arith, h)
  | inr (none, h) ↦ ground (arith, h, probe_future-set_future s.probe_status seq n result h)
]
