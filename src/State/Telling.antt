-- ===== src/State/Telling.antt =====
-- What the handlers of tattle/state.py tell, and that telling it returns: the encoder takes the message and the
-- queue has no limit.
use mathlib.Core.Path.{subst}
use tattle.Prelude.{
  ℕ, String, ◌≡◌, refl, sym, Option, some, arith, if◌then◌else◌, Bool-cases, inl, inr, none, [],
}
use tattle.Prelude.Dict.{get}
use tattle.Exec.{Exec, Result, ok, ◌>>=◌, ◌>>◌}
use tattle.Exec.Does.{bind-ok}
use tattle.Messages.{Message, Metadata, Bytes, internet_address}
use tattle.Queue
use tattle.Queue.{BroadcastQueue}
use tattle.State.Node.{Status, status_eq, Node, NodeManager, Env}
use tattle.State.Knowledge.{names_local}
use tattle.State.Manager.{
  local_ref, merge_metadata, send_broadcast, broadcast_alive, broadcast_suspect, emit_change,
  with_name, union,
}

-- The messages that the handlers tell: that a node is alive, as it is then, a suspicion, and the answer of the
-- local node to a rumor about it
abbrev pub alive_of : Node → Message
alive_of node = Message.alive (record {
  node = node.name;
  addr = some (internet_address node.host node.port);
  incarnation = node.incarnation;
  metadata = some node.metadata;
})

abbrev pub suspect_of : String → ℕ → String → Message
suspect_of name i sender =
    Message.suspect (record { node = name; incarnation = i; sender = some sender })

abbrev pub refutation_of : {F : Type 0} → ℕ → NodeManager F → Message
refutation_of l s = alive_of (record (s.heap l) { incarnation = s.local_node_seq.next })

-- The metadata that are known of a name
abbrev pub known_metadata : {F : Type 0} → NodeManager F → String → Metadata
known_metadata s name = elim (get s.nodes_map name) [ none ↦ [] | some r ↦ (s.heap r).metadata ]

-- What is told behind an alive notification
abbrev pub told_alive :
    {F : Type 0} → String → ℕ → Option String → ℕ → Metadata → NodeManager F → Message
told_alive name i host port metadata s = Message.alive (record {
  node = name;
  addr = some (internet_address host port);
  incarnation = i;
  metadata = some (union (known_metadata s name) metadata);
})

-- What is told behind a suspicion, by the local node at the reference
abbrev pub told_suspect : {F : Type 0} → String → ℕ → ℕ → NodeManager F → Message
told_suspect name i l s =
    if names_local s name then refutation_of l s else suspect_of name i (s.heap l).name

-- An action returns, with the result that is given, and the queue has no limit after it either.
pub record Returns {F A : Type 0} (outcome : Result A × NodeManager F) : Type 0 where
  pub result : A
  pub returns : outcome.0 ≡ ok result
  pub unlimited : outcome.1.queue.max_size ≡ 0

module _ {F A B : Type 0} (m : Exec (NodeManager F) A) (s : NodeManager F)
    (first : Returns (m s)) where
  pub Returns-bind :
      (f : A → Exec (NodeManager F) B) → Returns (f first.result (m s).1) → Returns ((m >>= f) s)
  Returns-bind f later = rw (bind-ok m f s first.result first.returns) later

  pub Returns-then : (n : Exec (NodeManager F) B) → Returns (n (m s).1) → Returns ((m >> n) s)
  Returns-then n later = Returns-bind (λ _. n) later

pub push-returns :
    (name : String) (raw : Bytes) (q : BroadcastQueue)
    → q.max_size ≡ 0
    → ((Queue.push name raw q).0 ≡ ok tt) × ((Queue.push name raw q).1.max_size ≡ 0)
unfolding Queue.push
push-returns name raw q h = ground (arith, h)

module _ {F : Type 0} where
  pub emit_change-Returns :
      (event : String) (old status : Status) (r : ℕ) (s : NodeManager F)
      → s.queue.max_size ≡ 0
      → Returns (emit_change event old status r s)
  unfolding emit_change
  emit_change-Returns event old status r s h = elim (Bool-cases (status_eq old status)) [
    | inl same ↦ rw (same, emit_change) (record { result = tt; returns = refl; unlimited = h })
    | inr changed ↦
        rw (changed, emit_change) (record { result = tt; returns = refl; unlimited = h })
  ]

  pub merge_metadata-Returns :
      (r : ℕ) (metadata : Metadata) (s : NodeManager F)
      → s.queue.max_size ≡ 0
      → Returns (merge_metadata r (some metadata) s)
  unfolding merge_metadata
  merge_metadata-Returns r metadata s h = record { result = tt; returns = refl; unlimited = h }

module _ {F : Type 0} (e : Env F) where
  -- The message can be encoded.
  abbrev pub Encodes : Message → Type 0
  Encodes msg = (raw : Bytes) × (e.encode msg ≡ ok raw)

  pub send_broadcast-Returns :
      (r : ℕ) (msg : Message) (s : NodeManager F)
      → Encodes msg
      → s.queue.max_size ≡ 0
      → Returns (send_broadcast e r msg s)
  unfolding send_broadcast
  send_broadcast-Returns r msg s (raw, encoded) h =
      let pushed = push-returns (s.heap r).name raw s.queue h in
      rw (encoded, send_broadcast)
        (record { result = tt; returns = pushed.0; unlimited = pushed.1 })

  pub broadcast_alive-Returns :
      (r : ℕ) (s : NodeManager F)
      → Encodes (alive_of (s.heap r))
      → s.queue.max_size ≡ 0
      → Returns (broadcast_alive e r s)
  unfolding broadcast_alive
  broadcast_alive-Returns r s told h = send_broadcast-Returns r _ s told h

  pub broadcast_suspect-Returns :
      (r l : ℕ) (s : NodeManager F)
      → local_ref s ≡ some l
      → Encodes (suspect_of (s.heap r).name (s.heap r).incarnation (s.heap l).name)
      → s.queue.max_size ≡ 0
      → Returns (broadcast_suspect e r s)
  unfolding broadcast_suspect with_name
  broadcast_suspect-Returns r l s known told h =
      let send = λ (sender : String). send_broadcast e r (
        Message.suspect (record {
          node = (s.heap r).name;
          incarnation = (s.heap r).incarnation;
          sender = some sender;
        })) in
      subst (λ (o : Option ℕ). Returns (with_name o send s)) (sym known)
        (send_broadcast-Returns r _ s told h)
