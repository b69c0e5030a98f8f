-- ===== src/Cluster/Exchange/Spreading.antt =====
-- A sync between two nodes of tattle/cluster.py: the states that one sends are merged by the other.
use tattle.Prelude.{
  ℕ, String, ◌≡◌, refl, sym, ap, ◌∙◌, Option, if◌then◌else◌, false, none, some, List, [], ◌∷◌,
  arith, map, All, ◌==◌, eq_iff, Bool-cases, Option-cases, inl, inr,
}
use tattle.Prelude.Dict.{get}
use tattle.Exec.{ok}
use tattle.Exec.Does.{bind-ok}
use tattle.Messages.{Message, Metadata, RemoteNodeState, InternetAddress, address, internet_address}
use tattle.State.Node.{alive, NodeManager, Env}
use tattle.State.Manager.{local_ref}
use tattle.State.Handlers.{on_node_suspect}
use tattle.State.Shape.{Inv, view}
use tattle.State.Knowledge.{Knowledge, names_local, hear_alive}
use tattle.State.Rumors.{Older, Older-trans}
use tattle.State.Runs.{IsSafe}
use tattle.State.Telling.{Returns, Encodes, told_alive, told_suspect}
use tattle.State.Returning.{on_node_alive-Returns, on_node_suspect-Returns}
use tattle.Cluster.Exchange.{
  merge_alive, merge_remote_state, merge_remote_states, local_state, remote_node_state,
}
use tattle.Cluster.Exchange.Merging.{
  merge_remote_state-Learns, merge_remote_states-Older, merge_remote_state-IsSafe,
}
use tattle.Cluster.Exchange.Reporting.{reported, carried, local_state-view}

-- A state with an address and metadata
pub record IsComplete (remote : RemoteNodeState) : Type 0 where
  pub addr : InternetAddress
  pub addressed : remote.addr ≡ some addr
  pub metadata : Metadata
  pub described : remote.metadata ≡ some metadata

local_state-IsComplete : {F : Type 0} → (s : NodeManager F) → All IsComplete (local_state s)
unfolding local_state
local_state-IsComplete s = each s.nodes
  where
    each : (rs : List ℕ) → All IsComplete (map (remote_node_state s) rs)
    each [] = tt
    each (r ∷ rs) = (
      record {
        addr = internet_address (s.heap r).host (s.heap r).port;
        addressed = refl;
        metadata = (s.heap r).metadata;
        described = refl;
      },
      each rs,
    )

-- The local node of a safe manager has a reference.
local_known :
    {F : Type 0}
    → (me : String) (s : NodeManager F) → IsSafe me s
    → (l : ℕ) × (local_ref s ≡ some l)
unfolding local_ref
local_known me s v = elim (Option-cases (get s.nodes_map me)) [
  | inl m ↦ absurd (ground (arith, m, v.local_alive))
  | inr (l, m) ↦ (l, ground (arith, m, v.local_name))
]

hear_alive-newest : (i : ℕ) (k : Knowledge) → Older (some (alive, i)) (hear_alive false k i)
hear_alive-newest i none = ground arith
hear_alive-newest i (some (st, j)) = ground arith

abbrev pub or_else {ℓ} : {A : Type ℓ} → Option A → A → A
or_else none a = a
or_else (some b) a = b

-- The reference of the local node, if it has one
abbrev pub local_or_0 : {F : Type 0} → NodeManager F → ℕ
local_or_0 s = elim (local_ref s) [ none ↦ 0 | some l ↦ l ]

-- What merging the state of a peer tells others, if it is news
abbrev pub told_by : {F : Type 0} → RemoteNodeState → NodeManager F → Message
told_by remote s =
    if remote.status == "ALIVE"
    then (let addr = or_else remote.addr (internet_address none 0) in
        told_alive remote.node remote.incarnation (address addr) addr.port
          (or_else remote.metadata []) s)
    else told_suspect remote.node remote.incarnation (local_or_0 s) s

-- What is told of each of the states, as the node is when it comes to it, can be encoded.
abbrev pub Tells : {F : Type 0} → Env F → List RemoteNodeState → NodeManager F → Type 0
Tells e [] s = Unit
Tells e (remote ∷ rest) s =
    Encodes e (told_by remote s) × Tells e rest (merge_remote_state e remote s).1

module _ {F : Type 0} (e : Env F) where
  merge_remote_state-Returns :
      (remote : RemoteNodeState) (me : String) (s : NodeManager F)
      → IsComplete remote
      → IsSafe me s
      → s.queue.max_size ≡ 0
      → Encodes e (told_by remote s)
      → Returns (merge_remote_state e remote s)
  unfolding merge_remote_state merge_alive
  merge_remote_state-Returns remote me s c v h told =
      let (l, known) = local_known me s v in
      let here : local_or_0 s ≡ l = rw (local_or_0, known) refl in
      let suspects_told : remote.status == "ALIVE" ≡ false
          → told_by remote s ≡ told_suspect remote.node remote.incarnation l s =
        λ a. rw a (ap (λ k. told_suspect remote.node remote.incarnation k s) here) in
      let suspects : remote.status == "ALIVE" ≡ false
          → Returns (on_node_suspect e remote.node remote.incarnation (some c.metadata) s) =
        λ a.
          on_node_suspect-Returns e remote.node remote.incarnation c.metadata l s v.inv h known
            (told.0, sym (ap e.encode (suspects_told a)) ∙ told.1) in
      elim (Bool-cases (remote.status == "ALIVE")) [
        | inl a ↦
            rw (a, c.addressed, merge_alive, c.described)
              (on_node_alive-Returns e remote.node remote.incarnation (address c.addr) c.addr.port
                c.metadata s v.inv h (told.0, rw (a, c.addressed, c.described) at told.1))
        | inr a ↦ elim (Bool-cases (remote.status == "SUSPECT")) [
          | inl b ↦ rw (a, b, c.described) (suspects a)
          | inr b ↦ elim (Bool-cases (remote.status == "DEAD")) [
            | inl d ↦ rw (a, b, d, c.described) (suspects a)
            | inr d ↦ rw (a, b, d) (record { result = tt; returns = refl; unlimited = h })
          ]
        ]
      ]

  merge_remote_state-newest :
      (remote : RemoteNodeState) (s : NodeManager F)
      → IsComplete remote
      → Inv s
      → names_local s remote.node ≡ false
      → remote.status ≡ "ALIVE"
      → Older
          (some (alive, remote.incarnation))
          (view (merge_remote_state e remote s).1 remote.node)
  merge_remote_state-newest remote s c v far st =
      let k = view s remote.node in
      let learned : view (merge_remote_state e remote s).1 remote.node
          ≡ hear_alive false k remote.incarnation =
        ground (
          arith,
          (merge_remote_state-Learns e remote s v).views remote.node,
          eq_iff remote.node remote.node,
          (eq_iff remote.status "ALIVE").1 st,
          c.addressed,
          far,
        ) in
      rw learned (hear_alive-newest remote.incarnation k)

  merge_remote_states-newest :
      (remotes : List RemoteNodeState) (me n : String) (i : ℕ) (s : NodeManager F)
      → All IsComplete remotes
      → IsSafe me s
      → s.queue.max_size ≡ 0
      → names_local s n ≡ false
      → reported remotes n ≡ some ("ALIVE", i)
      → Tells e remotes s
      → Older (some (alive, i)) (view (merge_remote_states e remotes s).1 n)
  unfolding merge_remote_states
  merge_remote_states-newest [] me n i s c v h far r told = cc
  merge_remote_states-newest (remote ∷ rest) me n i s c v h far r (here_told, later_told) =
      let first = merge_remote_state-Returns remote me s c.0 v h here_told in
      let t = (merge_remote_state e remote s).1 in
      let l = merge_remote_state-Learns e remote s v.inv in
      let away : names_local t n ≡ false = ground (arith, l.local_node_name, far) in
      rw
        (bind-ok (merge_remote_state e remote) (λ _. merge_remote_states e rest) s first.result
          first.returns)
        (elim (Bool-cases (remote.node == n)) [
          | inl same ↦
              let named : remote.node ≡ n = (eq_iff remote.node n).0 same in
              let found : (remote.status ≡ "ALIVE") × (remote.incarnation ≡ i) =
                (ground (arith, same, r), ground (arith, same, r)) in
              let here : Older (some (alive, i)) (view t n) =
                rw (← named, ← found.1)
                  (merge_remote_state-newest remote s c.0 v.inv (rw named far) found.0) in
              Older-trans (some (alive, i)) (view t n) (view (merge_remote_states e rest t).1 n)
                here (merge_remote_states-Older e rest t n l.inv away)
          | inr other ↦
              merge_remote_states-newest rest me n i t c.1
                (merge_remote_state-IsSafe e remote me s v) first.unlimited away
                (ground (arith, other, r)) later_told
        ])

  merge_remote_states-Returns :
      (remotes : List RemoteNodeState) (me : String) (s : NodeManager F)
      → All IsComplete remotes
      → IsSafe me s
      → s.queue.max_size ≡ 0
      → Tells e remotes s
      → (merge_remote_states e remotes s).0 ≡ ok tt
  unfolding merge_remote_states
  merge_remote_states-Returns [] me s c v h told = refl
  merge_remote_states-Returns (remote ∷ rest) me s c v h (here_told, later_told) =
      let first = merge_remote_state-Returns remote me s c.0 v h here_told in
      rw
        (bind-ok (merge_remote_state e remote) (λ _. merge_remote_states e rest) s first.result
          first.returns)
        (merge_remote_states-Returns rest me _ c.1 (merge_remote_state-IsSafe e remote me s v)
          first.unlimited later_told)

  -- Where what is told can be encoded and the queue has no limit, merging the states that a well-formed peer
  -- sends returns. A node other than the local one that the peer knows as alive is known after it with
  -- the incarnation that the peer knows, or with newer knowledge.
  pub sync_spreads :
      {G : Type 0}
      → (p : NodeManager G) (me n : String) (i : ℕ) (s : NodeManager F) → Inv p
      → IsSafe me s
      → s.queue.max_size ≡ 0
      → names_local s n ≡ false
      → view p n ≡ some (alive, i)
      → Tells e (local_state p) s
      → ((merge_remote_states e (local_state p) s).0 ≡ ok tt)
        × Older (some (alive, i)) (view (merge_remote_states e (local_state p) s).1 n)
  sync_spreads p me n i s w v h far known told = (
    merge_remote_states-Returns (local_state p) me s (local_state-IsComplete p) v h told,
    merge_remote_states-newest (local_state p) me n i s (local_state-IsComplete p) v h far
        (local_state-view p n w ∙ ap carried known) told,
  )
