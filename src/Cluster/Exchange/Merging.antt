-- ===== src/Cluster/Exchange/Merging.antt =====
-- What merging the states of a peer, as `_merge_remote_state` of tattle/cluster.py does it, makes of
-- the knowledge of the node manager.
use tattle.Prelude.{
  ℕ, String, ◌≡◌, ap, ◌∙◌, Bool, true, false, none, some, List, [], ◌∷◌, arith, if◌then◌else◌, ◌||◌,
  ltb, ◌==◌, eq_iff, Bool-cases, Option-cases, inl, inr,
}
use tattle.Exec.Does.{Result-cases}
use tattle.Messages.{RemoteNodeState, address}
use tattle.State.Node.{alive, suspect, NodeManager, Env}
use tattle.State.Shape.{Inv, Steady-refl, view}
use tattle.State.Knowledge.{
  Knowledge, Learns, Learns-Steady, names_local, hear_alive, hear_rumor, refutation,
}
use tattle.State.Refinement.{on_node_alive-Learns, on_node_suspect-Learns}
use tattle.State.Rumors.{
  Older, Older-refl, Older-trans, Older-Learns, hear_alive-Older, hear_rumor-Older,
}
use tattle.State.Runs.{IsSafe, IsSafe-Learns, known_as}
use tattle.Cluster.Exchange.{merge_alive, merge_remote_state, merge_remote_states}

-- What the state of a peer makes of the knowledge of its node: an alive state with an address is an
-- alive notification, a suspect or a dead one a suspicion, and any other is passed over.
abbrev pub hear_state : RemoteNodeState → Bool → ℕ → Knowledge → Knowledge
hear_state remote mine fresh k =
    if remote.status == "ALIVE"
    then elim remote.addr [ none ↦ k | some addr ↦ hear_alive mine k remote.incarnation ]
    else if remote.status == "SUSPECT"
    then hear_rumor suspect (refutation mine fresh) k remote.incarnation
    else if remote.status == "DEAD"
    then hear_rumor suspect (refutation mine fresh) k remote.incarnation
    else k

module _ {F : Type 0} (e : Env F) (remote : RemoteNodeState) (s : NodeManager F) (v : Inv s) where
  -- In a well-formed state, merging the state that a peer sends makes of the knowledge of its node what
  -- `hear_state` says, where a dead node is only suspected. It keeps the knowledge of all other nodes
  -- and the well-formedness, whether it returns or raises.
  pub merge_remote_state-Learns :
      Learns remote.node
        (hear_state remote (names_local s remote.node) s.local_node_seq.next (view s remote.node))
        s
        (merge_remote_state e remote s).1
  unfolding merge_remote_state merge_alive
  merge_remote_state-Learns = elim (Bool-cases (remote.status == "ALIVE")) [
    | inl a ↦ elim (Option-cases remote.addr) [
      | inl n ↦ rw (a, n) (Learns-Steady remote.node _ s s v (Steady-refl s) (ground (arith, a, n)))
      | inr (addr, n) ↦
          rw (a, n)
            (on_node_alive-Learns e remote.node remote.incarnation (address addr) addr.port
              remote.metadata s v)
    ]
    | inr a ↦ elim (Bool-cases (remote.status == "SUSPECT")) [
      | inl b ↦
          rw (a, b) (on_node_suspect-Learns e remote.node remote.incarnation s v remote.metadata)
      | inr b ↦ elim (Bool-cases (remote.status == "DEAD")) [
        | inl c ↦
            rw (a, b, c)
              (on_node_suspect-Learns e remote.node remote.incarnation s v remote.metadata)
        | inr c ↦
            rw (a, b, c)
              (Learns-Steady remote.node _ s s v (Steady-refl s) (ground (arith, a, b, c)))
      ]
    ]
  ]

hear_state-Older :
    (remote : RemoteNodeState) (fresh : ℕ) (k : Knowledge)
    → Older k (hear_state remote false fresh k)
hear_state-Older remote fresh k = elim (Bool-cases (remote.status == "ALIVE")) [
  | inl a ↦ elim (Option-cases remote.addr) [
    | inl n ↦ rw (a, n) (Older-refl k)
    | inr (addr, n) ↦ rw (a, n) (hear_alive-Older remote.incarnation k)
  ]
  | inr a ↦
      let rumor = hear_rumor-Older suspect remote.incarnation (omega arith) k in
      elim (Bool-cases (remote.status == "SUSPECT")) [
        | inl b ↦ rw (a, b) rumor
        | inr b ↦ elim (Bool-cases (remote.status == "DEAD")) [
          | inl c ↦ rw (a, b, c) rumor
          | inr c ↦ rw (a, b, c) (Older-refl k)
        ]
      ]
]

-- The local node stays alive: it refutes what the peer holds against it.
abbrev hear_state-incarnation : RemoteNodeState → ℕ → ℕ → ℕ
hear_state-incarnation remote fresh j =
    if ltb remote.incarnation j
    then j
    else if remote.status == "ALIVE"
    then elim remote.addr [ none ↦ j | some addr ↦ remote.incarnation ]
    else if remote.status == "SUSPECT" || remote.status == "DEAD"
    then fresh
    else j

hear_state-local :
    (remote : RemoteNodeState) (fresh j : ℕ)
    → hear_state remote true fresh (some (alive, j))
      ≡ some (alive, hear_state-incarnation remote fresh j)
hear_state-local remote fresh j = elim (Bool-cases (ltb remote.incarnation j)) [
  | inl h ↦ ground (arith, h)
  | inr h ↦ ground (arith, h)
]

module _ {F : Type 0} (e : Env F) where
  pub merge_remote_state-Older :
      (remote : RemoteNodeState) (s : NodeManager F) (n : String)
      → Inv s
      → names_local s n ≡ false
      → Older (view s n) (view (merge_remote_state e remote s).1 n)
  merge_remote_state-Older remote s n v far =
      let l = merge_remote_state-Learns e remote s v in
      elim (Bool-cases (remote.node == n)) [
        | inl h ↦
            let same : remote.node ≡ n = (eq_iff remote.node n).0 h in
            let away : names_local s remote.node ≡ false = rw same far in
            let k = view s remote.node in
            let fresh = s.local_node_seq.next in
            Older-Learns e remote.node remote.incarnation s _ _ l
              (rw (ap (λ m. hear_state remote m fresh k) away) (hear_state-Older remote fresh k)) n
        | inr h ↦ rw (l.views n, h) (Older-refl (view s n))
      ]

  -- In a well-formed state, merging the states that a peer sends, whatever they are and whether it
  -- returns or raises, takes back nothing that was known of a node other than the local one.
  pub merge_remote_states-Older :
      (remotes : List RemoteNodeState) (s : NodeManager F) (n : String)
      → Inv s
      → names_local s n ≡ false
      → Older (view s n) (view (merge_remote_states e remotes s).1 n)
  unfolding merge_remote_states
  merge_remote_states-Older [] s n v far = Older-refl (view s n)
  merge_remote_states-Older (remote ∷ rest) s n v far =
      let t = (merge_remote_state e remote s).1 in
      let l = merge_remote_state-Learns e remote s v in
      let first = merge_remote_state-Older remote s n v far in
      let later =
        merge_remote_states-Older rest t n l.inv (ground (arith, l.local_node_name, far)) in
      elim (Result-cases (merge_remote_state e remote s).0) [
        | inl (x, h) ↦ rw h first
        | inr (a, h) ↦ rw h (Older-trans _ _ _ first later)
      ]

  pub merge_remote_state-IsSafe :
      (remote : RemoteNodeState) (me : String) (s : NodeManager F)
      → IsSafe me s
      → IsSafe me (merge_remote_state e remote s).1
  merge_remote_state-IsSafe remote me s v =
      IsSafe-Learns me remote.node _
        (hear_state-incarnation remote s.local_node_seq.next v.incarnation) s _ v
        (merge_remote_state-Learns e remote s v.inv)
        (λ h.
          let fresh = s.local_node_seq.next in
          ap (λ m. hear_state remote m fresh (view s remote.node)) h
          ∙ ap (λ k. hear_state remote true fresh k) (known_as e me s v remote.node h)
          ∙ hear_state-local remote fresh v.incarnation)

  -- Merging the states that a peer sends, whatever they are and whether it returns or raises, keeps the
  -- manager well-formed and its own node alive.
  pub merge_remote_states-IsSafe :
      (remotes : List RemoteNodeState) (me : String) (s : NodeManager F)
      → IsSafe me s
      → IsSafe me (merge_remote_states e remotes s).1
  unfolding merge_remote_states
  merge_remote_states-IsSafe [] me s v = v
  merge_remote_states-IsSafe (remote ∷ rest) me s v =
      let first = merge_remote_state-IsSafe remote me s v in
      elim (Result-cases (merge_remote_state e remote s).0) [
        | inl (x, h) ↦ rw h first
        | inr (a, h) ↦ rw h (merge_remote_states-IsSafe rest me _ first)
      ]
