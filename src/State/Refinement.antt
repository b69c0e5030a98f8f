-- ===== src/State/Refinement.antt =====
-- The handlers of tattle/state.py against the abstract view: on every branch, whether they return or
-- raise, they keep the state well-formed and make of the knowledge of the named node what
-- `hear_alive` and `hear_rumor` say.
use tattle.Prelude.{
  ℕ, String, ◌≡◌, refl, ap, ◌∙◌, inl, inr, Bool, not, ◌&&◌, Option, some, arith, ltb, eqb,
  if◌then◌else◌, eq_iff, Option-cases, Bool-cases,
}
use tattle.Prelude.Dict.{get}
use tattle.Exec.{Exec, ◌>>◌, modify, pass}
use tattle.Exec.Does.{bind-ok}
use tattle.Messages.{Metadata}
use tattle.State.Node.{Status, alive, suspect, dead, status_eq, NodeManager, Env}
use tattle.State.Manager.{is_local, option_eq}
use tattle.State.Handlers.{
  find_or_create, update_address, alive_is_old, accept_alive, on_node_alive, on_node_dead,
  on_node_suspect,
}
use tattle.State.Shape.{Inv, Steady, view, Steady-refl, view-Steady}
use tattle.State.Tails.{write-Steady}
use tattle.State.Knowledge.{
  Knowledge, entry, hear_alive, newer, hear_rumor, refutation, names_local, is_local-eq, Learns,
  Learns-Steady, Learns-trans,
}
use tattle.State.Accepting.{
  accept_alive-Learns, accept_dead-Learns, accept_suspect-Learns, refute-Learns,
}
use tattle.State.Entering.{find_or_create-Finds}

module _ {F : Type 0} where
  pub update_address-Steady :
      (r : ℕ) (host : Option String) (port : ℕ) (s : NodeManager F)
      → Steady s (update_address r host port s)
  unfolding update_address
  update_address-Steady r host port s =
      elim (Bool-cases (option_eq (s.heap r).host host && eqb (s.heap r).port port)) [
        | inl h ↦ rw h (Steady-refl s)
        | inr h ↦
            rw h (write-Steady r (record (s.heap r) { host = host; port = port }) s refl refl refl)
      ]

  module _ (e : Env F) (name : String) (i : ℕ) where
    -- The guards of an alive notification, and what is behind them, for a known node
    judge_alive-Learns :
        (metadata : Option Metadata) (r : ℕ) (s : NodeManager F)
        → Inv s
        → get s.nodes_map name ≡ some r
        → Learns name
            (newer (names_local s name) (view s name) i)
            s
            ((if alive_is_old s r i then pass else accept_alive e r i metadata) s).1
    unfolding alive_is_old
    judge_alive-Learns metadata r s v m =
        let mine = is_local-eq s name r v m in
        elim (Bool-cases (alive_is_old s r i)) [
          | inl h ↦ rw h (Learns-Steady name _ s s v (Steady-refl s) (ground (arith, h, mine, m)))
          | inr h ↦
              let fresh : newer (names_local s name) (view s name) i ≡ some (alive, i) =
                ground (arith, h, mine, m) in
              rw (h, fresh) (accept_alive-Learns e name r i s v m metadata)
        ]

    abbrev alive_rest : Option String → ℕ → Option Metadata → ℕ → Exec (NodeManager F) Unit
    alive_rest host port metadata r = do
      modify (update_address r host port)
      λ s. (if alive_is_old s r i then pass else accept_alive e r i metadata) s

    -- In a well-formed state, an alive notification makes of the knowledge of the named node what
    -- `hear_alive` says: the node becomes alive with the incarnation of the message unless the
    -- message is too old for what is known. It keeps the knowledge of all other nodes and the
    -- well-formedness, whether it returns or raises.
    pub on_node_alive-Learns :
        (host : Option String) (port : ℕ) (metadata : Option Metadata) (s : NodeManager F)
        → Inv s
        → Learns name
            (hear_alive (names_local s name) (view s name) i)
            s
            (on_node_alive e name i host port metadata s).1
    unfolding on_node_alive
    on_node_alive-Learns host port metadata s v =
        let found = find_or_create-Finds e.random name host port s v in
        let r = found.ref in
        let t = (find_or_create e.random name host port s).1 in
        let u = update_address r host port t in
        let addressed = update_address-Steady r host port t in
        let known : view t name ≡ entry (view s name) =
          ground (arith, found.learns.views name, eq_iff name name) in
        let before =
          Learns-trans name _ _ s t u found.learns
            (Learns-Steady name (entry (view s name)) t u found.learns.inv addressed known) in
        let same : view u name ≡ entry (view s name) = view-Steady t u addressed name ∙ known in
        let mine : names_local u name ≡ names_local s name =
          ground (arith, before.local_node_name) in
        let mapped : get u.nodes_map name ≡ some r =
          ap (λ d. get d name) addressed.frame.nodes_map ∙ found.mapped in
        rw
          (bind-ok (find_or_create e.random name host port) (λ q. alive_rest host port metadata q) s
            r found.returns)
          (Learns-trans name _ _ s u _ before
            (rw (same, mine) at (judge_alive-Learns metadata r u before.inv mapped)))

    -- What the abstract view makes of a rumor
    abbrev pub heard : Status → Bool → NodeManager F → Knowledge
    heard rumor may_refute s =
        hear_rumor rumor (refutation may_refute s.local_node_seq.next) (view s name) i

    module _ (s : NodeManager F) (v : Inv s) where
      judge_dead :
          (r : ℕ)
          → get s.nodes_map name ≡ some r
          → Learns name
              (heard dead (names_local s name && not s.leaving) s)
              s
              (on_node_dead e name i s).1
      unfolding on_node_dead
      judge_dead r m =
          let mine = is_local-eq s name r v m in
          rw (m, on_node_dead)
            (elim (Bool-cases (status_eq (s.heap r).status dead)) [
              | inl h ↦ rw h (Learns-Steady name _ s s v (Steady-refl s) (ground (arith, h, m)))
              | inr h ↦ elim (Bool-cases (ltb i (s.heap r).incarnation)) [
                | inl k ↦
                    rw (h, k) (Learns-Steady name _ s s v (Steady-refl s) (ground (arith, h, k, m)))
                | inr k ↦ elim (Bool-cases (is_local s r && not s.leaving)) [
                  | inl l ↦
                      let known : heard dead (names_local s name && not s.leaving) s
                          ≡ some ((s.heap r).status, s.local_node_seq.next) =
                        ground (arith, h, k, l, m, mine) in
                      rw (h, k, l, known) (refute-Learns e name r i s v m (ground (arith, l)))
                  | inr l ↦
                      let known : heard dead (names_local s name && not s.leaving) s
                          ≡ some (dead, i) =
                        ground (arith, h, k, l, m, mine) in
                      rw (h, k, l, known) (accept_dead-Learns e name r i s v m)
                ]
              ]
            ])

      judge_suspect :
          (metadata : Option Metadata) (r : ℕ)
          → get s.nodes_map name ≡ some r
          → Learns name
              (heard suspect (names_local s name) s)
              s
              (on_node_suspect e name i metadata s).1
      unfolding on_node_suspect
      judge_suspect metadata r m =
          let mine = is_local-eq s name r v m in
          rw (m, on_node_suspect)
            (elim (Bool-cases (status_eq (s.heap r).status dead)) [
              | inl h ↦ rw h (Learns-Steady name _ s s v (Steady-refl s) (ground (arith, h, m)))
              | inr h ↦ elim (Bool-cases (ltb i (s.heap r).incarnation)) [
                | inl k ↦
                    rw (h, k) (Learns-Steady name _ s s v (Steady-refl s) (ground (arith, h, k, m)))
                | inr k ↦ elim (Bool-cases (is_local s r)) [
                  | inl l ↦
                      let known : heard suspect (names_local s name) s
                          ≡ some ((s.heap r).status, s.local_node_seq.next) =
                        ground (arith, h, k, l, m, mine) in
                      rw (h, k, l, known) (refute-Learns e name r i s v m l)
                  | inr l ↦
                      let known : heard suspect (names_local s name) s ≡ some (suspect, i) =
                        ground (arith, h, k, l, m, mine) in
                      rw (h, k, l, known) (accept_suspect-Learns e name r i s v m metadata)
                ]
              ]
            ])

      -- In a well-formed state, a dead notification makes of the knowledge of the named node what
      -- `heard` says of a dead rumor: with a refutation if the node is the local one and not
      -- leaving, and a change only if the rumor is not stale. It keeps the knowledge of all other
      -- nodes and the well-formedness, whether it returns or raises.
      pub on_node_dead-Learns :
          Learns name
            (heard dead (names_local s name && not s.leaving) s)
            s
            (on_node_dead e name i s).1
      unfolding on_node_dead
      on_node_dead-Learns = elim (Option-cases (get s.nodes_map name)) [
        | inl h ↦
            rw (h, on_node_dead) (Learns-Steady name _ s s v (Steady-refl s) (ground (arith, h)))
        | inr (r, h) ↦ judge_dead r h
      ]

      -- In a well-formed state, a suspect notification makes of the knowledge of the named node
      -- what `heard` says of a suspect rumor, with a refutation if the node is the local one,
      -- leaving or not. It keeps the knowledge of all other nodes and the well-formedness, whether
      -- it returns or raises.
      pub on_node_suspect-Learns :
          (metadata : Option Metadata)
          → Learns name
              (heard suspect (names_local s name) s)
              s
              (on_node_suspect e name i metadata s).1
      unfolding on_node_suspect
      on_node_suspect-Learns metadata = elim (Option-cases (get s.nodes_map name)) [
        | inl h ↦
            rw (h, on_node_suspect) (Learns-Steady name _ s s v (Steady-refl s) (ground (arith, h)))
        | inr (r, h) ↦ judge_suspect metadata r h
      ]
