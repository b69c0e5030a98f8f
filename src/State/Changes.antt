-- ===== src/State/Changes.antt =====
-- The accepted part of the handlers of tattle/state.py: one node gets a new status and incarnation.
use tattle.Prelude.{
  ℕ, String, ◌≡◌, refl, inl, inr, true, false, Option, none, some, arith, eqb, if◌then◌else◌, ◌==◌,
  eq_iff, Option-cases,
}
use tattle.Prelude.Dict.{get, contains, get-put, get-remove}
use tattle.Exec.{ok}
use tattle.State.Node.{Status, suspect, status_eq, NodeManager, Env}
use tattle.State.Manager.{set_status, suspect_node}
use tattle.State.Handlers.{settle, raise_suspicion}
use tattle.State.Shape.{Inv, Frame, is_suspect, view, Inv-Frame}

module _ {F : Type 0} where
  -- The node has the status and the incarnation, and the others have what they had.
  pub record Changed (r : ℕ) (status : Status) (incarnation : ℕ) (s t : NodeManager F)
      : Type 0 where
    pub frame : Frame s t
    pub statuses : (q : ℕ) → (t.heap q).status ≡ (if eqb q r then status else (s.heap q).status)
    pub incarnations :
        (q : ℕ) → (t.heap q).incarnation ≡ (if eqb q r then incarnation else (s.heap q).incarnation)
    pub queue : t.queue ≡ s.queue

  module _ (name : String) (r : ℕ) (status : Status) (incarnation : ℕ) (s t : NodeManager F) where
    -- The node of another name is another node.
    other_node :
        Inv s
        → get s.nodes_map name ≡ some r
        → (n : String) (q : ℕ) → get s.nodes_map n ≡ some q
        → eqb q r ≡ (name == n)
    other_node v e n q h = ground (arith, v.named name r e, v.named n q h, eq_iff name n)

    pub view-Changed :
        Changed r status incarnation s t
        → Inv s
        → get s.nodes_map name ≡ some r
        → (n : String) → view t n ≡ (if name == n then some (status, incarnation) else view s n)
    view-Changed c v e n = elim (Option-cases (get s.nodes_map n)) [
      | inl h ↦ ground (arith, h, c.frame.nodes_map, eq_iff name n)
      | inr (q, h) ↦
          ground (arith, h, c.frame.nodes_map, c.statuses q, c.incarnations q, other_node v e n q h)
    ]

    pub Inv-Changed :
        Changed r status incarnation s t
        → Inv s
        → get s.nodes_map name ≡ some r
        → ((n : String)
            → contains t.suspect_nodes n
              ≡ (if name == n then status_eq status suspect else contains s.suspect_nodes n))
        → Inv t
    Inv-Changed c v e sus =
        Inv-Frame s t c.frame (λ n. suspected n (get s.nodes_map n) refl)
          (ground (arith, c.queue, v.queued)) v
      where
        suspected :
            (n : String) (o : Option ℕ)
            → get s.nodes_map n ≡ o
            → contains t.suspect_nodes n ≡ is_suspect t n
        suspected n none h =
            ground (arith, h, e, c.frame.nodes_map, sus n, v.suspected n, eq_iff name n)
        suspected n (some q) h =
            ground (
              arith,
              h,
              c.frame.nodes_map,
              sus n,
              v.suspected n,
              c.statuses q,
              other_node v e n q h,
            )

  -- The node that is mapped under the name, in a well-formed state
  module _ (now : ℕ) (name : String) (r : ℕ) (status : Status) (incarnation : ℕ) (s : NodeManager F)
      (v : Inv s) (e : get s.nodes_map name ≡ some r) where
    has_suspicion : contains s.suspect_nodes (s.heap r).name ≡ status_eq (s.heap r).status suspect
    has_suspicion = ground (arith, v.named name r e, v.suspected name, e)

    -- No suspicion is missing where one is to be cancelled.
    pub settle-ok : (settle now r status incarnation s).0 ≡ ok (s.heap r).status
    unfolding settle contains
    settle-ok = ground (arith, has_suspicion)

    pub settle-Changed : Changed r status incarnation s (settle now r status incarnation s).1
    unfolding settle contains
    settle-Changed = record {
      frame = record {
        nodes = ground (arith, has_suspicion);
        nodes_map = ground (arith, has_suspicion);
        next = ground (arith, has_suspicion);
        local_node_name = ground (arith, has_suspicion);
        leaving = ground (arith, has_suspicion);
        tasks = ground (arith, has_suspicion);
        names = λ q. ground (arith, has_suspicion);
      };
      statuses = λ q. ground (arith, has_suspicion);
      incarnations = λ q. ground (arith, has_suspicion);
      queue = ground (arith, has_suspicion);
    }

    pub contains-settle :
        (n : String)
        → contains (settle now r status incarnation s).1.suspect_nodes n
          ≡ (if name == n then false else contains s.suspect_nodes n)
    unfolding settle contains
    contains-settle n = ground (
      arith,
      has_suspicion,
      v.named name r e,
      get-remove s.suspect_nodes (s.heap r).name n,
      eq_iff name n,
    )

  module _ (e : Env F) (r : ℕ) (incarnation : ℕ) (s : NodeManager F) where
    pub raise_suspicion-Changed :
        Changed r suspect incarnation s (raise_suspicion e r incarnation s).1
    unfolding raise_suspicion
    raise_suspicion-Changed = record {
      frame = record {
        nodes = ground arith;
        nodes_map = ground arith;
        next = ground arith;
        local_node_name = ground arith;
        leaving = ground arith;
        tasks = ground arith;
        names = λ q. ground arith;
      };
      statuses = λ q. ground arith;
      incarnations = λ q. ground arith;
      queue = ground arith;
    }

    pub contains-raise_suspicion :
        (n : String)
        → contains (raise_suspicion e r incarnation s).1.suspect_nodes n
          ≡ (if (s.heap r).name == n then true else contains s.suspect_nodes n)
    unfolding raise_suspicion contains
    contains-raise_suspicion n =
        let s' = set_status e.now r suspect incarnation s in
        ground (
          arith,
          get-put s.suspect_nodes (s.heap r).name n (suspect_node e s'),
          eq_iff (s.heap r).name n,
        )
