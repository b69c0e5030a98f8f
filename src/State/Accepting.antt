-- ===== src/State/Accepting.antt =====
-- The parts of the handlers of tattle/state.py behind their guards, for a node that is known.
use tattle.Prelude.{
  ℕ, String, ◌≡◌, refl, true, false, Option, none, some, arith, if◌then◌else◌, ◌==◌, eq_iff,
}
use tattle.Prelude.Dict.{get, contains}
use tattle.Exec.Does.{bind-ok}
use tattle.Sequence.{increment}
use tattle.Messages.{Metadata}
use tattle.State.Node.{Status, alive, suspect, dead, status_eq, NodeManager, Env}
use tattle.State.Manager.{write, local_ref, is_local, broadcast_alive}
use tattle.State.Handlers.{
  settle, raise_suspicion, accept_alive, accept_dead, accept_suspect, refute,
}
use tattle.State.Shape.{Inv, Steady}
use tattle.State.Tails.{
  alive_tail, dead_tail, suspect_tail, alive_tail-Steady, dead_tail-Steady, suspect_tail-Steady,
  broadcast_alive-Steady,
}
use tattle.State.Changes.{
  Changed, view-Changed, Inv-Changed, settle-ok, settle-Changed, contains-settle,
  raise_suspicion-Changed, contains-raise_suspicion,
}
use tattle.State.Knowledge.{Learns, Learns-Steady, Learns-trans}

module _ {F : Type 0} where
  Learns-Changed :
      (name : String) (r : ℕ) (st : Status) (i : ℕ) (s t : NodeManager F)
      → Inv s
      → get s.nodes_map name ≡ some r
      → Changed r st i s t
      → ((n : String)
          → contains t.suspect_nodes n
            ≡ (if name == n then status_eq st suspect else contains s.suspect_nodes n))
      → Learns name (some (st, i)) s t
  Learns-Changed name r st i s t v e c sus = record {
    inv = Inv-Changed name r st i s t c v e sus;
    views = view-Changed name r st i s t c v e;
    local_node_name = c.frame.local_node_name;
    leaving = c.frame.leaving;
  }

  -- First the change, then a tail that changes nothing of the knowledge.
  Learns-tail :
      (name : String) (r : ℕ) (st : Status) (i : ℕ) (s t u : NodeManager F)
      → Learns name (some (st, i)) s t
      → Steady t u
      → Learns name (some (st, i)) s u
  Learns-tail name r st i s t u a h = Learns-trans name (some (st, i)) (some (st, i)) s t u a (
      Learns-Steady name (some (st, i)) t u a.inv h
        (ground (arith, a.views name, eq_iff name name)))

  module _ (e : Env F) (name : String) (r : ℕ) (i : ℕ) (s : NodeManager F) (v : Inv s)
      (m : get s.nodes_map name ≡ some r) where
    settle-Learns :
        (st : Status)
        → status_eq st suspect ≡ false
        → Learns name (some (st, i)) s (settle e.now r st i s).1
    settle-Learns st h =
        Learns-Changed name r st i s (settle e.now r st i s).1 v m
          (settle-Changed e.now name r st i s v m)
          (λ n. ground (arith, contains-settle e.now name r st i s v m n))

    pub accept_alive-Learns :
        (metadata : Option Metadata)
        → Learns name (some (alive, i)) s (accept_alive e r i metadata s).1
    unfolding accept_alive
    accept_alive-Learns metadata =
        let t = (settle e.now r alive i s).1 in
        let old = (s.heap r).status in
        rw
          (bind-ok (settle e.now r alive i) (λ o. alive_tail e o r metadata) s old
            (settle-ok e.now name r alive i s v m))
          (Learns-tail name r alive i s t (alive_tail e old r metadata t).1
            (settle-Learns alive refl) ((alive_tail-Steady e old r metadata).at t))

    pub accept_dead-Learns : Learns name (some (dead, i)) s (accept_dead e r i s).1
    unfolding accept_dead
    accept_dead-Learns =
        let t = (settle e.now r dead i s).1 in
        let old = (s.heap r).status in
        rw
          (bind-ok (settle e.now r dead i) (λ o. dead_tail e o r) s old
            (settle-ok e.now name r dead i s v m))
          (Learns-tail name r dead i s t (dead_tail e old r t).1 (settle-Learns dead refl)
            ((dead_tail-Steady e old r).at t))

    raise_suspicion-Learns : Learns name (some (suspect, i)) s (raise_suspicion e r i s).1
    raise_suspicion-Learns =
        Learns-Changed name r suspect i s (raise_suspicion e r i s).1 v m
          (raise_suspicion-Changed e r i s)
          (λ n. ground (arith, contains-raise_suspicion e r i s n, v.named name r m))

    pub accept_suspect-Learns :
        (metadata : Option Metadata)
        → Learns name (some (suspect, i)) s (accept_suspect e r i metadata s).1
    unfolding accept_suspect
    accept_suspect-Learns metadata =
        let t = (raise_suspicion e r i s).1 in
        let old = (s.heap r).status in
        Learns-tail name r suspect i s t (suspect_tail e old r metadata t).1 raise_suspicion-Learns
          ((suspect_tail-Steady e old r metadata).at t)

    -- The local node refutes: it takes the next number of its sequence for its incarnation.
    pub refute-Learns :
        is_local s r ≡ true
        → Learns name (some ((s.heap r).status, s.local_node_seq.next)) s (refute e s).1
    unfolding refute is_local
    refute-Learns h = cases (local_ref s) refl
      where
        t : NodeManager F
        t = record s { local_node_seq = (increment s.local_node_seq).1 }

        u : NodeManager F
        u = write r (record (s.heap r) { incarnation = s.local_node_seq.next }) t

        changed : Changed r (s.heap r).status s.local_node_seq.next s u
        changed = record {
          frame = record {
            nodes = refl;
            nodes_map = refl;
            next = refl;
            local_node_name = refl;
            leaving = refl;
            tasks = refl;
            names = λ q. ground arith;
          };
          statuses = λ q. ground arith;
          incarnations = λ q. ground arith;
          queue = refl;
        }

        learns : Learns name (some ((s.heap r).status, s.local_node_seq.next)) s u
        learns =
            Learns-Changed name r (s.heap r).status s.local_node_seq.next s u v m changed
              (λ n. ground (arith, v.suspected name, m, eq_iff name n))

        cases :
            (o : Option ℕ)
            → local_ref s ≡ o
            → Learns name (some ((s.heap r).status, s.local_node_seq.next)) s (refute e s).1
        cases none k = absurd (ground (arith, h, k))
        cases (some l) k =
            let same : l ≡ r = ground (arith, h, k) in
            rw (k, refute)
              (rw same (
                Learns-tail name r (s.heap r).status s.local_node_seq.next s u
                  (broadcast_alive e r u).1 learns ((broadcast_alive-Steady e r).at u)))
