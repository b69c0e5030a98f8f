-- ===== src/State/Runs.antt =====
-- Histories of the `NodeManager` of tattle/state.py: after the local node is set, any notifications,
-- forgets, timers and fetches of gossip, each with an environment of its own.
use tattle.Prelude.{
  ℕ, String, ◌≡◌, refl, ◌∙◌, inl, inr, true, false, not, Option, some, List, [], ◌∷◌, arith, ◌++◌,
  if◌then◌else◌, ltb, eqb, filter, Bool-cases, ◌==◌, eq_iff,
}
use tattle.Prelude.Dict.{get, contains}
use tattle.Prelude.Int.{ℤ}
use tattle.Messages.{Metadata}
use tattle.Queue
use tattle.Queue.{BroadcastQueue}
use tattle.Queue.Invariant.{IsValid, fetch-IsValid}
use tattle.State.Node.{alive, Timer, NodeManager, Env}
use tattle.State.Handlers.{
  node_manager, on_node_alive, on_node_dead, on_node_suspect, set_local_node, forget_node,
  run_timer, handle_suspect_timer,
}
use tattle.State.Shape.{Inv, view}
use tattle.State.Knowledge.{Knowledge, Learns, names_local}
use tattle.State.Refinement.{on_node_alive-Learns, on_node_dead-Learns, on_node_suspect-Learns}
use tattle.State.Forgetting.{forget_node-Learns}

pub data Call (F : Type 0) : Type 0 where
  alive_call : String → ℕ → Option String → ℕ → Option Metadata → Call F
  dead_call : String → ℕ → Call F
  suspect_call : String → ℕ → Option Metadata → Call F
  forget_call : String → Call F
  timer_call : Timer F → Call F
  task_call : Call F
  fetch_call : ℕ → ℤ → ℕ → Call F

module _ {F : Type 0} where
  -- The state after the call, whether it returned or raised
  unfoldable pub step : Env F → Call F → NodeManager F → NodeManager F
  step e (alive_call name i host port metadata) s = (on_node_alive e name i host port metadata s).1
  step e (dead_call name i) s = (on_node_dead e name i s).1
  step e (suspect_call name i metadata) s = (on_node_suspect e name i metadata s).1
  step e (forget_call name) s = (forget_node e name s).1
  step e (timer_call timer) s = run_timer timer s
  step e task_call s = (handle_suspect_timer e s).1
  step e (fetch_call m b n) s = record s { queue = (Queue.fetch m b n s.queue).1 }

  unfoldable pub run : List (Env F × Call F) → NodeManager F → NodeManager F
  unfolding step
  run [] s = s
  run ((e, c) ∷ calls) s = run calls (step e c s)

  -- Well-formed and not leaving, with a local node of the name, which is alive
  pub record IsSafe (me : String) (s : NodeManager F) : Type 0 where
    pub inv : Inv s
    pub staying : s.leaving ≡ false
    pub local_name : s.local_node_name ≡ some me
    pub incarnation : ℕ
    pub local_alive : view s me ≡ some (alive, incarnation)

  pub IsSafe-Learns :
      (me name : String) (k : Knowledge) (i : ℕ) (s t : NodeManager F)
      → IsSafe me s
      → Learns name k s t
      → (names_local s name ≡ true → k ≡ some (alive, i))
      → IsSafe me t
  IsSafe-Learns me name k i s t v l keeps = record {
    inv = l.inv;
    staying = l.leaving ∙ v.staying;
    local_name = l.local_node_name ∙ v.local_name;
    incarnation = if name == me then i else v.incarnation;
    local_alive = elim (Bool-cases (name == me)) [
      | inl e ↦
          let p = keeps (ground (arith, v.local_name, e, eq_iff name me, eq_iff me name)) in
          ground (arith, l.views me, e, p)
      | inr e ↦ ground (arith, l.views me, e, v.local_alive)
    ];
  }

  module _ (e : Env F) (me : String) (s : NodeManager F) (v : IsSafe me s) where
    pub known_as :
        (name : String) → names_local s name ≡ true → view s name ≡ some (alive, v.incarnation)
    known_as name h = ground (arith, h, v.local_name, eq_iff me name, v.local_alive)

    -- The incarnation that the local node has after a rumor about it
    abbrev answer : ℕ → ℕ
    answer i = if ltb i v.incarnation then v.incarnation else s.local_node_seq.next

    pub alive_call-IsSafe :
        (name : String) (i : ℕ) (host : Option String) (port : ℕ) (metadata : Option Metadata)
        → IsSafe me (on_node_alive e name i host port metadata s).1
    alive_call-IsSafe name i host port metadata =
        IsSafe-Learns me name _ (if ltb i v.incarnation then v.incarnation else i) s _ v
          (on_node_alive-Learns e name i host port metadata s v.inv)
          (λ h. ground (arith, h, known_as name h))

    pub dead_call-IsSafe : (name : String) (i : ℕ) → IsSafe me (on_node_dead e name i s).1
    dead_call-IsSafe name i =
        IsSafe-Learns me name _ (answer i) s _ v (on_node_dead-Learns e name i s v.inv)
          (λ h. ground (arith, h, known_as name h, v.staying))

    pub suspect_call-IsSafe :
        (name : String) (i : ℕ) (metadata : Option Metadata)
        → IsSafe me (on_node_suspect e name i metadata s).1
    suspect_call-IsSafe name i metadata =
        IsSafe-Learns me name _ (answer i) s _ v (on_node_suspect-Learns e name i s v.inv metadata)
          (λ h. ground (arith, h, known_as name h))

    pub forget_call-IsSafe : (name : String) → IsSafe me (forget_node e name s).1
    forget_call-IsSafe name =
        IsSafe-Learns me name _ v.incarnation s _ v (forget_node-Learns e name s v.inv)
          (λ h. ground (arith, known_as name h))

  -- Other timers, tasks and queue
  pub IsSafe-rest :
      (me : String) (s : NodeManager F) (scheduled : List (Timer F)) (tasks : List ℕ)
      (queue : BroadcastQueue)
      → (IsValid s.queue → IsValid queue)
      → IsSafe me s
      → IsSafe me (record s { scheduled = scheduled; tasks = tasks; queue = queue })
  IsSafe-rest me s scheduled tasks queue h v = record {
    inv = record {
      listed = v.inv.listed;
      named = v.inv.named;
      suspected = v.inv.suspected;
      queued = h v.inv.queued;
    };
    staying = v.staying;
    local_name = v.local_name;
    incarnation = v.incarnation;
    local_alive = v.local_alive;
  }

  pub task_call-IsSafe :
      (e : Env F) (me : String) (s : NodeManager F)
      → IsSafe me s
      → IsSafe me (handle_suspect_timer e s).1
  unfolding handle_suspect_timer
  task_call-IsSafe e me s v = cases s.tasks refl
    where
      cases : (ts : List ℕ) → s.tasks ≡ ts → IsSafe me (handle_suspect_timer e s).1
      cases [] h = rw (h, handle_suspect_timer) v
      cases (r ∷ ts) h =
          let s' = record s { tasks = ts } in
          rw (h, handle_suspect_timer)
            (dead_call-IsSafe e me s' (IsSafe-rest me s s.scheduled ts s.queue (λ q. q) v)
              (s.heap r).name (s.heap r).incarnation)

  step-IsSafe :
      (e : Env F) (c : Call F) (me : String) (s : NodeManager F)
      → IsSafe me s
      → IsSafe me (step e c s)
  unfolding step run_timer
  step-IsSafe e (alive_call name i host port metadata) me s v =
      alive_call-IsSafe e me s v name i host port metadata
  step-IsSafe e (dead_call name i) me s v = dead_call-IsSafe e me s v name i
  step-IsSafe e (suspect_call name i metadata) me s v = suspect_call-IsSafe e me s v name i metadata
  step-IsSafe e (forget_call name) me s v = forget_call-IsSafe e me s v name
  step-IsSafe e (timer_call timer) me s v =
      IsSafe-rest me s (filter (λ (t : Timer F). not (eqb t.id timer.id)) s.scheduled)
        (s.tasks ++ timer.node ∷ []) s.queue (λ q. q) v
  step-IsSafe e task_call me s v = task_call-IsSafe e me s v
  step-IsSafe e (fetch_call m b n) me s v =
      IsSafe-rest me s s.scheduled s.tasks (Queue.fetch m b n s.queue).1
        (fetch-IsValid m b n s.queue) v

  pub run-IsSafe :
      (calls : List (Env F × Call F)) (me : String) (s : NodeManager F)
      → IsSafe me s
      → IsSafe me (run calls s)
  unfolding run
  run-IsSafe [] me s v = v
  run-IsSafe ((e, c) ∷ calls) me s v = run-IsSafe calls me (step e c s) (step-IsSafe e c me s v)

  Inv-node_manager : (max_size : ℕ) → Inv (node_manager {F = F} (Queue.empty max_size))
  unfolding node_manager get contains
  Inv-node_manager max_size = record {
    listed = λ r. refl;
    named = λ name r h. cc;
    suspected = λ name. refl;
    queued = record { sorted = tt; unique = λ node. omega arith };
  }

  -- The manager after `set_local_node` on a new manager
  abbrev pub started : Env F → ℕ → String → Option String → ℕ → Option Metadata → NodeManager F
  started e max_size name host port metadata =
      (set_local_node e name host port metadata (node_manager (Queue.empty max_size))).1

  module _ (e : Env F) (max_size : ℕ) (name : String) (host : Option String) (port : ℕ)
      (metadata : Option Metadata) where
    abbrev pub named_manager : NodeManager F
    named_manager = record (node_manager (Queue.empty max_size)) {
      local_node_name = some name;
      local_node_seq = record { next = 2; step = 1 };
    }

    pub named_manager-Inv : Inv named_manager
    unfolding node_manager
    named_manager-Inv =
        let v = Inv-node_manager max_size in
        record { listed = v.listed; named = v.named; suspected = v.suspected; queued = v.queued }

    pub started-IsSafe : IsSafe name (started e max_size name host port metadata)
    unfolding set_local_node node_manager
    started-IsSafe =
        let l = on_node_alive-Learns e name 1 host port metadata named_manager named_manager-Inv in
        record {
          inv = l.inv;
          staying = l.leaving;
          local_name = l.local_node_name;
          incarnation = 1;
          local_alive = ground (arith, l.views name, eq_iff name name);
        }

    -- After the start of the local node and any notifications, forgets, timers and fetches, whether
    -- they return or raise, the manager is well-formed and not leaving, it keeps the name of the local
    -- node, and it knows the local node as alive.
    pub run-started-IsSafe :
        (calls : List (Env F × Call F))
        → IsSafe name (run calls (started e max_size name host port metadata))
    run-started-IsSafe calls =
        run-IsSafe calls name (started e max_size name host port metadata) started-IsSafe
