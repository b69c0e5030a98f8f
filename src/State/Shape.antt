-- ===== src/State/Shape.antt =====
-- The well-formed states of the `NodeManager` of tattle/state.py, and the changes that keep them so.
use tattle.Prelude.{
  ℕ, ◌<◌, String, ◌≡◌, refl, sym, ap, ◌∙◌, Bool, false, Option, none, some, arith, eqb,
  if◌then◌else◌, count,
}
use tattle.Prelude.Dict.{get, contains}
use tattle.Queue.Invariant.{IsValid}
use tattle.State.Node.{Status, suspect, status_eq, NodeManager}

module _ {F : Type 0} where
  -- Does the map of the state lead from the name of the node to the node?
  abbrev pub is_mapped : NodeManager F → ℕ → ℕ
  is_mapped s r = elim (get s.nodes_map (s.heap r).name) [
    | none ↦ 0
    | some q ↦ if eqb q r then 1 else 0
  ]

  abbrev pub is_suspect : NodeManager F → String → Bool
  is_suspect s name = elim (get s.nodes_map name) [
    | none ↦ false
    | some r ↦ status_eq (s.heap r).status suspect
  ]

  -- The list holds each mapped node once and no other node; the map leads to nodes of the name; the
  -- names under suspicion are those of the nodes that are suspect; the queue is well-formed.
  pub record Inv (s : NodeManager F) : Type 0 where
    pub listed : (r : ℕ) → count r s.nodes ≡ is_mapped s r
    pub named :
        (name : String) (r : ℕ)
        → get s.nodes_map name ≡ some r
        → ((s.heap r).name ≡ name) × (r < s.next)
    pub suspected : (name : String) → contains s.suspect_nodes name ≡ is_suspect s name
    pub queued : IsValid s.queue

  -- The nodes and their names stay as they were.
  pub record Frame (s t : NodeManager F) : Type 0 where
    pub nodes : t.nodes ≡ s.nodes
    pub nodes_map : t.nodes_map ≡ s.nodes_map
    pub next : t.next ≡ s.next
    pub local_node_name : t.local_node_name ≡ s.local_node_name
    pub leaving : t.leaving ≡ s.leaving
    pub tasks : t.tasks ≡ s.tasks
    pub names : (r : ℕ) → (t.heap r).name ≡ (s.heap r).name

  -- So do what is known of each node and the suspicions; metadata, queue and events may change.
  pub record Steady (s t : NodeManager F) : Type 0 where
    pub frame : Frame s t
    pub statuses : (r : ℕ) → (t.heap r).status ≡ (s.heap r).status
    pub incarnations : (r : ℕ) → (t.heap r).incarnation ≡ (s.heap r).incarnation
    pub suspect_nodes : t.suspect_nodes ≡ s.suspect_nodes
    pub scheduled : t.scheduled ≡ s.scheduled
    pub queued : IsValid s.queue → IsValid t.queue

  pub Frame-refl : (s : NodeManager F) → Frame s s
  Frame-refl s = record {
    nodes = refl;
    nodes_map = refl;
    next = refl;
    local_node_name = refl;
    leaving = refl;
    tasks = refl;
    names = λ r. refl;
  }

  pub Frame-trans : (s t u : NodeManager F) → Frame s t → Frame t u → Frame s u
  Frame-trans s t u h k = record {
    nodes = k.nodes ∙ h.nodes;
    nodes_map = k.nodes_map ∙ h.nodes_map;
    next = k.next ∙ h.next;
    local_node_name = k.local_node_name ∙ h.local_node_name;
    leaving = k.leaving ∙ h.leaving;
    tasks = k.tasks ∙ h.tasks;
    names = λ r. k.names r ∙ h.names r;
  }

  pub Steady-refl : (s : NodeManager F) → Steady s s
  Steady-refl s = record {
    frame = Frame-refl s;
    statuses = λ r. refl;
    incarnations = λ r. refl;
    suspect_nodes = refl;
    scheduled = refl;
    queued = λ v. v;
  }

  pub Steady-trans : (s t u : NodeManager F) → Steady s t → Steady t u → Steady s u
  Steady-trans s t u h k = record {
    frame = Frame-trans s t u h.frame k.frame;
    statuses = λ r. k.statuses r ∙ h.statuses r;
    incarnations = λ r. k.incarnations r ∙ h.incarnations r;
    suspect_nodes = k.suspect_nodes ∙ h.suspect_nodes;
    scheduled = k.scheduled ∙ h.scheduled;
    queued = λ v. k.queued (h.queued v);
  }

  listed-Frame :
      (s t : NodeManager F) → Frame s t → Inv s → (r : ℕ) → count r t.nodes ≡ is_mapped t r
  listed-Frame s t f v r = ground (arith, f.nodes, f.nodes_map, f.names r, v.listed r)

  named-Frame :
      (s t : NodeManager F)
      → Frame s t
      → Inv s
      → (name : String) (r : ℕ) → get t.nodes_map name ≡ some r
      → ((t.heap r).name ≡ name) × (r < t.next)
  named-Frame s t f v name r e =
      let (n, l) = v.named name r (ap (λ m. get m name) (sym f.nodes_map) ∙ e) in
      (f.names r ∙ n, omega (arith, f.next))

  -- A change that keeps the nodes keeps the state well-formed, if the suspicions and the queue are
  -- right after it.
  pub Inv-Frame :
      (s t : NodeManager F)
      → Frame s t
      → ((name : String) → contains t.suspect_nodes name ≡ is_suspect t name)
      → IsValid t.queue
      → Inv s
      → Inv t
  Inv-Frame s t f suspected queued v = record {
    listed = listed-Frame s t f v;
    named = named-Frame s t f v;
    suspected = suspected;
    queued = queued;
  }

  is_suspect-Frame :
      (s t : NodeManager F)
      → Frame s t
      → ((r : ℕ) → (t.heap r).status ≡ (s.heap r).status)
      → (name : String) → is_suspect t name ≡ is_suspect s name
  is_suspect-Frame s t f same name = rw f.nodes_map (cases (get s.nodes_map name))
    where
      cases :
          (o : Option ℕ)
          → ◌≡◌ {A = Bool}
              (elim o [ none ↦ false | some r ↦ status_eq (t.heap r).status suspect ])
              (elim o [ none ↦ false | some r ↦ status_eq (s.heap r).status suspect ])
      cases none = refl
      cases (some r) = ap (λ st. status_eq st suspect) (same r)

  pub Inv-Steady : (s t : NodeManager F) → Steady s t → Inv s → Inv t
  Inv-Steady s t k v =
      Inv-Frame s t k.frame
        (λ name.
          ap (λ d. contains d name) k.suspect_nodes
          ∙ v.suspected name
          ∙ sym (is_suspect-Frame s t k.frame k.statuses name))
        (k.queued v.queued) v

  -- What the manager knows of a name: nothing, or a status and an incarnation.
  abbrev pub view : NodeManager F → String → Option (Status × ℕ)
  view s name = elim (get s.nodes_map name) [
    | none ↦ none
    | some r ↦ some ((s.heap r).status, (s.heap r).incarnation)
  ]

  pub view-Steady : (s t : NodeManager F) → Steady s t → (name : String) → view t name ≡ view s name
  view-Steady s t k name = rw k.frame.nodes_map (cases (get s.nodes_map name))
    where
      cases :
          (o : Option ℕ)
          → ◌≡◌ {A = Option (Status × ℕ)}
              (elim o [ none ↦ none | some r ↦ some ((t.heap r).status, (t.heap r).incarnation) ])
              (elim o [ none ↦ none | some r ↦ some ((s.heap r).status, (s.heap r).incarnation) ])
      cases none = refl
      cases (some r) = rw (k.statuses r, k.incarnations r)
