-- ===== src/State/Knowledge.antt =====
-- What the manager of tattle/state.py may know of a node, and what a notification makes of it: the
-- abstract view of the handlers.
use tattle.Prelude.{
  ℕ, String, ◌≡◌, ◌∙◌, inl, inr, Bool, true, false, Option, none, some, arith, ltb, leb,
  if◌then◌else◌, ◌==◌, eq_iff, Option-cases,
}
use tattle.Prelude.Dict.{get}
use tattle.State.Node.{Status, alive, dead, NodeManager}
use tattle.State.Manager.{is_local}
use tattle.State.Shape.{Inv, Steady, view, Inv-Steady, view-Steady}

-- Nothing, or a status and an incarnation.
abbrev pub Knowledge : Type 0
Knowledge = Option (Status × ℕ)

-- A node that was unknown is entered as dead, with incarnation 0.
abbrev pub entry : Knowledge → Knowledge
entry none = some (dead, 0)
entry (some k) = some k

abbrev pub newer : Bool → Knowledge → ℕ → Knowledge
newer mine none i = none
newer mine (some (st, j)) i =
    if (if mine then ltb i j else leb i j) then some (st, j) else some (alive, i)

-- An alive notification with the incarnation. Of the local node the same incarnation is news.
abbrev pub hear_alive : Bool → Knowledge → ℕ → Knowledge
hear_alive mine k i = newer mine (entry k) i

-- A dead or suspect notification. `refutation` is the incarnation by which the local node refutes it.
abbrev pub hear_rumor : Status → Option ℕ → Knowledge → ℕ → Knowledge
hear_rumor rumor refutation none i = none
hear_rumor rumor refutation (some (dead, j)) i = some (dead, j)
hear_rumor rumor refutation (some (st, j)) i =
    if ltb i j
    then some (st, j)
    else elim refutation [ none ↦ some (rumor, i) | some fresh ↦ some (st, fresh) ]

-- The incarnation by which the local node refutes a rumor, if it is about it
abbrev pub refutation : Bool → ℕ → Option ℕ
refutation true fresh = some fresh
refutation false fresh = none

module _ {F : Type 0} where
  -- Is the name that of the local node?
  abbrev pub names_local : NodeManager F → String → Bool
  names_local s name = elim s.local_node_name [ none ↦ false | some l ↦ l == name ]

  pub is_local-eq :
      (s : NodeManager F) (name : String) (r : ℕ)
      → Inv s
      → get s.nodes_map name ≡ some r
      → is_local s r ≡ names_local s name
  unfolding is_local
  is_local-eq s name r v e = elim (Option-cases s.local_node_name) [
    | inl h ↦ ground (arith, h)
    | inr (l, h) ↦ elim (Option-cases (get s.nodes_map l)) [
      | inl k ↦ ground (arith, h, k, e, eq_iff l name)
      | inr (q, k) ↦ ground (arith, h, k, e, v.named name r e, v.named l q k, eq_iff l name)
    ]
  ]

  -- After the change the state is well-formed, the knowledge of the name is the given one, and that of
  -- every other name is what it was.
  pub record Learns (name : String) (k : Knowledge) (s t : NodeManager F) : Type 0 where
    pub inv : Inv t
    pub views : (n : String) → view t n ≡ (if name == n then k else view s n)
    pub local_node_name : t.local_node_name ≡ s.local_node_name
    pub leaving : t.leaving ≡ s.leaving

  pub Learns-Steady :
      (name : String) (k : Knowledge) (s t : NodeManager F)
      → Inv s
      → Steady s t
      → view s name ≡ k
      → Learns name k s t
  Learns-Steady name k s t v h e = record {
    inv = Inv-Steady s t h v;
    views = λ n. ground (arith, view-Steady s t h n, e, eq_iff name n);
    local_node_name = h.frame.local_node_name;
    leaving = h.frame.leaving;
  }

  pub Learns-trans :
      (name : String) (j k : Knowledge) (s t u : NodeManager F)
      → Learns name j s t
      → Learns name k t u
      → Learns name k s u
  Learns-trans name j k s t u a b = record {
    inv = b.inv;
    views = λ n. ground (arith, a.views n, b.views n);
    local_node_name = b.local_node_name ∙ a.local_node_name;
    leaving = b.leaving ∙ a.leaving;
  }
