-- ===== src/State/Rumors.antt =====
-- The order of knowledge, in which the notifications of tattle/state.py take nothing back.
use tattle.Prelude.{
  ℕ, ◌≤◌, ◌<◌, String, ◌≡◌, refl, ◌⊎◌, inl, inr, false, Option, none, some, arith, ltb, leb, ◌==◌,
  eq_iff, Bool-cases,
}
use tattle.Messages.{Metadata}
use tattle.State.Node.{Status, alive, suspect, dead, NodeManager, Env}
use tattle.State.Handlers.{on_node_alive, on_node_dead, on_node_suspect}
use tattle.State.Shape.{Inv, view}
use tattle.State.Knowledge.{Knowledge, Learns, hear_alive, hear_rumor, names_local}
use tattle.State.Refinement.{on_node_alive-Learns, on_node_dead-Learns, on_node_suspect-Learns}

abbrev pub rank : Status → ℕ
rank alive = 0
rank suspect = 1
rank dead = 2

-- More is known under a higher incarnation, or under the same one with a worse status.
abbrev pub Older : Knowledge → Knowledge → Type 0
Older none k = Unit
Older (some k) none = ⊥
Older (some (st, i)) (some (st', j)) = (i < j) ⊎ ((i ≡ j) × (rank st ≤ rank st'))

pub Older-refl : (k : Knowledge) → Older k k
Older-refl none = tt
Older-refl (some (st, i)) = inr (refl, omega arith)

pub Older-trans : (j k l : Knowledge) → Older j k → Older k l → Older j l
Older-trans none k l p q = tt
Older-trans (some j) none l p q = elim p [ ]
Older-trans (some j) (some k) none p q = elim q [ ]
Older-trans (some (a, i)) (some (b, j)) (some (c, k)) p q = ground (arith, p, q)

pub hear_alive-Older : (i : ℕ) (k : Knowledge) → Older k (hear_alive false k i)
hear_alive-Older i none = tt
hear_alive-Older i (some (st, j)) = elim (Bool-cases (leb i j)) [
  | inl h ↦ rw h (Older-refl (some (st, j)))
  | inr h ↦ rw h (inl (ground (arith, h)))
]

-- A rumor that is not refuted
pub hear_rumor-Older :
    (rumor : Status) (i : ℕ)
    → 1 ≤ rank rumor
    → (k : Knowledge) → Older k (hear_rumor rumor none k i)
hear_rumor-Older rumor i h none = tt
hear_rumor-Older rumor i h (some (dead, j)) = Older-refl (some (dead, j))
hear_rumor-Older rumor i h (some (alive, j)) = elim (Bool-cases (ltb i j)) [
  | inl p ↦ rw p (Older-refl (some (alive, j)))
  | inr p ↦ rw p (ground (arith, p))
]
hear_rumor-Older rumor i h (some (suspect, j)) = elim (Bool-cases (ltb i j)) [
  | inl p ↦ rw p (Older-refl (some (suspect, j)))
  | inr p ↦ rw p (ground (arith, p))
]

-- The name is not the local one after the change either.
still_remote :
    {F : Type 0} (name : String) (k : Knowledge) (s t : NodeManager F)
    → Learns name k s t
    → names_local s name ≡ false
    → names_local t name ≡ false
still_remote name k s t l h = ground (arith, l.local_node_name, h)

module _ {F : Type 0} (e : Env F) (name : String) (i : ℕ) (s : NodeManager F) where
  pub Older-Learns :
      (k : Knowledge) (t : NodeManager F)
      → Learns name k s t
      → Older (view s name) k
      → (n : String) → Older (view s n) (view t n)
  Older-Learns k t l o n = elim (Bool-cases (name == n)) [
    | inl h ↦
        let same : name ≡ n = (eq_iff name n).0 h in
        let learned : view t n ≡ k = ground (arith, l.views n, h) in rw (learned, ← same) o
    | inr h ↦
        let kept : view t n ≡ view s n = ground (arith, l.views n, h) in
        rw kept (Older-refl (view s n))
  ]

  -- In a well-formed state, alive, dead and suspect notifications of a node that is not the local
  -- one, returning or raising, take back nothing that was known of any node: its knowledge grows
  -- or stays.
  pub notify-Older :
      (host : Option String) (port : ℕ) (metadata : Option Metadata)
      → Inv s
      → names_local s name ≡ false
      → (n : String)
      → Older (view s n) (view (on_node_alive e name i host port metadata s).1 n)
        × Older (view s n) (view (on_node_dead e name i s).1 n)
        × Older (view s n) (view (on_node_suspect e name i metadata s).1 n)
  notify-Older host port metadata v remote n = (
    Older-Learns _ _ (on_node_alive-Learns e name i host port metadata s v)
        (rw remote (hear_alive-Older i (view s name))) n,
    Older-Learns _ _ (on_node_dead-Learns e name i s v)
        (rw remote (hear_rumor-Older dead i (omega arith) (view s name))) n,
    Older-Learns _ _ (on_node_suspect-Learns e name i s v metadata)
        (rw remote (hear_rumor-Older suspect i (omega arith) (view s name))) n,
  )
