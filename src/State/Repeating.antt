-- ===== src/State/Repeating.antt =====
-- What the handlers of tattle/state.py do with a notification that they have had before: messages that go
-- from node to node would never end if each was told again.
use tattle.Prelude.{
  ℕ, String, ◌≡◌, refl, ap, ◌∙◌, Bool, true, false, Option, none, some, arith, ltb, leb,
  Option-cases, inl, inr, eq_iff,
}
use tattle.Prelude.Dict.{get}
use tattle.Exec.{ok}
use tattle.Messages.{Metadata}
use tattle.State.Node.{Status, alive, suspect, dead, NodeManager, Env}
use tattle.State.Manager.{is_local}
use tattle.State.Handlers.{
  on_node_alive, on_node_dead, find_or_create, update_address, alive_is_old,
}
use tattle.State.Shape.{Inv, view}
use tattle.State.Knowledge.{Knowledge, names_local, hear_alive, hear_rumor, is_local-eq}
use tattle.State.Refinement.{on_node_alive-Learns, on_node_dead-Learns}

-- Is a death with the incarnation no news?
abbrev heard_dead : Knowledge → ℕ → Bool
heard_dead none i = true
heard_dead (some (dead, j)) i = true
heard_dead (some (alive, j)) i = ltb i j
heard_dead (some (suspect, j)) i = ltb i j

heard_dead-hear_rumor : (k : Knowledge) (i : ℕ) → heard_dead (hear_rumor dead none k i) i ≡ true
heard_dead-hear_rumor none i = refl
heard_dead-hear_rumor (some (dead, j)) i = refl
heard_dead-hear_rumor (some (alive, j)) i = ground arith
heard_dead-hear_rumor (some (suspect, j)) i = ground arith

-- Is an alive notification of a remote node with the incarnation no news?
abbrev heard_alive : Knowledge → ℕ → Bool
heard_alive none i = false
heard_alive (some (st, j)) i = leb i j

heard_alive-hear_alive : (k : Knowledge) (i : ℕ) → heard_alive (hear_alive false k i) i ≡ true
heard_alive-hear_alive none i = ground arith
heard_alive-hear_alive (some (st, j)) i = ground arith

module _ {F : Type 0} (e : Env F) (name : String) (i : ℕ) where
  dead_heard :
      (s : NodeManager F) → heard_dead (view s name) i ≡ true → on_node_dead e name i s ≡ (ok tt, s)
  unfolding on_node_dead
  dead_heard s h = elim (Option-cases (get s.nodes_map name)) [
    | inl m ↦ rw (on_node_dead, m) refl
    | inr (r, m) ↦ cases r m (s.heap r).status refl
  ]
    where
      cases :
          (r : ℕ)
          → get s.nodes_map name ≡ some r
          → (st : Status) → (s.heap r).status ≡ st
          → on_node_dead e name i s ≡ (ok tt, s)
      cases r m dead st = rw (on_node_dead, m, st) refl
      cases r m alive st =
          let old : ltb i (s.heap r).incarnation ≡ true = ground (arith, m, st, h) in
          rw (on_node_dead, m, st, old) refl
      cases r m suspect st =
          let old : ltb i (s.heap r).incarnation ≡ true = ground (arith, m, st, h) in
          rw (on_node_dead, m, st, old) refl

  -- An alive notification that is no news of a remote node tells nothing.
  alive_heard :
      (host : Option String) (port : ℕ) (metadata : Option Metadata) (s : NodeManager F)
      → Inv s
      → names_local s name ≡ false
      → heard_alive (view s name) i ≡ true
      → let t = on_node_alive e name i host port metadata s in
        (t.0 ≡ ok tt) × (t.1.queue ≡ s.queue) × (t.1.emitted ≡ s.emitted)
  unfolding on_node_alive find_or_create alive_is_old update_address
  alive_heard host port metadata s v far h = elim (Option-cases (get s.nodes_map name)) [
    | inl m ↦ absurd (ground (arith, m, h))
    | inr (r, m) ↦
        let old : leb i (s.heap r).incarnation ≡ true = ground (arith, m, h) in
        let remote : is_local s r ≡ false = is_local-eq s name r v m ∙ far in
        ground (arith, m, old, remote)
  ]

-- A notification and the same once more, perhaps in another environment
module _ {F : Type 0} (e e' : Env F) (name : String) (i : ℕ) (s : NodeManager F) where
  -- Death and life of a remote node are told once, in a well-formed state: whatever came of a death
  -- notification, the same a second time returns and changes nothing, and an alive notification
  -- a second time returns and neither queues a message nor emits an event.
  pub notify_again :
      (host : Option String) (port : ℕ) (metadata : Option Metadata)
      → Inv s
      → names_local s name ≡ false
      → let d = (on_node_dead e name i s).1 in
        let a = (on_node_alive e name i host port metadata s).1 in
        let b = on_node_alive e' name i host port metadata a in
        (on_node_dead e' name i d ≡ (ok tt, d))
        × (b.0 ≡ ok tt)
        × (b.1.queue ≡ a.queue)
        × (b.1.emitted ≡ a.emitted)
  notify_again host port metadata v far =
      let dies = on_node_dead-Learns e name i s v in
      let lives = on_node_alive-Learns e name i host port metadata s v in
      let d = (on_node_dead e name i s).1 in
      let a = (on_node_alive e name i host port metadata s).1 in
      let dead_view : view d name ≡ hear_rumor dead none (view s name) i =
        ground (arith, dies.views name, eq_iff name name, far) in
      let alive_view : view a name ≡ hear_alive false (view s name) i =
        ground (arith, lives.views name, eq_iff name name, far) in
      let still_far : names_local a name ≡ false = ground (arith, lives.local_node_name, far) in
      let (returned, queue, emitted) =
        alive_heard e' name i host port metadata a lives.inv still_far
          (ap (λ k. heard_alive k i) alive_view ∙ heard_alive-hear_alive (view s name) i) in
      (
        dead_heard e' name i d
            (ap (λ k. heard_dead k i) dead_view ∙ heard_dead-hear_rumor (view s name) i),
        returned,
        queue,
        emitted,
      )
