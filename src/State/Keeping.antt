-- ===== src/State/Keeping.antt =====
-- What the handlers of tattle/state.py leave of a node on the way to what they tell of it.
use tattle.Prelude.{
  ℕ, String, ◌≡◌, refl, ap, ◌∙◌, Option, some, arith, Bool-cases, Option-cases, inl, inr, none,
  true, ◌&&◌, eqb, eqb_iff, eq_iff,
}
use tattle.Prelude.Dict.{get, contains}
use tattle.Exec.{ok}
use tattle.Messages.{Metadata}
use tattle.State.Node.{Status, alive, NodeManager, Env}
use tattle.State.Manager.{merge_metadata, union, option_eq, swap_random_nodes}
use tattle.State.Handlers.{settle, find_or_create, update_address}
use tattle.State.Shape.{Inv}
use tattle.State.Changes.{settle-Changed}
use tattle.State.Telling.{alive_of, known_metadata, told_alive}

option_eq_iff : (a b : Option String) → option_eq a b ≡ true → a ≡ b
option_eq_iff none none h = refl
option_eq_iff none (some b) h = cc
option_eq_iff (some a) none h = cc
option_eq_iff (some a) (some b) h = ap some ((eq_iff a b).0 h)

module _ {F : Type 0} where
  pub find_or_create-queue :
      (random : ℕ) (name : String) (host : Option String) (port : ℕ) (s : NodeManager F)
      → (find_or_create random name host port s).1.queue ≡ s.queue
  unfolding find_or_create
  find_or_create-queue random name host port s = elim (Option-cases (get s.nodes_map name)) [
    | inl h ↦ ground (arith, h)
    | inr (r, h) ↦ ground (arith, h)
  ]

  pub update_address-queue :
      (r : ℕ) (host : Option String) (port : ℕ) (s : NodeManager F)
      → (update_address r host port s).queue ≡ s.queue
  unfolding update_address
  update_address-queue r host port s = ground arith

  -- The node that a notification finds has the metadata that are known of the name.
  pub find_or_create-metadata :
      (random : ℕ) (name : String) (host : Option String) (port : ℕ) (s : NodeManager F) (r : ℕ)
      → (find_or_create random name host port s).0 ≡ ok r
      → ((find_or_create random name host port s).1.heap r).metadata ≡ known_metadata s name
  unfolding find_or_create swap_random_nodes
  find_or_create-metadata random name host port s r e = elim (Option-cases (get s.nodes_map name)) [
    | inl h ↦ ground (arith, h, e)
    | inr (q, h) ↦ ground (arith, h, e)
  ]

  pub update_address-sets :
      (r : ℕ) (host : Option String) (port : ℕ) (s : NodeManager F)
      → (((update_address r host port s).heap r).host ≡ host)
        × (((update_address r host port s).heap r).port ≡ port)
        × (((update_address r host port s).heap r).metadata ≡ (s.heap r).metadata)
  unfolding update_address
  update_address-sets r host port s =
      elim (Bool-cases (option_eq (s.heap r).host host && eqb (s.heap r).port port)) [
        | inl h ↦ ground (arith, h, option_eq_iff (s.heap r).host host)
        | inr h ↦ ground (arith, h)
      ]

  pub merge_metadata-node :
      (r : ℕ) (metadata : Metadata) (s : NodeManager F)
      → (merge_metadata r (some metadata) s).1.heap r
        ≡ record (s.heap r) { metadata = union (s.heap r).metadata metadata }
  unfolding merge_metadata
  merge_metadata-node r metadata s = rw ((eqb_iff r r).1 refl) refl

module _ {F : Type 0} (e : Env F) where
  pub settle-keeps :
      (name : String) (r i : ℕ) (status : Status) (s : NodeManager F)
      → Inv s
      → get s.nodes_map name ≡ some r
      → let t = (settle e.now r status i s).1 in
        ((t.heap r).host ≡ (s.heap r).host)
        × ((t.heap r).port ≡ (s.heap r).port)
        × ((t.heap r).metadata ≡ (s.heap r).metadata)
  unfolding settle contains
  settle-keeps name r i status s v m = ground (arith, v.named name r m, v.suspected name, m)

  -- What an accepted alive notification tells of the node
  pub told_alive-eq :
      (name : String) (r i : ℕ) (host : Option String) (port : ℕ) (metadata : Metadata)
      (s t : NodeManager F)
      → Inv t
      → get t.nodes_map name ≡ some r
      → (t.heap r).host ≡ host
      → (t.heap r).port ≡ port
      → (t.heap r).metadata ≡ known_metadata s name
      → alive_of ((merge_metadata r (some metadata) (settle e.now r alive i t).1).1.heap r)
        ≡ told_alive name i host port metadata s
  told_alive-eq name r i host port metadata s t v m hosted ported known =
      let u = (settle e.now r alive i t).1 in
      let c = settle-Changed e.now name r alive i t v m in
      let (h, p, k) = settle-keeps name r i alive t v m in
      let same_name : (u.heap r).name ≡ name = c.frame.names r ∙ (v.named name r m).0 in
      let new_incarnation : (u.heap r).incarnation ≡ i = ground (arith, c.incarnations r) in
      ap alive_of (merge_metadata-node r metadata u)
      ∙ rw (same_name, new_incarnation, h ∙ hosted, p ∙ ported, k ∙ known) refl
