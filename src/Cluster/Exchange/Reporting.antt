-- ===== src/Cluster/Exchange/Reporting.antt =====
-- What `_send_local_state` of tattle/cluster.py sends, and what any list that is made of the nodes says.
use tattle.Prelude.{
  ℕ, ◌<◌, String, ◌≡◌, refl, Option, none, some, List, [], ◌∷◌, arith, if◌then◌else◌, map, count,
  ◌==◌, eq_iff, Bool-cases, Option-cases, inl, inr,
}
use tattle.Prelude.Dict.{get}
use tattle.Messages.{RemoteNodeState}
use tattle.State.Node.{status_text, NodeManager}
use tattle.State.Shape.{Inv, is_mapped, view}
use tattle.State.Knowledge.{Knowledge}
use tattle.Cluster.Exchange.{local_state, remote_node_state}

-- What the first entry of the name says
abbrev pub found :
    {A : Type 0} → (A → String) → (A → String × ℕ) → List A → String → Option (String × ℕ)
found name_of content [] n = none
found name_of content (x ∷ rest) n =
    if name_of x == n then some (content x) else found name_of content rest n

-- The first state of the name, by its status and incarnation
abbrev pub reported : List RemoteNodeState → String → Option (String × ℕ)
reported = found (λ remote. remote.node) (λ remote. (remote.status, remote.incarnation))

-- Knowledge, as an entry carries it
abbrev pub carried : Knowledge → Option (String × ℕ)
carried none = none
carried (some (st, i)) = some (status_text st, i)

-- A list with an entry for each of the nodes, which has the name, the status and the incarnation of the node
module _ {A F : Type 0} (name_of : A → String) (content : A → String × ℕ) (s : NodeManager F)
    (entry_of : ℕ → A) (names : (r : ℕ) → name_of (entry_of r) ≡ (s.heap r).name)
    (contents : (r : ℕ)
      → content (entry_of r) ≡ (status_text (s.heap r).status, (s.heap r).incarnation))
    (n : String) where
  found-some :
      (xs : List ℕ) (q : ℕ)
      → ((r : ℕ) → 0 < count r xs → get s.nodes_map (s.heap r).name ≡ some r)
      → get s.nodes_map n ≡ some q
      → (s.heap q).name ≡ n
      → 0 < count q xs
      → found name_of content (map entry_of xs) n
        ≡ some (status_text (s.heap q).status, (s.heap q).incarnation)
  found-some [] q listed m named h = elim h [ ]
  found-some (x ∷ xs) q listed m named h = elim (Bool-cases ((s.heap x).name == n)) [
    | inl e ↦
        let here : get s.nodes_map (s.heap x).name ≡ some x = listed x (ground arith) in
        let same : x ≡ q = ground (arith, here, m, e, eq_iff (s.heap x).name n) in
        rw (names x, e, contents x, same) refl
    | inr e ↦ ground (
      arith,
      e,
      names x,
      named,
      eq_iff (s.heap x).name n,
      found-some xs q (λ r c. listed r (ground (arith, c))) m named,
    )
  ]

  found-none :
      (xs : List ℕ)
      → ((r : ℕ) → 0 < count r xs → get s.nodes_map (s.heap r).name ≡ some r)
      → get s.nodes_map n ≡ none
      → found name_of content (map entry_of xs) n ≡ none
  found-none [] listed m = refl
  found-none (x ∷ xs) listed m =
      let here : get s.nodes_map (s.heap x).name ≡ some x = listed x (ground arith) in
      ground (
        arith,
        here,
        m,
        names x,
        eq_iff (s.heap x).name n,
        found-none xs (λ r c. listed r (ground (arith, c))) m,
      )

  -- The list says what is known, if it has each known node once.
  pub found-view :
      (xs : List ℕ)
      → Inv s
      → ((r : ℕ) → count r xs ≡ is_mapped s r)
      → found name_of content (map entry_of xs) n ≡ carried (view s n)
  found-view xs v counts =
      let listed : (r : ℕ) → 0 < count r xs → get s.nodes_map (s.heap r).name ≡ some r =
        λ r c. ground (arith, c, counts r) in
      elim (Option-cases (get s.nodes_map n)) [
        | inl h ↦ ground (arith, h, found-none xs listed h)
        | inr (q, h) ↦ ground (arith, h, found-some xs q listed h, v.named n q h, counts q)
      ]

-- In a well-formed state, the states that a sync sends are what the node knows: of each name, the status
-- and the incarnation that it is known with, and no state if it is unknown.
pub local_state-view :
    {F : Type 0} (s : NodeManager F) (n : String)
    → Inv s
    → reported (local_state s) n ≡ carried (view s n)
unfolding local_state remote_node_state
local_state-view s n v =
    found-view (λ remote. remote.node) (λ remote. (remote.status, remote.incarnation)) s
      (remote_node_state s) (λ r. refl) (λ r. refl) n s.nodes v v.listed
