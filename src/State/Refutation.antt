-- ===== src/State/Refutation.antt =====
-- A rumor about the local node of tattle/state.py, what a peer makes of the answer, and a node that
-- proves alive after its suspicion timer has run.
use tattle.Prelude.{
  ℕ, ◌≤◌, String, ◌≡◌, true, false, Option, some, List, ◌∷◌, arith, if◌then◌else◌, ltb, eq_iff,
}
use tattle.Prelude.Dict.{get}
use tattle.Messages.{Metadata}
use tattle.State.Node.{alive, suspect, dead, NodeManager, Env}
use tattle.State.Handlers.{on_node_alive, on_node_suspect, handle_suspect_timer}
use tattle.State.Shape.{Inv, view}
use tattle.State.Knowledge.{names_local}
use tattle.State.Refinement.{on_node_alive-Learns, on_node_dead-Learns, on_node_suspect-Learns}

module _ {F G : Type 0} (e : Env F) (e' : Env G) (me : String) (i j : ℕ) (s : NodeManager F)
    (p : NodeManager G) (metadata : Option Metadata) where
  -- In well-formed states, a node that is alive with incarnation `j` is told that it is suspect
  -- with incarnation `i`, not below `j`. It stays alive and takes the next number of its sequence.
  -- A peer that holds it for suspect with incarnation `i`, and is told of the answer, holds it for
  -- alive if that number is above `i`; if it is not, the peer goes on to hold it for suspect.
  pub refutation_reaches_peer :
      (host : Option String) (port : ℕ)
      → Inv s
      → Inv p
      → names_local s me ≡ true
      → view s me ≡ some (alive, j)
      → j ≤ i
      → names_local p me ≡ false
      → view p me ≡ some (suspect, i)
      → (view (on_node_suspect e me i metadata s).1 me ≡ some (alive, s.local_node_seq.next))
        × (view (on_node_alive e' me s.local_node_seq.next host port metadata p).1 me ≡ (
            if ltb i s.local_node_seq.next
            then some (alive, s.local_node_seq.next)
            else some (suspect, i)))
  refutation_reaches_peer host port v w mine known new remote held =
      let told = on_node_suspect-Learns e me i s v metadata in
      let heard = on_node_alive-Learns e' me s.local_node_seq.next host port metadata p w in
      (
        ground (arith, told.views me, eq_iff me me),
        ground (arith, heard.views me, eq_iff me me, remote, held),
      )

-- In a well-formed state, when the task of a suspicion timer of a node that is not the local one
-- comes to run, the node is dead under the incarnation that it has by then, also if it was alive
-- again before the task ran.
pub late_task_kills :
    {F : Type 0} (e : Env F) (name : String) (r i : ℕ) (tasks : List ℕ) (s : NodeManager F)
    → Inv s
    → names_local s name ≡ false
    → s.tasks ≡ r ∷ tasks
    → get s.nodes_map name ≡ some r
    → view s name ≡ some (alive, i)
    → view (handle_suspect_timer e s).1 name ≡ some (dead, i)
unfolding handle_suspect_timer
late_task_kills {F} e name r i tasks s v remote todo m known =
    let s' : NodeManager F = record s { tasks = tasks } in
    let v' : Inv s' = record {
      listed = v.listed;
      named = v.named;
      suspected = v.suspected;
      queued = v.queued;
    } in
    let told = on_node_dead-Learns e name i s' v' in
    let named : (s.heap r).name ≡ name = (v.named name r m).0 in
    let now : (s.heap r).incarnation ≡ i = ground (arith, known, m) in
    rw (todo, handle_suspect_timer, named, now)
      (ground (arith, told.views name, eq_iff name name, remote, known))
