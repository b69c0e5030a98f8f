-- ===== src/State/Returning.antt =====
-- When the handlers of tattle/state.py return: the encoder of messages does, the queue has no limit, and
-- there is metadata to merge.
use tattle.Prelude.{
  ℕ, String, ◌≡◌, refl, sym, ap, ◌∙◌, Option, some, arith, ltb, if◌then◌else◌, Bool-cases,
  Option-cases, inl, inr, true, false, Bool, eqb_iff,
}
use tattle.Prelude.Dict.{get}
use tattle.Exec.{ok, ◌>>◌, pass, modify}
use tattle.Sequence.{increment}
use tattle.Messages.{Metadata}
use tattle.State.Node.{Status, alive, suspect, dead, status_eq, NodeManager, Env}
use tattle.State.Knowledge.{names_local, is_local-eq}
use tattle.State.Manager.{
  write, local_ref, is_local, merge_metadata, broadcast_alive, broadcast_suspect, emit_change,
}
use tattle.State.Handlers.{
  settle, raise_suspicion, accept_alive, accept_suspect, refute, find_or_create, update_address,
  alive_is_old, on_node_alive, on_node_suspect,
}
use tattle.State.Shape.{Inv, Inv-Steady}
use tattle.State.Entering.{find_or_create-Finds}
use tattle.State.Refinement.{update_address-Steady}
use tattle.State.Changes.{settle-ok, settle-Changed, raise_suspicion-Changed}
use tattle.State.Telling.{
  alive_of, suspect_of, refutation_of, told_alive, told_suspect, Returns, Returns-bind,
  Returns-then, Encodes, emit_change-Returns, merge_metadata-Returns, broadcast_alive-Returns,
  broadcast_suspect-Returns,
}
use tattle.State.Keeping.{
  find_or_create-queue, update_address-queue, find_or_create-metadata, update_address-sets,
  told_alive-eq,
}

module _ {F : Type 0} (e : Env F) where
  module _ (name : String) (r i : ℕ) (s : NodeManager F) (v : Inv s)
      (m : get s.nodes_map name ≡ some r) (h : s.queue.max_size ≡ 0) where
    settle-Returns : (status : Status) → Returns (settle e.now r status i s)
    settle-Returns status = record {
      result = (s.heap r).status;
      returns = settle-ok e.now name r status i s v m;
      unlimited = ap (λ q. q.max_size) (settle-Changed e.now name r status i s v m).queue ∙ h;
    }

    accept_alive-Returns :
        (metadata : Metadata)
        → Encodes e
            (alive_of ((merge_metadata r (some metadata) (settle e.now r alive i s).1).1.heap r))
        → Returns (accept_alive e r i (some metadata) s)
    unfolding accept_alive settle-Returns
    accept_alive-Returns metadata encoded =
        let settled = settle-Returns alive in
        let t = (settle e.now r alive i s).1 in
        let merged = merge_metadata-Returns r metadata t settled.unlimited in
        let u = (merge_metadata r (some metadata) t).1 in
        let told = broadcast_alive-Returns e r u encoded merged.unlimited in
        let emitted =
          emit_change-Returns "node.alive" (s.heap r).status alive r (broadcast_alive e r u).1
            told.unlimited in
        Returns-bind (settle e.now r alive i) s settled
          (λ old. do
            merge_metadata r (some metadata)
            broadcast_alive e r
            emit_change "node.alive" old alive r)
          (Returns-then (merge_metadata r (some metadata)) t merged
            (do broadcast_alive e r; emit_change "node.alive" (s.heap r).status alive r)
            (Returns-then (broadcast_alive e r) u told
              (emit_change "node.alive" (s.heap r).status alive r) emitted))

    merged_name :
        (metadata : Metadata) (q : ℕ)
        → ((merge_metadata r (some metadata) (raise_suspicion e r i s).1).1.heap q).name
          ≡ (s.heap q).name
    unfolding merge_metadata
    merged_name metadata q = ground (arith, (raise_suspicion-Changed e r i s).frame.names q)

    merged_incarnation :
        (metadata : Metadata)
        → ((merge_metadata r (some metadata) (raise_suspicion e r i s).1).1.heap r).incarnation ≡ i
    unfolding merge_metadata
    merged_incarnation metadata = ground (arith, (raise_suspicion-Changed e r i s).incarnations r)

    merged_told :
        (metadata : Metadata) (l : ℕ)
        → Encodes e (suspect_of name i (s.heap l).name)
        → let u = (merge_metadata r (some metadata) (raise_suspicion e r i s).1).1 in
          Encodes e (suspect_of (u.heap r).name (u.heap r).incarnation (u.heap l).name)
    merged_told metadata l (raw, encoded) = (
      raw,
      rw
          (
            merged_name metadata l,
            merged_name metadata r,
            (v.named name r m).0,
            merged_incarnation metadata,
          )
          encoded,
    )

    accept_suspect-Returns :
        (l : ℕ) (metadata : Metadata)
        → local_ref s ≡ some l
        → Encodes e (suspect_of name i (s.heap l).name)
        → Returns (accept_suspect e r i (some metadata) s)
    unfolding accept_suspect merge_metadata raise_suspicion local_ref
    accept_suspect-Returns l metadata known told_by_local =
        let changed = raise_suspicion-Changed e r i s in
        let t = (raise_suspicion e r i s).1 in
        let suspected : Returns (raise_suspicion e r i s) = record {
          result = (s.heap r).status;
          returns = refl;
          unlimited = ap (λ q. q.max_size) changed.queue ∙ h;
        } in
        let merged = merge_metadata-Returns r metadata t suspected.unlimited in
        let u = (merge_metadata r (some metadata) t).1 in
        let told =
          broadcast_suspect-Returns e r l u
            (ground (arith, changed.frame.local_node_name, changed.frame.nodes_map, known))
            (merged_told metadata l told_by_local) merged.unlimited in
        let emitted =
          emit_change-Returns "node.suspect" (s.heap r).status suspect r (broadcast_suspect e r u).1
            told.unlimited in
        Returns-bind (raise_suspicion e r i) s suspected
          (λ old. do
            merge_metadata r (some metadata)
            broadcast_suspect e r
            emit_change "node.suspect" old suspect r)
          (Returns-then (merge_metadata r (some metadata)) t merged
            (do broadcast_suspect e r; emit_change "node.suspect" (s.heap r).status suspect r)
            (Returns-then (broadcast_suspect e r) u told
              (emit_change "node.suspect" (s.heap r).status suspect r) emitted))

  refute-Returns :
      (l : ℕ) (s : NodeManager F)
      → local_ref s ≡ some l
      → Encodes e (refutation_of l s)
      → s.queue.max_size ≡ 0
      → Returns (refute e s)
  unfolding refute
  refute-Returns l s known told h =
      let t = record s { local_node_seq = (increment s.local_node_seq).1 } in
      let u = write l (record (s.heap l) { incarnation = s.local_node_seq.next }) t in
      rw (known, refute)
        (broadcast_alive-Returns e l u (told.0, rw ((eqb_iff l l).1 refl) told.1) h)

  judge_alive-Returns :
      (name : String) (r i : ℕ) (metadata : Metadata) (s : NodeManager F)
      → Inv s
      → get s.nodes_map name ≡ some r
      → s.queue.max_size ≡ 0
      → Encodes e
          (alive_of ((merge_metadata r (some metadata) (settle e.now r alive i s).1).1.heap r))
      → Returns ((if alive_is_old s r i then pass else accept_alive e r i (some metadata)) s)
  judge_alive-Returns name r i metadata s v m h told = elim (Bool-cases (alive_is_old s r i)) [
    | inl old ↦ rw old (record { result = tt; returns = refl; unlimited = h })
    | inr new ↦ rw new (accept_alive-Returns name r i s v m h metadata told)
  ]

  -- An alive notification with metadata returns, where what it tells can be encoded.
  pub on_node_alive-Returns :
      (name : String) (i : ℕ) (host : Option String) (port : ℕ) (metadata : Metadata)
      (s : NodeManager F)
      → Inv s
      → s.queue.max_size ≡ 0
      → Encodes e (told_alive name i host port metadata s)
      → Returns (on_node_alive e name i host port (some metadata) s)
  unfolding on_node_alive
  on_node_alive-Returns name i host port metadata s v h (raw, encoded) =
      let found = find_or_create-Finds e.random name host port s v in
      let r = found.ref in
      let t = (find_or_create e.random name host port s).1 in
      let u = update_address r host port t in
      let steady = update_address-Steady r host port t in
      let inv = Inv-Steady t u steady found.learns.inv in
      let mapped : get u.nodes_map name ≡ some r =
        ap (λ d. get d name) steady.frame.nodes_map ∙ found.mapped in
      let (hosted, ported, kept) = update_address-sets r host port t in
      let told =
        told_alive-eq e name r i host port metadata s u inv mapped hosted ported
          (kept ∙ find_or_create-metadata e.random name host port s r found.returns) in
      let first : Returns (find_or_create e.random name host port s) = record {
        result = r;
        returns = found.returns;
        unlimited = ap (λ q. q.max_size) (find_or_create-queue e.random name host port s) ∙ h;
      } in
      Returns-bind (find_or_create e.random name host port) s first
        (λ r. do
          modify (update_address r host port)
          λ s. (if alive_is_old s r i then pass else accept_alive e r i (some metadata)) s)
        (judge_alive-Returns name r i metadata u inv mapped
          (ap (λ q. q.max_size) (update_address-queue r host port t) ∙ first.unlimited)
          (raw, ap e.encode told ∙ encoded))

  -- A suspect notification with metadata returns, where the local node is known and what is told can be
  -- encoded.
  pub on_node_suspect-Returns :
      (name : String) (i : ℕ) (metadata : Metadata) (l : ℕ) (s : NodeManager F)
      → Inv s
      → s.queue.max_size ≡ 0
      → local_ref s ≡ some l
      → Encodes e (told_suspect name i l s)
      → Returns (on_node_suspect e name i (some metadata) s)
  unfolding on_node_suspect
  on_node_suspect-Returns name i metadata l s v h known (raw, encoded) =
      let mine : (r : ℕ) (b : Bool)
          → get s.nodes_map name ≡ some r
          → is_local s r ≡ b
          → names_local s name ≡ b =
        λ r b m c. sym (is_local-eq s name r v m) ∙ c in
      let nothing : Returns (ok tt, s) = record { result = tt; returns = refl; unlimited = h } in
      elim (Option-cases (get s.nodes_map name)) [
        | inl m ↦ rw (m, on_node_suspect) nothing
        | inr (r, m) ↦ elim (Bool-cases (status_eq (s.heap r).status dead)) [
          | inl a ↦ rw (m, on_node_suspect, a) nothing
          | inr a ↦ elim (Bool-cases (ltb i (s.heap r).incarnation)) [
            | inl b ↦ rw (m, on_node_suspect, a, b) nothing
            | inr b ↦ elim (Bool-cases (is_local s r)) [
              | inl c ↦
                  rw (m, on_node_suspect, a, b, c)
                    (refute-Returns l s known (raw, rw (mine r true m c) at encoded) h)
              | inr c ↦
                  rw (m, on_node_suspect, a, b, c)
                    (accept_suspect-Returns name r i s v m h l metadata known
                      (raw, rw (mine r false m c) at encoded))
            ]
          ]
        ]
      ]
