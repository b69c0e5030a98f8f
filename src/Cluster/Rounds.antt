-- ===== src/Cluster/Rounds.antt =====
-- Rounds of probes, as the schedule of tattle/cluster.py runs `_do_probe`.
use tattle.Prelude.{
  ℕ, zero, suc, ◌+◌, ◌-◌, ◌<◌, ◌≡◌, refl, ◌⊎◌, Bool, false, none, some, List, [], ◌∷◌, arith, leb,
  eqb, if◌then◌else◌, length, get_or, count, Bool-cases, inl, inr,
}
use tattle.State.Node.{NodeManager}
use tattle.Cluster.Probing.{probe_loop, skips, do_probe}

-- The nodes that the given number of probes go to, in their order, while the nodes stay as they are
unfoldable pub probed : {F : Type 0} → NodeManager F → ℕ → ℕ → List ℕ
unfolding do_probe
probed s zero index = []
probed s (suc n) index =
    let (node, next) = do_probe s index in
    let rest = probed s n next in elim node [ none ↦ rest | some r ↦ r ∷ rest ]

module _ (nodes : List ℕ) (skip : ℕ → Bool) (p : ℕ) (inside : p < length nodes)
    (due : skip (get_or nodes p 0) ≡ false) where
  -- How far the position is ahead of an index
  abbrev ahead : ℕ → ℕ
  ahead index =
      let i = if leb (length nodes) index then 0 else index in
      if leb i p then p - i else p + length nodes - i

  ahead-lt : (index : ℕ) → ahead index < length nodes
  ahead-lt index = ground arith

  -- The loop does not pass the position: it ends there, or before it and nearer to it.
  probe_loop-ahead :
      (k index : ℕ)
      → ahead index < k
      → ((probe_loop nodes skip k index).0 ≡ some (get_or nodes p 0))
        ⊎ (ahead (probe_loop nodes skip k index).1 < ahead index)
  unfolding probe_loop
  probe_loop-ahead zero index h = absurd (omega arith)
  probe_loop-ahead (suc k) index h =
      let i = if leb (length nodes) index then 0 else index in
      elim (Bool-cases (eqb i p)) [
        | inl e ↦ let same : i ≡ p = ground (arith, e) in rw (same, probe_loop, due) (inl refl)
        | inr e ↦
            let nearer : ahead (i + 1) + 1 ≡ ahead index = ground (arith, e) in
            elim (Bool-cases (skip (get_or nodes i 0))) [
              | inl skipped ↦
                  rw (skipped, probe_loop)
                    (elim (probe_loop-ahead k (i + 1) (omega arith)) [
                      | inl found ↦ inl found
                      | inr near ↦ inr (omega arith)
                    ])
              | inr probed_here ↦ rw (probed_here, probe_loop) (inr (omega arith))
            ]
      ]

module _ {F : Type 0} (s : NodeManager F) (p : ℕ) (inside : p < length s.nodes)
    (due : skips s (get_or s.nodes p 0) ≡ false) where
  probed-ahead :
      (n index : ℕ)
      → ahead s.nodes (skips s) p inside due index < n
      → 0 < count (get_or s.nodes p 0) (probed s n index)
  unfolding probed do_probe
  probed-ahead zero index h = absurd (omega arith)
  probed-ahead (suc n) index h =
      let loop = probe_loop s.nodes (skips s) (length s.nodes) index in
      elim (probe_loop-ahead s.nodes (skips s) p inside due (length s.nodes) index
        (ahead-lt s.nodes (skips s) p inside due index)) [
          | inl found ↦ ground (arith, found)
          | inr near ↦ ground (arith, probed-ahead n loop.1, near)
        ]

  -- While the nodes stay as they are, as many probes as there are nodes, from whatever index, go to each
  -- node that is neither the local node nor dead.
  pub probed_all : (index : ℕ) → 0 < count (get_or s.nodes p 0) (probed s (length s.nodes) index)
  probed_all index =
      probed-ahead (length s.nodes) index (ahead-lt s.nodes (skips s) p inside due index)
