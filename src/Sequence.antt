-- ===== src/Sequence.antt =====
-- tattle/sequence.py: `itertools.count(start, step)`, as the number that comes next.
use tattle.Prelude.{ℕ, ◌+◌}

pub record Sequence : Type 0 where
  pub next : ℕ
  pub step : ℕ

-- `Sequence()`
abbrev pub sequence : Sequence
sequence = record { next = 1; step = 1 }

abbrev pub increment : Sequence → ℕ × Sequence
increment q = (q.next, record q { next = q.next + q.step })
