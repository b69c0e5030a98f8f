-- ===== src/Prelude/Dict.antt =====
-- A Python `dict` with string keys, as an association list. Nothing in the program depends on the
-- order of the entries.
use Prim.Native.String.{String}
use mathlib.Core.Path.{◌≡◌, refl}
use mathlib.Core.Bool.{Bool, true, false}
use mathlib.Core.Option.{Option, none, some}
use mathlib.Core.List.{List, [], ◌∷◌}
use native.Mathlib.Omega.{arith}
use text.Mathlib.Text.{◌==◌}
use text.Mathlib.TextEquality.{eq_iff}
use tattle.Prelude.Tests.{if◌then◌else◌}

abbrev pub Dict {ℓ} : Type ℓ → Type ℓ
Dict V = List (String × V)

module _ {ℓ} {V : Type ℓ} where
  -- `d.get(k)`
  unfoldable pub get : Dict V → String → Option V
  get [] k = none
  get ((j, v) ∷ d) k = if j == k then some v else get d k

  -- `del d[k]`
  unfoldable pub remove : Dict V → String → Dict V
  remove [] k = []
  remove ((j, v) ∷ d) k = let rest = remove d k in if j == k then rest else (j, v) ∷ rest

  -- `d[k] = v`
  unfoldable pub put : Dict V → String → V → Dict V
  put [] k v = (k, v) ∷ []
  put ((j, w) ∷ d) k v = if j == k then (k, v) ∷ d else (j, w) ∷ put d k v

  -- `k in d`
  unfoldable pub contains : Dict V → String → Bool
  unfolding get
  contains d k = elim (get d k) [ none ↦ false | some v ↦ true ]

  pub get-remove :
      (d : Dict V) (key other : String)
      → get (remove d key) other ≡ (if key == other then none else get d other)
  unfolding get remove
  get-remove [] key other = ground arith
  get-remove ((i, v) ∷ d) key other =
      ground (arith, get-remove d key other, eq_iff i key, eq_iff i other, eq_iff key other)

  pub get-put :
      (d : Dict V) (key other : String) (v : V)
      → get (put d key v) other ≡ (if key == other then some v else get d other)
  unfolding get put
  get-put [] key other v = refl
  get-put ((i, w) ∷ d) key other v =
      ground (arith, get-put d key other v, eq_iff i key, eq_iff i other, eq_iff key other)

  pub contains-remove :
      (d : Dict V) (k j : String)
      → contains (remove d k) j ≡ (if k == j then false else contains d j)
  unfolding contains
  contains-remove d k j = ground (arith, get-remove d k j)

  pub contains-put :
      (d : Dict V) (k j : String) (v : V)
      → contains (put d k v) j ≡ (if k == j then true else contains d j)
  unfolding contains
  contains-put d k j v = ground (arith, get-put d k j v)
