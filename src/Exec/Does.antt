-- ===== src/Exec/Does.antt =====
-- What an action does to the state, whether it returns or raises, as a relation between the state
-- before it and the state after it; one rule for each way to build an action.
use tattle.Prelude.{◌≡◌, refl, ap, ◌⊎◌, inl, inr}
use tattle.Exec.{Exception, Exec, Result, ok, raised, continue, ◌>>=◌}

pub record Does {S A : Type 0} (R : S → S → Type 0) (m : Exec S A) : Type 0 where
  pub at : (s : S) → R s (m s).1

module _ {S A B : Type 0} where
  Does-continue :
      {R : S → S → Type 0} (trans : (s t u : S) → R s t → R t u → R s u) (f : A → Exec S B)
      (s t : S) (r : Result A)
      → R s t
      → ((a : A) → Does R (f a))
      → R s (continue r f t).1
  Does-continue trans f s t (ok a) h k = trans s t (f a t).1 h ((k a).at t)
  Does-continue trans f s t (raised e) h k = h

  pub Does-bind :
      {R : S → S → Type 0} (trans : (s t u : S) → R s t → R t u → R s u) (m : Exec S A)
      (f : A → Exec S B)
      → Does R m
      → ((a : A) → Does R (f a))
      → Does R (m >>= f)
  Does-bind trans m f h k = record { at = λ s. Does-continue trans f s (m s).1 (m s).0 (h.at s) k }

  -- Where the first part returns, the rest goes on from the state that it left.
  pub bind-ok :
      (m : Exec S A) (f : A → Exec S B) (s : S) (a : A) → (m s).0 ≡ ok a → (m >>= f) s ≡ f a (m s).1
  bind-ok m f s a e = ap (λ r. continue r f (m s).1) e

  pub bind-returns :
      (m : Exec S A) (f : A → Exec S B) (s t : S) (a : A) → m s ≡ (ok a, t) → (m >>= f) s ≡ f a t
  bind-returns m f s t a e = ap (λ p. continue p.0 f p.1) e

pub Result-cases {ℓ} :
    {A : Type ℓ} (r : Result A) → ((x : Exception) × (r ≡ raised x)) ⊎ ((a : A) × (r ≡ ok a))
Result-cases (raised x) = inl (x, refl)
Result-cases (ok a) = inr (a, refl)
