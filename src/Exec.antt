-- ===== src/Exec.antt =====
-- Python methods that change an object and may raise: what was written before a raise stays
-- written, so the state comes back beside the exception too.
pub mod Does
use tattle.Prelude.{Bool, true, false}

-- The exceptions that the modelled methods raise, theirs and those of the calls that they make.
pub data Exception : Type 0 where
  not_implemented_error key_error value_error type_error attribute_error index_error : Exception
  assertion_error struct_error invalid_state_error decrypt_error recursion_error runtime_error
        os_error :
      Exception
  message_decode_error message_checksum_error : Exception

pub data Result {ℓ} (A : Type ℓ) : Type ℓ where
  ok : A → Result A
  raised : Exception → Result A

abbrev pub Exec {ℓ} : Type ℓ → Type ℓ → Type ℓ
Exec S A = S → Result A × S

module _ {ℓ} {S A B : Type ℓ} where
  -- What follows an action: it runs on the state that the action left, or not at all.
  abbrev pub continue : Result A → (A → Exec S B) → Exec S B
  continue (raised x) next s = (raised x, s)
  continue (ok a) next s = next a s

  infixl 5 ◌>>=◌ ◌>>◌
  abbrev pub ◌>>=◌ : Exec S A → (A → Exec S B) → Exec S B
  ◌>>=◌ action next s = let (result, left) = action s in continue result next left

  abbrev pub ◌>>◌ : Exec S A → Exec S B → Exec S B
  action >> after = action >>= λ _. after

module _ {S : Type 0} where
  abbrev pub pass : Exec S Unit
  pass s = (ok tt, s)

  abbrev pub modify : (S → S) → Exec S Unit
  modify f s = (ok tt, f s)

  abbrev pub assert : Bool → Exec S Unit
  assert true s = (ok tt, s)
  assert false s = (raised assertion_error, s)
