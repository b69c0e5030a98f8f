-- ===== src/Network.antt =====
-- tattle/network.py: the socket for datagrams and its listener on the event loop. What the socket does
-- with a call is an argument of the step that calls it.
pub mod Addresses
pub mod Sending
pub mod Receiving
use tattle.Prelude.{ℕ, String, Bool, true, false, eqb, if◌then◌else◌}
use tattle.Exec.{Result}

abbrev pub Address : Type 0
Address = String × ℕ

-- `asyncio.Future`
pub data Future {ℓ} (A : Type ℓ) : Type ℓ where
  pending : Future A
  done : Result A → Future A
  cancelled : Future A

-- The futures that were created, by the order of their creation
abbrev pub put {ℓ} : {A : Type ℓ} → ℕ → A → (ℕ → A) → ℕ → A
put r a f q = if eqb q r then a else f q

module _ {ℓ} {A : Type ℓ} where
  -- `set_result` and `set_exception`: a future that is done keeps what it has.
  abbrev pub settle_future : Result A → Future A → Future A
  settle_future result pending = done result
  settle_future result (done old) = done old
  settle_future result cancelled = cancelled

  -- `cancel`
  abbrev pub cancel : Future A → Future A
  cancel pending = cancelled
  cancel (done old) = done old
  cancel cancelled = cancelled

  -- Whether the future was cancelled
  abbrev pub is_cancelled : Future A → Bool
  is_cancelled pending = false
  is_cancelled (done old) = false
  is_cancelled cancelled = true
