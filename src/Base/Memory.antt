-- ===== src/Base/Memory.antt =====
-- The outcome of code that reads memory: `fault` is a read outside the buffer, and `no_fuel` says
-- that a loop was given too few rounds.
use mathlib.Core.Option.{Option, none, some}

pub data Exec {ℓ} (A : Type ℓ) : Type ℓ where
  ret : A → Exec A
  fault : Exec A
  no_fuel : Exec A

infixl 5 ◌>>=◌
abbrev pub ◌>>=◌ {ℓ κ} : {A : Type ℓ} {B : Type κ} → Exec A → (A → Exec B) → Exec B
ret a >>= f = f a
fault >>= f = fault
no_fuel >>= f = no_fuel

-- A read: out of the buffer it faults.
abbrev pub read {ℓ} : {A : Type ℓ} → Option A → Exec A
read (some a) = ret a
read none = fault
