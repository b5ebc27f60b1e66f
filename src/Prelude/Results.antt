-- ===== src/Prelude/Results.antt =====
-- What a Go call of these packages ends in: its results, an `error`, or a run-time panic.

use Prim.Native.Nat.{ℕ}
use mathlib.Core.Path.{◌≡◌, refl}
use mathlib.Core.Bool.{Bool, true, false}

-- The package-level error values, `io.EOF`, `io.ErrClosedPipe`, the error that a closed transport
-- returns, and by number the errors of code outside the packages, such as a socket's.
pub data Error : Type 0 where
  packet_too_short invalid_version : Error
  frame_too_short : Error
  stream_too_short : Error
  stream_closed : Error
  dial_timeout : Error
  eof closed_pipe : Error
  transport_closed : Error
  foreign : ℕ → Error

pub data Outcome {ℓ} (A : Type ℓ) : Type ℓ where
  ok : A → Outcome A
  err : Error → Outcome A
  panic : Outcome A

infixl 5 ◌>>=◌ ◌>>◌
abbrev pub ◌>>=◌ {ℓ κ} : {A : Type ℓ} {B : Type κ} → Outcome A → (A → Outcome B) → Outcome B
ok a >>= f = f a
err e >>= f = err e
panic >>= f = panic

abbrev pub ◌>>◌ {ℓ} : {B : Type ℓ} → Outcome (Unit {0}) → Outcome B → Outcome B
m >> k = m >>= λ _. k

-- `if !b { return nil, e }`
abbrev pub guard : Bool → Error → Outcome (Unit {0})
guard true e = ok tt
guard false e = err e

pub from_ok {ℓ} : {A : Type ℓ} {a b : A} → ok a ≡ ok b → a ≡ b
from_ok e = cc

-- A chain that ends well has got through its first step.
pub chain_ends {ℓ κ} :
    {A : Type ℓ} {B : Type κ} (first : Outcome A) (next : A → Outcome B) {result : B}
    → (first >>= next) ≡ ok result
    → (a : A) × (first ≡ ok a) × (next a ≡ ok result)
chain_ends (ok a) next e = (a, refl, e)
chain_ends (err x) next e = cc
chain_ends panic next e = cc
