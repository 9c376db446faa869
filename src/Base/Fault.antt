-- ===== src/Base/Fault.antt =====
-- Code that can leave the defined behaviour of C: `none` stands for an access out of the bounds of an
-- array, a use of freed memory, a division by zero or a failed XASSERT.
use Prim.Native.Nat.{ℕ, ◌%◌, ◌<◌}
use mathlib.Core.Path.{◌≡◌, refl, ap}
use native.Mathlib.Omega.{arith}
use mathlib.Core.Bool.{Bool, true, false}
use mathlib.Core.Logic.{◌⊎◌, inl, inr}
use mathlib.Core.Option.{Option, none, some}
use hound.Base.Tests.{◌==◌, if◌then◌else◌}

infixl 5 ◌>>=◌ ◌>>◌
abbrev pub ◌>>=◌ {ℓ κ} : {A : Type ℓ} {B : Type κ} → Option A → (A → Option B) → Option B
none >>= f = none
some a >>= f = f a

abbrev pub ◌>>◌ {ℓ} : {B : Type ℓ} → Option (Unit {0}) → Option B → Option B
m >> k = m >>= λ _. k

-- XASSERT of `lib/xassert.h`.
abbrev pub assert : Bool → Option (Unit {0})
assert true = some tt
assert false = none

-- `a % b`, which is undefined at `b == 0`.
abbrev pub mod_size : ℕ → ℕ → Option ℕ
mod_size a b = if b == 0 then none else some (a % b)

pub mod_size_pos : (a b : ℕ) → 0 < b → mod_size a b ≡ some (a % b)
mod_size_pos a b h = ground arith

-- A run that succeeds has passed its first step.
pub >>=-eq-some {ℓ κ} :
    {A : Type ℓ} {B : Type κ} (m : Option A) (f : A → Option B) {b : B}
    → (m >>= f) ≡ some b
    → (a : A) × (m ≡ some a) × (f a ≡ some b)
>>=-eq-some none f e = cc
>>=-eq-some (some a) f e = (a, refl, e)

pub some_inj {ℓ} : {A : Type ℓ} {a b : A} → some a ≡ some b → a ≡ b
some_inj {a} e = ap (λ o. elim o [ none ↦ a | some x ↦ x ]) e

pub Option-cases {ℓ} : {A : Type ℓ} (o : Option A) → (o ≡ none) ⊎ ((a : A) × (o ≡ some a))
Option-cases none = inl refl
Option-cases (some a) = inr (a, refl)
