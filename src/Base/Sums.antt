-- ===== src/Base/Sums.antt =====
-- Sums over the elements of a list, which do not see their order.
use mathlib.Core.List.{List, [], ◌∷◌, ◌++◌, Permᴰ}
use mathlib.Core.Path.{◌≡◌, refl, ap, ◌∙◌}
use Prim.Native.Nat.{ℕ, zero, suc, ◌+◌, ◌≤◌, ◌<◌}
use native.Mathlib.Omega.{arith}
use hound.Base.Lists.{length, get_or, set}

abbrev pub sum_by {ℓ} : {A : Type ℓ} → (A → ℕ) → List A → ℕ
sum_by f [] = 0
sum_by f (d ∷ ds) = f d + sum_by f ds

pub sum_by-Permᴰ {ℓ} :
    {A : Type ℓ} → (f : A → ℕ) {xs ys : List A} → Permᴰ xs ys → sum_by f xs ≡ sum_by f ys
sum_by-Permᴰ f Permᴰ.nil = refl
sum_by-Permᴰ f (Permᴰ.cons e p) = omega (arith, ap f e, sum_by-Permᴰ f p)
sum_by-Permᴰ f (Permᴰ.swap e₁ e₂) = omega (arith, ap f e₁, ap f e₂)
sum_by-Permᴰ f (Permᴰ.trans p q) = sum_by-Permᴰ f p ∙ sum_by-Permᴰ f q

pub sum_by-append {ℓ} :
    {A : Type ℓ} → (f : A → ℕ) (xs : List A) (d : A) → sum_by f (xs ++ (d ∷ [])) ≡ sum_by f xs + f d
sum_by-append f [] d = omega arith
sum_by-append f (x ∷ xs) d = omega (arith, sum_by-append f xs d)

-- Replacing an element.
pub sum_by-set {ℓ} :
    {A : Type ℓ}
    → (f : A → ℕ) (xs : List A) (i : ℕ) (v d : A) → i < length xs
    → sum_by f (set xs i v) + f (get_or xs i d) ≡ sum_by f xs + f v
sum_by-set f [] i v d h = elim h [ ]
sum_by-set f (x ∷ xs) zero v d h = omega arith
sum_by-set f (x ∷ xs) (suc i) v d h = omega (arith, sum_by-set f xs i v d (omega arith))

pub sum_by-get {ℓ} :
    {A : Type ℓ}
    → (f : A → ℕ) (xs : List A) (i : ℕ) (d : A) → i < length xs
    → f (get_or xs i d) ≤ sum_by f xs
sum_by-get f [] i d h = elim h [ ]
sum_by-get f (x ∷ xs) zero d h = omega arith
sum_by-get f (x ∷ xs) (suc i) d h = omega (arith, sum_by-get f xs i d (omega arith))
