-- ===== src/Queue/Window.antt =====
-- The entries of a circular array, oldest first.
use mathlib.Core.Path.{ap₂}
use native.Mathlib.Nat.{mod-add-mod, div-add-mod, add-mod_right, mul-le-mul_left}
use native.Mathlib.Decide.{dec_le}
use hound.Base.{
  ℕ, zero, suc, ◌+◌, ◌-◌, ◌/◌, ◌%◌, ◌≤◌, ◌<◌, ◌≡◌, ◌≢◌, refl, ap, ◌∙◌, sym, List, [], ◌∷◌, ◌++◌,
  arith, length, get_or, set, take, drop, get_or-set_self, get_or-set_ne, mod_below,
}

take-suc-drop :
    (i n : ℕ) (xs : List ℕ)
    → i < length xs
    → take (suc n) (drop i xs) ≡ get_or xs i 0 ∷ take n (drop (i + 1) xs)
take-suc-drop i n [] h = elim h [ ]
take-suc-drop zero n (x ∷ xs) h = refl
take-suc-drop (suc i) n (x ∷ xs) h =
    take-suc-drop i n xs (omega arith)
    ∙ ap (λ m. get_or xs i 0 ∷ take n (drop m (x ∷ xs))) {x = suc (i + 1)} (omega arith)

-- The `n` entries from position `i` on, positions taken modulo the capacity.
abbrev pub window : List ℕ → ℕ → ℕ → ℕ → List ℕ
window slots cap i zero = []
window slots cap i (suc n) = get_or slots (i % cap) 0 ∷ window slots cap (i + 1) n

pub length-window : (slots : List ℕ) (cap i n : ℕ) → length (window slots cap i n) ≡ n
length-window slots cap i zero = refl
length-window slots cap i (suc n) = ap suc (length-window slots cap (i + 1) n)

-- Two windows are equal if their entries are.
pub window_ext :
    (xs ys : List ℕ) (c d i j n : ℕ)
    → ((k : ℕ) → k < n → get_or xs ((i + k) % c) 0 ≡ get_or ys ((j + k) % d) 0)
    → window xs c i n ≡ window ys d j n
window_ext xs ys c d i j zero same = refl
window_ext xs ys c d i j (suc n) same =
    λ t. head t ∷ window_ext xs ys c d (i + 1) (j + 1) n (λ k h. later k h) t
  where
    head : get_or xs (i % c) 0 ≡ get_or ys (j % d) 0
    head =
        ap (λ k. get_or xs (k % c) 0) (omega arith)
        ∙ same 0 (omega arith)
        ∙ ap (λ k. get_or ys (k % d) 0) (omega arith)

    later : (k : ℕ) → k < n → get_or xs ((i + 1 + k) % c) 0 ≡ get_or ys ((j + 1 + k) % d) 0
    later k h =
        ap (λ m. get_or xs (m % c) 0) (omega arith)
        ∙ same (suc k) (omega arith)
        ∙ ap (λ m. get_or ys (m % d) 0) (omega arith)

pub window-split :
    (xs : List ℕ) (c i m n : ℕ) → window xs c i (m + n) ≡ window xs c i m ++ window xs c (i + m) n
window-split xs c i zero n =
    ap (λ k. window xs c i k) {y = n} (omega arith) ∙ ap (λ k. window xs c k n) (omega arith)
window-split xs c i (suc m) n =
    ap (λ k. window xs c i k) {y = suc (m + n)} (omega arith)
    ∙ ap (λ ys. get_or xs (i % c) 0 ∷ ys)
        (window-split xs c (i + 1) m n
          ∙ ap (λ k. window xs c (i + 1) m ++ window xs c k n) (omega arith))

-- A position may be reduced modulo the capacity first.
pub window-mod : (xs : List ℕ) (c i n : ℕ) → window xs c (i % c) n ≡ window xs c i n
window-mod xs c i n =
    window_ext xs xs c c (i % c) i n (λ k h. ap (λ m. get_or xs m 0) (mod-add-mod i c k))

-- Positions less than the capacity apart are different slots.
pub mod_ne : (a b c : ℕ) → a < b → b < a + c → a % c ≢ b % c
mod_ne a b c h k e = elim (dec_le (b / c) (a / c)) [
  | yes p ↦ grind (arith, mul-le-mul_left c p, div-add-mod a c, div-add-mod b c)
  | no p ↦
      let p' : a / c + 1 ≤ b / c = omega arith in
      grind (arith, mul-le-mul_left c p', div-add-mod a c, div-add-mod b c)
]

-- A write outside a window leaves it alone.
pub window-set_ne :
    (xs : List ℕ) (c i n j v : ℕ)
    → ((k : ℕ) → k < n → j ≢ (i + k) % c)
    → window (set xs j v) c i n ≡ window xs c i n
window-set_ne xs c i n j v apart =
    window_ext (set xs j v) xs c c i i n (λ k h. get_or-set_ne xs j ((i + k) % c) v 0 (apart k h))

-- A write to the slot behind a window that does not fill the array extends it.
pub window-set :
    (xs : List ℕ) (c i n v : ℕ)
    → n < c
    → (i + n) % c < length xs
    → window (set xs ((i + n) % c) v) c i (n + 1) ≡ window xs c i n ++ (v ∷ [])
window-set xs c i n v h b =
    window-split (set xs ((i + n) % c) v) c i n 1
    ∙ ap₂ (λ ys y. ys ++ (y ∷ []))
        (window-set_ne xs c i n ((i + n) % c) v
          (λ k lt e. mod_ne (i + k) (i + n) c (omega arith) (omega arith) (sym e)))
        (get_or-set_self xs ((i + n) % c) v 0 b)

-- A write to the oldest slot of a full array makes it the newest.
pub window-set_full :
    (xs : List ℕ) (c i v : ℕ)
    → 0 < c
    → i < c
    → i < length xs
    → window (set xs i v) c (i + 1) c ≡ window xs c (i + 1) (c - 1) ++ (v ∷ [])
window-set_full xs c i v pos h b =
    ap (λ m. window (set xs i v) c (i + 1) m) (omega arith)
    ∙ window-split (set xs i v) c (i + 1) (c - 1) 1
    ∙ ap₂ (λ ys y. ys ++ (y ∷ []))
        (window-set_ne xs c (i + 1) (c - 1) i v
          (λ k lt e. mod_ne i (i + 1 + k) c (omega arith) (omega arith) (mod_below i c h ∙ e)))
        (ap (λ m. get_or (set xs i v) m 0) last ∙ get_or-set_self xs i v 0 b)
  where
    last : (i + 1 + (c - 1)) % c ≡ i
    last = ap (λ m. m % c) {y = i + c} (omega arith) ∙ add-mod_right i c ∙ mod_below i c h

-- Reading a stretch of the array that does not go round gives the window.
pub take-drop-window :
    (xs : List ℕ) (c i n : ℕ) → i + n ≤ c → i + n ≤ length xs → take n (drop i xs) ≡ window xs c i n
take-drop-window xs c i zero h b = refl
take-drop-window xs c i (suc n) h b =
    take-suc-drop i n xs (omega arith)
    ∙ ap₂ (λ y ys. y ∷ ys) (ap (λ m. get_or xs m 0) (sym (mod_below i c (omega arith))))
        (take-drop-window xs c (i + 1) n (omega arith) (omega arith))

pub get_or-window :
    (xs : List ℕ) (c i n k : ℕ) → k < n → get_or (window xs c i n) k 0 ≡ get_or xs ((i + k) % c) 0
get_or-window xs c i zero k h = elim h [ ]
get_or-window xs c i (suc n) zero h = ap (λ m. get_or xs (m % c) 0) (omega arith)
get_or-window xs c i (suc n) (suc k) h =
    get_or-window xs c (i + 1) n k (omega arith) ∙ ap (λ m. get_or xs (m % c) 0) (omega arith)
