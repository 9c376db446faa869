-- ===== src/Io/Push/Others.antt =====
-- All queues together, and one of them beside the others.
use hound.Base.{
  drop-drop, drop-append, ℕ, zero, suc, ◌+◌, ◌-◌, ◌≡◌, refl, ap, sym, ◌∙◌, Option, none, some, List,
  [], ◌∷◌, ◌++◌, arith, count, count-append, get_elem?, set, length, length-append, length-drop,
  drop,
}
use hound.Queue.{Queue}
use hound.Queue.Valid.{contents}

-- The references that all queues hold.
abbrev pub all_contents : List Queue → List ℕ
all_contents [] = []
all_contents (q ∷ qs) = contents q ++ all_contents qs

-- The queues without the one at a place.
abbrev pub others : List Queue → ℕ → List Queue
others [] i = []
others (q ∷ qs) zero = qs
others (q ∷ qs) (suc i) = q ∷ others qs i

pub count-all_contents :
    (a : ℕ) (qs : List Queue) (i : ℕ) (q : Queue)
    → get_elem? qs i ≡ some q
    → count a (all_contents qs) ≡ count a (contents q) + count a (all_contents (others qs i))
count-all_contents a [] i q e = cc
count-all_contents a (x ∷ qs) zero q e =
    count-append a (contents x) (all_contents qs)
    ∙ ap
        (λ (y : Option Queue).
          elim y [ none ↦ 0 | some z ↦ count a (contents z) ] + count a (all_contents qs))
        e
count-all_contents a (x ∷ qs) (suc i) q e = omega (
  arith,
  count-append a (contents x) (all_contents qs),
  count-append a (contents x) (all_contents (others qs i)),
  count-all_contents a qs i q e,
)

pub others-set : (qs : List Queue) (i : ℕ) (q : Queue) → others (set qs i q) i ≡ others qs i
others-set [] i q = refl
others-set (x ∷ qs) zero q = refl
others-set (x ∷ qs) (suc i) q = ap (λ ys. x ∷ ys) (others-set qs i q)

-- The newest `n` entries of a list.
abbrev pub newest : ℕ → List ℕ → List ℕ
newest n xs = drop (length xs - n) xs

-- Trimming before more entries come in makes no difference.
pub newest-append : (n : ℕ) (xs ys : List ℕ) → newest n (newest n xs ++ ys) ≡ newest n (xs ++ ys)
newest-append n xs ys =
    let k = length xs - n in
    let m = length (drop k xs ++ ys) - n in
    ap (drop m) (sym (drop-append k xs ys (omega arith)))
    ∙ drop-drop k m (xs ++ ys)
    ∙ ap (λ i. drop i (xs ++ ys)) {x = k + m} {y = length (xs ++ ys) - n}
        (omega
          (arith, length-append {0} (drop k xs) ys, length-append {0} xs ys, length-drop {0} k xs))
