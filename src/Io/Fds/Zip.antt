-- ===== src/Io/Fds/Zip.antt =====
-- The descriptors with their `fdctx`, as one list.
use hound.Base.{
  ℕ, zero, suc, ◌+◌, ◌<◌, ◌≡◌, refl, ap, ◌∙◌, some, List, [], ◌∷◌, ◌++◌, map, length, get_elem?,
  set, arith, ◌≢◌, eq→==, ne→==,
}
use hound.Io.Fds.{PollFd, Slot, Ios, scan_fds, get_fd_index}

-- The descriptors after the pipe have an `fdctx` each, in the same order.
pub record IsAligned (ios : Ios) (pipe : PollFd) (xs : List (PollFd × Slot)) : Type 0 where
  pub fds : ios.fds ≡ pipe ∷ map (λ x. x.0) xs
  pub ctx : ios.ctx ≡ map (λ x. x.1) xs

-- A descriptor stands at an index, and not before it.
abbrev pub StandsAt : ℕ → ℕ → List (PollFd × Slot) → Type 0
StandsAt fd i [] = ⊥
StandsAt fd zero (x ∷ xs) = (x.0).fd ≡ fd
StandsAt fd (suc i) (x ∷ xs) = ((x.0).fd ≢ fd) × StandsAt fd i xs

scan_fds_lem :
    (fd : ℕ) (xs : List (PollFd × Slot)) (n i : ℕ)
    → StandsAt fd i xs
    → scan_fds fd (map (λ x. x.0) xs) n ≡ some (n + i)
unfolding scan_fds
scan_fds_lem fd [] n i at = absurd at
scan_fds_lem fd (x ∷ xs) n zero at = rw (eq→== (x.0).fd fd at) (ap some (omega arith))
scan_fds_lem fd (x ∷ xs) n (suc i) (apart, at) =
    rw (ne→== (x.0).fd fd apart) (scan_fds_lem fd xs (suc n) i at ∙ ap some (omega arith))

pub get_fd_index_lem :
    (fd i : ℕ) (ios : Ios) (pipe : PollFd) (xs : List (PollFd × Slot))
    → IsAligned ios pipe xs
    → StandsAt fd i xs
    → get_fd_index fd ios ≡ some (suc i)
unfolding get_fd_index
get_fd_index_lem fd i ios pipe xs a at =
    rw (a.fds) (scan_fds_lem fd xs 1 i at ∙ ap some {x = 1 + i} {y = suc i} (omega arith))

pub get_elem?-StandsAt : (fd i : ℕ) (xs : List (PollFd × Slot)) → StandsAt fd i xs → i < length xs
get_elem?-StandsAt fd i [] at = absurd at
get_elem?-StandsAt fd zero (x ∷ xs) at = omega arith
get_elem?-StandsAt fd (suc i) (x ∷ xs) (apart, at) = omega (arith, get_elem?-StandsAt fd i xs at)

-- Arrays of one side.
module _ {A B : Type 0} (f : A → B) where
  pub map-append_last : (xs : List A) (z : A) → map f (xs ++ (z ∷ [])) ≡ map f xs ++ (f z ∷ [])
  map-append_last [] z = refl
  map-append_last (x ∷ xs) z = ap (λ ys. f x ∷ ys) (map-append_last xs z)

  pub map-set : (xs : List A) (i : ℕ) (z : A) → map f (set xs i z) ≡ set (map f xs) i (f z)
  map-set [] i z = refl
  map-set (x ∷ xs) zero z = refl
  map-set (x ∷ xs) (suc i) z = ap (λ ys. f x ∷ ys) (map-set xs i z)

  pub length-map : (xs : List A) → length (map f xs) ≡ length xs
  length-map [] = refl
  length-map (x ∷ xs) = ap suc (length-map xs)

  pub get_elem?-of_lt_map :
      (xs : List A) (i : ℕ)
      → i < length xs
      → (x : A) × (get_elem? xs i ≡ some x) × (get_elem? (map f xs) i ≡ some (f x))
  get_elem?-of_lt_map [] i h = elim h [ ]
  get_elem?-of_lt_map (x ∷ xs) zero h = (x, refl, refl)
  get_elem?-of_lt_map (x ∷ xs) (suc i) h = get_elem?-of_lt_map xs i (omega arith)
