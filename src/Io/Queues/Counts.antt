-- ===== src/Io/Queues/Counts.antt =====
-- The number of queue entries for an ID and a queue, and of timeouts for an ID and a period.
use hound.Base.{
  ℕ, zero, suc, ◌+◌, ◌≤◌, ◌≡◌, refl, ap, none, some, Bool, ◌&&◌, ◌==◌, if◌then◌else◌, List, [], ◌∷◌,
  length, get_elem?, drop, sum_by, sum_by-Permᴰ, some_inj, arith,
}
use hound.Io.Calls.{Vecs, IsVecs}
use hound.Io.Push.{QueueEntry}
use hound.Io.Pull.{PullTimeoutInfo}
use hound.Io.Queues.{Line}

abbrev pub bit : Bool → ℕ
bit b = if b then 1 else 0

abbrev pub is_entry : ℕ → ℕ → QueueEntry → ℕ
is_entry id queue e = bit ((e.id == id) && (e.queue == queue))

abbrev pub entries : ℕ → ℕ → List QueueEntry → ℕ
entries id queue = sum_by (is_entry id queue)

abbrev pub is_timeout : ℕ → ℕ → PullTimeoutInfo → ℕ
is_timeout id period t = bit ((t.id == id) && (t.max_timeout == period))

abbrev pub timeouts : ℕ → ℕ → List PullTimeoutInfo → ℕ
timeouts id period = sum_by (is_timeout id period)

abbrev pub timings : Line → List PullTimeoutInfo
timings line = elim line.pull [ none ↦ [] | some info ↦ info.timeout_info ]

-- At most one entry for each ID and the queue, so that no record comes twice.
abbrev pub Once : ℕ → List QueueEntry → Type 0
Once queue es = (id : ℕ) → entries id queue es ≤ 1

module _ {A : Type 0} (f : A → ℕ) where
  pub sum_by-drop-some :
      (xs : List A) (j : ℕ) (x : A)
      → get_elem? xs j ≡ some x
      → sum_by f (drop j xs) ≡ f x + sum_by f (drop (suc j) xs)
  sum_by-drop-some [] j x e = cc
  sum_by-drop-some (y ∷ xs) zero x e = ap (λ z. f z + sum_by f xs) (some_inj e)
  sum_by-drop-some (y ∷ xs) (suc j) x e = sum_by-drop-some xs j x e

  pub sum_by-drop-none : (xs : List A) (j : ℕ) → get_elem? xs j ≡ none → sum_by f (drop j xs) ≡ 0
  sum_by-drop-none [] zero e = refl
  sum_by-drop-none [] (suc j) e = refl
  sum_by-drop-none (y ∷ xs) zero e = cc
  sum_by-drop-none (y ∷ xs) (suc j) e = sum_by-drop-none xs j e

  pub sum_by-drop_end : (xs : List A) (j : ℕ) → length xs ≤ j → sum_by f (drop j xs) ≡ 0
  sum_by-drop_end [] zero h = refl
  sum_by-drop_end [] (suc j) h = refl
  sum_by-drop_end (y ∷ xs) zero h = elim h [ ]
  sum_by-drop_end (y ∷ xs) (suc j) h = sum_by-drop_end xs j (omega arith)

  pub sum_by-get_elem : (xs : List A) (j : ℕ) (x : A) → get_elem? xs j ≡ some x → f x ≤ sum_by f xs
  sum_by-get_elem [] j x e = cc
  sum_by-get_elem (y ∷ xs) zero x e = omega (arith, ap f (some_inj e))
  sum_by-get_elem (y ∷ xs) (suc j) x e = omega (arith, sum_by-get_elem xs j x e)

  pub sum_by-quickdel :
      {W : Type 0} (v : Vecs W) (l : IsVecs v) (xs : List A) (i : ℕ) (x : A)
      → get_elem? xs i ≡ some x
      → sum_by f xs ≡ f x + sum_by f (v.quickdel xs i)
  sum_by-quickdel v l xs i x e = sum_by-Permᴰ f (l.deletes xs i x e)

pub length-sum_by : {A : Type 0} (xs : List A) → sum_by (λ x. 1) xs ≡ length xs
length-sum_by [] = refl
length-sum_by (x ∷ xs) = omega (arith, length-sum_by xs)

pub length-quickdel :
    {A W : Type 0} (v : Vecs W) (l : IsVecs v) (xs : List A) (i : ℕ) (x : A)
    → get_elem? xs i ≡ some x
    → length xs ≡ suc (length (v.quickdel xs i))
length-quickdel v l xs i x e = omega (
  arith,
  sum_by-quickdel (λ x. 1) v l xs i x e,
  length-sum_by xs,
  length-sum_by (v.quickdel xs i),
)
