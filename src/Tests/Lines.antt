-- ===== src/Tests/Lines.antt =====
-- Queues added to and removed from the line of a file descriptor.
use hound.Base.{
  ℕ, zero, suc, ◌≡◌, refl, ap, arith, List, [], ◌∷◌, ◌++◌, some, true, length, get_elem?, set,
  some_inj, ◌≤◌,
}
use mathlib.Core.List.{Permᴰ}
use mathlib.Core.List.Permᴰ
use hound.Driver.Calls.{DataRq}
use hound.Driver.Descs.{DriverInfo, default_pull}
use hound.Io.Calls.{Vecs, IsVecs}
use hound.Io.Queues.{Line, remove_queue_nolock}
use hound.Io.Queues.Unqueue.{Pulls, timed, QueueRemoved, remove_queue_nolock_lem}
use hound.Io.Queues.Grown.{owned}

-- Vectors that never fail, as lists.
abbrev without_last : {A : Type 0} → List A → List A
without_last [] = []
without_last (x ∷ []) = []
without_last (x ∷ y ∷ xs) = x ∷ without_last (y ∷ xs)

abbrev last_of : {A : Type 0} → A → List A → A
last_of x [] = x
last_of x (y ∷ xs) = last_of y xs

-- The last element takes the place of the one at the index.
abbrev fast_delete : {A : Type 0} → List A → ℕ → List A
fast_delete [] i = []
fast_delete (x ∷ xs) (suc i) = x ∷ fast_delete xs i
fast_delete (x ∷ []) zero = []
fast_delete (x ∷ y ∷ xs) zero = last_of y xs ∷ without_last (y ∷ xs)

abbrev pub vecs : Vecs (Unit {0})
vecs = record {
  pushp = λ xs x w. (true, xs ++ (x ∷ []), w);
  pop = without_last;
  quickdel = fast_delete;
}

last-Permᴰ :
    {A : Type 0} (x : A) (xs : List A) → Permᴰ (x ∷ xs) (last_of x xs ∷ without_last (x ∷ xs))
last-Permᴰ x [] = Permᴰ.refl (x ∷ [])
last-Permᴰ x (y ∷ xs) = Permᴰ.trans (Permᴰ.cons refl (last-Permᴰ y xs)) (Permᴰ.swap refl refl)

fast_delete-Permᴰ :
    {A : Type 0} (xs : List A) (i : ℕ) (x : A)
    → get_elem? xs i ≡ some x
    → Permᴰ xs (x ∷ fast_delete xs i)
fast_delete-Permᴰ [] i x e = cc
fast_delete-Permᴰ (y ∷ []) zero x e = Permᴰ.cons (some_inj e) Permᴰ.nil
fast_delete-Permᴰ (y ∷ z ∷ xs) zero x e = Permᴰ.cons (some_inj e) (last-Permᴰ z xs)
fast_delete-Permᴰ (y ∷ xs) (suc i) x e =
    Permᴰ.trans (Permᴰ.cons refl (fast_delete-Permᴰ xs i x e)) (Permᴰ.swap refl refl)

without_last-append : {A : Type 0} (xs : List A) (x : A) → without_last (xs ++ (x ∷ [])) ≡ xs
without_last-append [] x = refl
without_last-append (y ∷ []) x = refl
without_last-append (y ∷ z ∷ xs) x = ap (λ zs. y ∷ zs) (without_last-append (z ∷ xs) x)

last-append : {A : Type 0} (x : A) (xs : List A) (z : A) → last_of x (xs ++ (z ∷ [])) ≡ z
last-append x [] z = refl
last-append x (y ∷ xs) z = last-append y xs z

fast_delete-moves :
    {A : Type 0} (xs : List A) (z : A) (i : ℕ)
    → i ≤ length xs
    → fast_delete (xs ++ (z ∷ [])) i ≡ set xs i z
fast_delete-moves [] z zero h = refl
fast_delete-moves [] z (suc i) h = elim h [ ]
fast_delete-moves (x ∷ []) z zero h = refl
fast_delete-moves (x ∷ y ∷ xs) z zero h = rw (last-append y xs z, without_last-append (y ∷ xs) z)
fast_delete-moves (x ∷ xs) z (suc i) h = ap (λ zs. x ∷ zs) (fast_delete-moves xs z i (omega arith))

pub vecs-IsVecs : IsVecs vecs
vecs-IsVecs = record {
  push_appends = λ xs x w e. refl;
  push_keeps = λ xs x w e. cc;
  pops = λ xs x. without_last-append xs x;
  deletes = λ xs i x e. fast_delete-Permᴰ xs i x e;
  moves = λ xs z i h. fast_delete-moves xs z i h;
}

abbrev pub drv : DriverInfo
drv = record { id = 3; device_name = 0; descs = []; poll = default_pull }

-- Another queue has an entry of the ID 1, and a timeout.
abbrev pub line : Line
line = record {
  ctx = record {
    drv = drv;
    timeout_enabled = true;
    timeout_ns = 50;
    queues = record { id = 1; queue = 0 } ∷ [];
  };
  pull = some (record {
    last_pull = 100;
    timeout_info = record { id = 1; current_timeout = 50; max_timeout = 50 } ∷ [];
  });
}

abbrev pub rqs : List DataRq
rqs =
    record { id = 1; period_ns = 50 }
    ∷ record { id = 2; period_ns = 0 }
    ∷ record { id = 2; period_ns = 30 }
    ∷ []

line-Pulls : Pulls line
line-Pulls e = (
  record {
    last_pull = 100;
    timeout_info = record { id = 1; current_timeout = 50; max_timeout = 50 } ∷ [];
  },
  refl,
)

pub memory : (A : Type 0) (xs : List A) (x : A) (w : Unit {0}) → (vecs.pushp xs x w).0 ≡ true
memory A xs x w = refl

remove_example : QueueRemoved vecs vecs-IsVecs 0 line rqs (remove_queue_nolock vecs 0 rqs line)
remove_example = remove_queue_nolock_lem vecs vecs-IsVecs 0 rqs line line-Pulls (λ id. ground arith)

abbrev one_rq : List DataRq
one_rq = record { id = 1; period_ns = 50 } ∷ []

-- A repeated ID after another one: its timeout is kept under the other ID.
abbrev apart_rqs : List DataRq
apart_rqs =
    record { id = 1; period_ns = 10 }
    ∷ record { id = 2; period_ns = 20 }
    ∷ record { id = 1; period_ns = 30 }
    ∷ []

misfiled : (timed 2 30 (owned 0 [] apart_rqs) ≡ 1) × (timed 1 30 (owned 0 [] apart_rqs) ≡ 0)
misfiled = (refl, refl)
