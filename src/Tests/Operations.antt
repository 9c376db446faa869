-- ===== src/Tests/Operations.antt =====
-- Test data: a vector that deletes in order, calls of drivers that succeed, and two drivers.
use mathlib.Core.List.{Permᴰ}
use mathlib.Core.List.Permᴰ
use hound.Base.{ℕ, zero, suc, ◌<◌, refl, true, List, [], ◌∷◌, ◌++◌, length, get_or, arith, word_mod}
use hound.Err.{pos}
use hound.Driver.Calls.{good, DataRq, Data, Calls, IsVec}
use hound.Driver.Active.Counts.{Holds, times}
use hound.Driver.Refs.{Driver, fd_invalid}

abbrev pub erase : List Data → ℕ → List Data
erase [] i = []
erase (x ∷ xs) zero = xs
erase (x ∷ xs) (suc i) = x ∷ erase xs i

pub erase-Permᴰ :
    (xs : List Data) (i : ℕ) (d : Data) → i < length xs → Permᴰ xs (get_or xs i d ∷ erase xs i)
erase-Permᴰ [] i d h = elim h [ ]
erase-Permᴰ (x ∷ xs) zero d h = Permᴰ.refl (x ∷ xs)
erase-Permᴰ (x ∷ xs) (suc i) d h =
    Permᴰ.trans (Permᴰ.cons refl (erase-Permᴰ xs i d (omega arith))) (Permᴰ.swap refl refl)

abbrev pub calls : Calls ℕ
calls = record {
  pushp = λ ds d w. (true, ds ++ (d ∷ []), w);
  quickdel = erase;
  reserve = λ n w. (true, w);
  op_setdata = λ rqs w. (good, w);
  op_start = λ w. (good, pos 5, w);
  op_next = λ id w. (good, w);
  op_stop = λ w. (good, w);
  io_add_fd = λ fd rqs q w. (good, w);
  io_remove_fd = λ fd w. w;
  io_add_queue = λ fd rqs q w. (good, w);
  io_remove_queue = λ fd rqs q w. w;
  io_modify_queue = λ fd old new q w. (good, w);
}

pub calls-IsVec : IsVec calls
calls-IsVec = record { push_appends = λ ds d w e. refl; deletes = λ ds i d h. erase-Permᴰ ds i d h }

abbrev pub speed : DataRq
speed = record { id = 7; period_ns = 100 }

abbrev pub stopped : Driver
stopped = record { refcount = 0; fd = fd_invalid; active_data = [] }

abbrev pub no_refs : DataRq → ℕ
no_refs k = 0

pub stopped-Holds : Holds [] no_refs
stopped-Holds = record { shares = λ k. refl; alone = λ k. omega arith; busy = refl }

abbrev pub running : Driver
running = record {
  refcount = 1;
  fd = pos 5;
  active_data = record { refcount = 1; rq = speed } ∷ [];
}

abbrev pub one_ref : DataRq → ℕ
one_ref k = times k (speed ∷ [])

pub one_ref_small : (k : DataRq) → one_ref k < word_mod
one_ref_small k = ground arith

pub running-Holds : Holds running.active_data one_ref
running-Holds = record { shares = λ k. ground arith; alone = λ k. ground arith; busy = refl }
