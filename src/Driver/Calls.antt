-- ===== src/Driver/Calls.antt =====
-- What src/core/driver.c calls: the vectors of xlib, the operations of a driver (`struct driver_ops`),
-- and the I/O layer. Each call takes the state of the rest of the program and gives the next one.
use Prim.Native.Nat.{ℕ}
use mathlib.Core.List.{Permᴰ}
use hound.Base.{◌≡◌, ◌<◌, Bool, true, false, List, [], ◌∷◌, ◌++◌, length, get_or}
use hound.Err.{HoundErr, ℤ}

-- What a function of type `hound_err` returns: a code of the library, or a positive code of the system.
pub data Result : Type 0 where
  library : HoundErr → Result
  errno : ℕ → Result

abbrev pub good : Result
good = library HoundErr.ok

-- `err == HOUND_OK`.
abbrev pub is_ok : Result → Bool
is_ok (library HoundErr.ok) = true
is_ok _ = false

-- `struct hound_data_rq`.
pub record DataRq : Type 0 where
  pub id : ℕ
  pub period_ns : ℕ

-- `struct data` of src/core/driver.c.
pub record Data : Type 0 where
  pub refcount : ℕ
  pub rq : DataRq

-- `pushp` tells whether there was memory, and what the vector then holds; `reserve` whether
-- `xv_resize` leaves an allocated vector.
pub record Calls (W : Type 0) : Type 0 where
  pub pushp : List Data → Data → W → Bool × List Data × W
  pub quickdel : List Data → ℕ → List Data
  pub reserve : ℕ → W → Bool × W
  pub op_setdata : List DataRq → W → Result × W
  pub op_start : W → Result × ℤ × W
  pub op_next : ℕ → W → Result × W
  pub op_stop : W → Result × W
  pub io_add_fd : ℤ → List DataRq → ℕ → W → Result × W
  pub io_remove_fd : ℤ → W → W
  pub io_add_queue : ℤ → List DataRq → ℕ → W → Result × W
  pub io_remove_queue : ℤ → List DataRq → ℕ → W → W
  pub io_modify_queue : ℤ → List DataRq → List DataRq → ℕ → W → Result × W

-- What xlib documents of its vectors: a push with memory appends, `xv_quickdel` takes the element at an
-- index out and may reorder the others.
pub record IsVec {W : Type 0} (c : Calls W) : Type 0 where
  pub push_appends :
      (ds : List Data) (d : Data) (w : W)
      → (c.pushp ds d w).0 ≡ true
      → (c.pushp ds d w).1 ≡ ds ++ (d ∷ [])
  pub deletes :
      (ds : List Data) (i : ℕ) (d : Data)
      → i < length ds
      → Permᴰ ds (get_or ds i d ∷ c.quickdel ds i)
