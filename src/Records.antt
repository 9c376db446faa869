-- ===== src/Records.antt =====
-- Records and their shared ownership: `struct hound_record` of include/hound/hound.h,
-- `struct record_info` of include/hound-private/queue.h, src/core/refcount.c, and
-- `free_record_info` and `record_ref_dec` of src/core/queue.c.
-- One `record_info` may stand in several queues; it is freed with its last reference.
pub mod Owned
use hound.Base.{
  ℕ, ◌+◌, ◌-◌, ◌<◌, ◌%◌, ◌≡◌, Option, none, some, Bool, true, false, ◌==◌, if◌then◌else◌, ltb,
  assert, ◌>>=◌, ◌>>◌, add_size, sub_size, List, [], ◌∷◌,
}

-- `struct hound_record`; the bytes behind `data` are known by their address.
pub record Record : Type 0 where
  pub data_id : ℕ
  pub dev_id : ℕ
  pub tv_sec : ℕ
  pub tv_nsec : ℕ
  pub size : ℕ
  pub bytes : ℕ

pub record RecordInfo : Type 0 where
  pub refcount : ℕ
  pub rec : Record

-- The allocated `record_info` objects by address.
abbrev pub Heap : Type 0
Heap = ℕ → Option RecordInfo

abbrev pub update : Heap → ℕ → Option RecordInfo → Heap
update h p v q = if p == q then v else h q

-- `atomic_ref_dec`: the value before the decrement, and the new value.
unfoldable pub atomic_ref_dec : ℕ → Option (ℕ × ℕ)
atomic_ref_dec c = do assert (ltb 0 c); some (c, sub_size c 1)

-- `atomic_ref_add`.
unfoldable pub atomic_ref_add : ℕ → ℕ → ℕ × ℕ
atomic_ref_add c v = (c, add_size c v)

unfoldable pub atomic_ref_inc : ℕ → ℕ × ℕ
unfolding atomic_ref_add
atomic_ref_inc c = atomic_ref_add c 1

unfoldable pub free_record_info : ℕ → Heap → Heap
free_record_info p h = update h p none

unfoldable pub record_ref_dec : ℕ → Heap → Option Heap
unfolding atomic_ref_dec free_record_info
record_ref_dec p h = do
  info ← h p
  (old, new) ← atomic_ref_dec info.refcount
  let h' = update h p (some (record info { refcount = new }))
  some (if old == 1 then free_record_info p h' else h')

-- One reference dropped for each entry of a list: what the loops that drop references come to.
unfoldable pub release : List ℕ → Heap → Option Heap
release [] h = some h
release (p ∷ ps) h = do h' ← record_ref_dec p h; release ps h'
