-- ===== src/Tests/Data.antt =====
-- Test data: records 1, 2 and 3 of 10 bytes each, and queues that hold some of them.
use hound.Base.{ℕ, false, [], ◌∷◌, ◌==◌, if◌then◌else◌, some, none, arith}
use hound.Records.{RecordInfo, Heap}
use hound.Records.Owned.{IsOwned}
use hound.Queue.{Queue}
use hound.Queue.Valid.{IsValid}

abbrev pub info : ℕ → RecordInfo
info p = record {
  refcount = 1;
  rec = record { data_id = 7; dev_id = 0; tv_sec = 5; tv_nsec = 0; size = 10; bytes = p };
}

-- Record 1, 2 and 3 have one reference each.
abbrev pub three : Heap
three p =
    if p == 1
    then some (info 1)
    else if p == 2
    then some (info 2)
    else if p == 3
    then some (info 3)
    else none

-- Only records 1 and 2 are allocated.
abbrev pub two : Heap
two p = if p == 1 then some (info 1) else if p == 2 then some (info 2) else none

-- Room for three, holds 1 and 2 round the end of the array.
abbrev pub wrapped : Queue
wrapped = record {
  interrupt = false;
  max_len = 3;
  len = 2;
  front = 2;
  front_seqno = 40;
  slots = 2 ∷ 9 ∷ 1 ∷ [];
}

-- Room for two, holds 1 and 2.
abbrev pub full : Queue
full = record {
  interrupt = false;
  max_len = 2;
  len = 2;
  front = 1;
  front_seqno = 40;
  slots = 2 ∷ 1 ∷ [];
}

-- Room for four, holds 1 and 2, which end in the last cell.
abbrev pub at_end : Queue
at_end = record {
  interrupt = false;
  max_len = 4;
  len = 2;
  front = 2;
  front_seqno = 40;
  slots = 8 ∷ 9 ∷ 1 ∷ 2 ∷ [];
}

pub wrapped-IsValid : IsValid wrapped
wrapped-IsValid = omega arith

pub full-IsValid : IsValid full
full-IsValid = omega arith

pub at_end-IsValid : IsValid at_end
at_end-IsValid = omega arith

pub two-IsOwned : IsOwned (1 ∷ 2 ∷ []) two
two-IsOwned p = ground arith

pub three-IsOwned : IsOwned (3 ∷ 1 ∷ 2 ∷ []) three
three-IsOwned p = ground arith
