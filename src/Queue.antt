-- ===== src/Queue.antt =====
-- The record queue of a context: `struct queue` of src/core/queue.c, its allocation, `queue_push`,
-- draining and the non-blocking pops. Each function runs under the queue's mutex, so it is one step.
-- `none` is a fault (see Base/Fault).
pub mod Window
pub mod Valid
pub mod Drain
pub mod Push
pub mod Pop
pub mod Bytes
pub mod Resize
pub mod History
pub mod Wait
use hound.Base.{
  ℕ, zero, suc, ◌+◌, ◌-◌, ◌/◌, Option, none, some, Bool, true, false, not, ◌&&◌, ◌==◌,
  if◌then◌else◌, ltb, leb, List, [], ◌∷◌, ◌++◌, assert, mod_size, ◌>>=◌, ◌>>◌, add_size, sub_size,
  mul_size, length, get_elem?, set, take, drop,
}
use hound.Err.{HoundErr}
use hound.Records.{Heap, record_ref_dec}

-- `data` is `slots`: the addresses of the `record_info` objects, one for each pointer of the block.
pub record Queue : Type 0 where
  pub interrupt : Bool
  pub max_len : ℕ
  pub len : ℕ
  pub front : ℕ
  pub front_seqno : ℕ
  pub slots : List ℕ

-- The answer of malloc or realloc: NULL, or a block with indeterminate contents.
abbrev pub Block : Type 0
Block = Option (ℕ → ℕ)

-- The whole pointers in `n * sizeof(*queue->data)` bytes, with pointers of 8 bytes.
abbrev pub cells : ℕ → ℕ
cells n = mul_size n 8 / 8

fill_from : (ℕ → ℕ) → ℕ → ℕ → List ℕ
fill_from fill i zero = []
fill_from fill i (suc n) = fill i ∷ fill_from fill (i + 1) n

-- `malloc(n * sizeof(*queue->data))`.
unfoldable pub malloc_slots : (ℕ → ℕ) → ℕ → List ℕ
unfolding fill_from
malloc_slots fill n = fill_from fill 0 (cells n)

-- `queue_alloc`: whether the first malloc succeeds, and the answer of the second.
unfoldable pub queue_alloc : Bool → Block → ℕ → HoundErr × Option Queue
queue_alloc false block max_len = (HoundErr.oom, none)
queue_alloc true none max_len = (HoundErr.oom, none)
queue_alloc true (some fill) max_len = (
  HoundErr.ok,
  some (record {
    interrupt = false;
    max_len = max_len;
    len = 0;
    front = 0;
    front_seqno = 0;
    slots = malloc_slots fill max_len;
  }),
)

-- The loop of `drain_until`, over the rounds left.
unfoldable pub drain_loop : ℕ → Queue → Heap → Option (Queue × Heap)
drain_loop zero q h = some (q, h)
drain_loop (suc n) q h = do
  p ← get_elem? q.slots q.front
  h' ← record_ref_dec p h
  front ← mod_size (add_size q.front 1) q.max_len
  drain_loop n (record q { front = front }) h'

unfoldable pub drain_until : Queue → ℕ → Heap → Option (Queue × Heap)
drain_until q new_len h = elim (leb q.len new_len) [
  | true ↦ some (q, h)
  | false ↦ do
    let drain_count = q.len - new_len
    (q', h') ← drain_loop drain_count q h
    some (record q' { front_seqno = add_size q'.front_seqno drain_count; len = new_len }, h')
]

unfoldable pub drain_nolock : Queue → Heap → Option (Queue × Heap)
drain_nolock q h = drain_until q 0 h

-- A store through `queue->data[i]`.
unfoldable pub store : List ℕ → ℕ → ℕ → Option (List ℕ)
store xs i v = if ltb i (length xs) then some (set xs i v) else none

-- `queue_push`. The address 0 is NULL.
unfoldable pub queue_push : Queue → ℕ → Heap → Option (Queue × Heap)
queue_push q rec h = do
  assert (not (rec == 0))
  back ← mod_size (add_size q.front q.len) q.max_len
  elim (ltb q.len q.max_len) [
    | true ↦ do
      slots ← store q.slots back rec
      some (record q { len = add_size q.len 1; slots = slots }, h)
    | false ↦ do
      assert (q.len == q.max_len)
      assert (q.front == back)
      tmp ← get_elem? q.slots q.front
      front ← mod_size (add_size q.front 1) q.max_len
      slots ← store q.slots back rec
      h' ← (if tmp == 0 then some h else record_ref_dec tmp h)
      some (record q { front = front; front_seqno = add_size q.front_seqno 1; slots = slots }, h')
  ]

-- `memcpy(buf, xs + src, n * sizeof(*buf))` into a buffer with room for `room` pointers.
unfoldable pub copy_out : ℕ → List ℕ → ℕ → ℕ → Option (List ℕ)
copy_out room xs src n =
    if leb (cells n) room && leb (src + cells n) (length xs)
    then some (take (cells n) (drop src xs))
    else none

-- What a pop hands back: the records written to `buf`, the first sequence number, and the queue.
pub record Popped : Type 0 where
  pub buf : List ℕ
  pub first_seqno : ℕ
  pub queue : Queue

unfoldable pub pop_helper : ℕ → Queue → ℕ → Option Popped
pop_helper room q records = do
  assert (leb records q.max_len)
  let right_records = sub_size q.max_len q.front
  (buf, front) ← elim (ltb records right_records) [
    | true ↦ do buf ← copy_out room q.slots q.front records; some (buf, add_size q.front records)
    | false ↦ do
      right ← copy_out room q.slots q.front right_records
      left ← copy_out (room - right_records) q.slots 0 (sub_size records right_records)
      some (right ++ left, sub_size records right_records)
  ]
  some (record {
    buf = buf;
    first_seqno = q.front_seqno;
    queue = record q {
      front = front;
      len = sub_size q.len records;
      front_seqno = add_size q.front_seqno records;
    };
  })

-- The `while` loop of `pop_bytes`, on fuel: the number of records and the bytes left over.
unfoldable pub scan_bytes : ℕ → Queue → Heap → ℕ → ℕ → ℕ → Option (ℕ × ℕ)
scan_bytes zero q h i remainder records = none
scan_bytes (suc fuel) q h i remainder records = elim (records == q.len) [
  | true ↦ some (records, remainder)
  | false ↦ do
    p ← get_elem? q.slots i
    info ← h p
    elim (ltb remainder info.rec.size) [
      | true ↦ some (records, remainder)
      | false ↦
          scan_bytes fuel q h (if i + 1 == q.max_len then 0 else i + 1) (remainder - info.rec.size)
            (records + 1)
    ]
]

-- The loop makes at most `len` rounds before its first test stops it.
unfoldable pub pop_bytes : ℕ → Queue → ℕ → Heap → Option (ℕ × Popped)
pop_bytes room q bytes h = do
  (records, remainder) ← scan_bytes (q.len + 1) q h q.front bytes 0
  popped ← pop_helper room q records
  some (sub_size bytes remainder, popped)

unfoldable pub pop_records : ℕ → Queue → ℕ → Option (ℕ × Popped)
pop_records room q records = do
  let target = if ltb records q.len then records else q.len
  popped ← pop_helper room q target
  some (target, popped)

unfoldable pub queue_pop_bytes_nowait : ℕ → Queue → ℕ → Heap → Option (ℕ × Popped)
unfolding pop_bytes
queue_pop_bytes_nowait room q bytes h = pop_bytes room q bytes h

unfoldable pub queue_pop_records_nowait : ℕ → Queue → ℕ → Option (ℕ × Popped)
unfolding pop_records
queue_pop_records_nowait room q records = pop_records room q records

unfoldable pub queue_drain : Queue → Heap → Option (Queue × Heap)
unfolding drain_nolock
queue_drain q h = drain_nolock q h

-- `queue_destroy`, after which the queue and its block are gone.
unfoldable pub queue_destroy : Queue → Heap → Option Heap
unfolding drain_nolock
queue_destroy q h = do (q', h') ← drain_nolock q h; some h'

-- `queue_interrupt`.
unfoldable pub queue_interrupt : Queue → Queue
queue_interrupt q = record q { interrupt = true }

unfoldable pub queue_len : Queue → ℕ
queue_len q = q.len

unfoldable pub queue_max_len : Queue → ℕ
queue_max_len q = q.max_len
