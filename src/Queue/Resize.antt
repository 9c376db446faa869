-- ===== src/Queue/Resize.antt =====
-- `queue_resize` of src/core/queue.c with `is_contiguous`, `contract_queue` and `expand_queue`.
-- memcpy and memmove take numbers of pointers; a copy that leaves the block is a fault, and so is a
-- memcpy between regions that overlap.
pub mod Moves
pub mod Contract
pub mod Limits
pub mod Expand
pub mod Outcome
pub mod Flush
use hound.Base.{
  ℕ, ◌+◌, Option, none, some, Bool, true, false, ◌&&◌, ◌||◌, ◌==◌, if◌then◌else◌, ltb, leb, List,
  ◌++◌, assert, mod_size, ◌>>=◌, ◌>>◌, add_size, sub_size, length, take, drop,
}
use hound.Err.{HoundErr}
use hound.Records.{Heap}
use hound.Queue.{Queue, Block, cells, malloc_slots, drain_until, drain_nolock}

-- `n` pointers moved from index `src` to index `dst`.
unfoldable pub move_cells : ℕ → ℕ → ℕ → List ℕ → List ℕ
move_cells dst src n xs = take dst xs ++ (take n (drop src xs) ++ drop (dst + n) xs)

unfoldable pub memmove : ℕ → ℕ → ℕ → List ℕ → Option (List ℕ)
memmove dst src n xs =
    if leb (dst + cells n) (length xs) && leb (src + cells n) (length xs)
    then some (move_cells dst src (cells n) xs)
    else none

unfoldable pub memcpy : ℕ → ℕ → ℕ → List ℕ → Option (List ℕ)
unfolding memmove
memcpy dst src n xs =
    if leb (dst + cells n) src || leb (src + cells n) dst then memmove dst src n xs else none

unfoldable pub is_contiguous : Queue → Bool
is_contiguous q = leb (add_size q.front q.len) q.max_len

-- The last statement of `contract_queue`.
unfoldable pub copy_to_start : Queue → ℕ → ℕ → Option Queue
copy_to_start q start count = do
  slots ← memcpy 0 start count q.slots
  some (record q { slots = slots })

-- The same behind the memmove that makes room at the start of the array.
unfoldable pub shift_and_copy : Queue → ℕ → ℕ → ℕ → Option Queue
shift_and_copy q back start count = do
  slots ← memmove count 0 back q.slots
  copy_to_start (record q { slots = slots }) start count

-- `contract_queue` behind the trimming: its four cases and the early return.
unfoldable pub contract_slots : Queue → ℕ → ℕ → Option Queue
contract_slots q new_max_len back =
    if is_contiguous q
    then (if leb new_max_len q.front
        then copy_to_start (record q { front = 0 }) q.front (sub_size back q.front)
        else if ltb new_max_len back
        then copy_to_start q new_max_len (sub_size back new_max_len)
        else some q)
    else if leb new_max_len q.front
    then shift_and_copy (record q { front = 0 }) back q.front (sub_size q.max_len q.front)
    else shift_and_copy q back new_max_len (sub_size q.len new_max_len)

unfoldable pub contract_queue : Queue → ℕ → Heap → Option (Queue × Heap)
contract_queue q new_max_len h = do
  assert (ltb new_max_len q.max_len)
  (q', h') ← drain_until q new_max_len h
  back ← mod_size (add_size q'.front q'.len) q'.max_len
  q'' ← contract_slots q' new_max_len back
  some (q'', h')

-- The copies of `expand_queue`.
unfoldable pub expand_slots : Queue → ℕ → ℕ → Option Queue
expand_slots q back diff =
    if leb back diff
    then (do slots ← memcpy q.len 0 back q.slots; some (record q { slots = slots }))
    else (do
      slots ← memcpy q.len 0 diff q.slots
      slots' ← memmove 0 diff (sub_size back diff) slots
      some (record q { slots = slots' }))

-- `expand_queue`; the block has grown already, `max_len` has not.
unfoldable pub expand_queue : Queue → ℕ → Option Queue
unfolding expand_slots
expand_queue q new_max_len = do
  assert (ltb q.len new_max_len)
  elim (is_contiguous q) [
    | true ↦ some q
    | false ↦ do
      back ← mod_size (add_size q.front q.len) q.max_len
      expand_slots q back (sub_size new_max_len q.max_len)
  ]

-- What realloc returns: the old pointers as far as they fit, and indeterminate ones behind them.
unfoldable pub realloc_slots : (ℕ → ℕ) → ℕ → List ℕ → List ℕ
realloc_slots fill n xs =
    let grown = malloc_slots fill n in take (length grown) xs ++ drop (length xs) grown

-- The first part of `queue_resize`.
unfoldable pub make_fit : Queue → ℕ → Bool → Heap → Option (Queue × Heap)
make_fit q max_len true h = do (q', h') ← drain_nolock q h; some (record q' { front = 0 }, h')
make_fit q max_len false h =
    if ltb max_len q.max_len then contract_queue q max_len h else some (q, h)

-- The reallocation.
unfoldable pub change_block : Queue → Block → ℕ → Option (HoundErr × Queue)
change_block q none max_len = some (HoundErr.oom, q)
change_block q (some fill) max_len = do
  let q' = record q { slots = realloc_slots fill max_len q.slots }
  q'' ← (if ltb q.max_len max_len then expand_queue q' max_len else some q')
  some (HoundErr.ok, record q'' { max_len = max_len })

-- `queue_resize`, with the answer of realloc.
unfoldable pub queue_resize : Queue → Block → ℕ → Bool → Heap → Option (HoundErr × Queue × Heap)
queue_resize q block max_len flush h = do
  (q', h') ← make_fit q max_len flush h
  elim (max_len == q.max_len) [
    | true ↦ some (HoundErr.ok, record q' { max_len = max_len }, h')
    | false ↦ do (err, q'') ← change_block q' block max_len; some (err, q'', h')
  ]
