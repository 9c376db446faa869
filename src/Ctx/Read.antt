-- ===== src/Ctx/Read.antt =====
-- Reading from the queue of a context without waiting: `process_callbacks`, `ctx_read_nowait`,
-- `ctx_read_all_nowait` and `ctx_read_bytes_nowait` of src/core/ctx.c. The callback is seen as the list
-- of its calls, each with the address of a record and its sequence number; an address that is not
-- allocated any more is a fault. A read holds the lock of the queue only inside each pop, so other
-- threads run between its pops: what they do to the queue and the records there is an argument.
pub mod Callbacks
pub mod Nowait
pub mod Busy
use hound.Base.{
  ℕ, zero, suc, ◌+◌, ◌-◌, ◌^◌, Option, none, some, Bool, true, false, not, ◌&&◌, ◌==◌,
  if◌then◌else◌, ltb, List, [], ◌∷◌, ◌++◌, ◌>>=◌, add_size, sub_size, min, length,
}
use hound.Err.{HoundErr}
use hound.Records.{Heap, record_ref_dec}
use hound.Driver.Calls.{DataRq}
use hound.Queue.{Queue, queue_max_len, queue_pop_records_nowait, queue_pop_bytes_nowait}

-- `struct hound_ctx`: the maps as the lists of their entries in the order of a walk.
pub record HoundCtx : Type 0 where
  pub active : Bool
  pub readers : ℕ
  pub queue : Queue
  pub queue_ptr : ℕ
  pub drv_data_map : List (ℕ × List DataRq)
  pub on_demand_data_map : List (ℕ × List ℕ)

unfoldable pub start_read : HoundCtx → HoundCtx
start_read ctx = record ctx { readers = add_size ctx.readers 1 }

unfoldable pub stop_read : HoundCtx → HoundCtx
stop_read ctx = record ctx { readers = sub_size ctx.readers 1 }

-- What other threads do after each pop and its callbacks, if another pop follows; `none` is a fault.
-- A thread that runs between a pop and its callbacks is taken to run after them, since the callbacks only
-- drop references that the pop took over. The context's other fields are taken to stay meanwhile.
abbrev pub Others : Type 0
Others = ℕ → Queue → Heap → Option (Queue × Heap)

-- `DEQUEUE_BUF_SIZE`: the pointers that the buffer on the stack has room for; its size in bytes.
abbrev pub buf_len : ℕ
buf_len = 512

abbrev pub buf_bytes : ℕ
buf_bytes = 4096

-- `SIZE_MAX`.
abbrev pub size_max : ℕ
size_max = 2 ^ 64 - 1

abbrev pub Trace : Type 0
Trace = List (ℕ × ℕ)

-- The loop of `process_callbacks` over the records in the buffer.
unfoldable pub process_callbacks : List ℕ → ℕ → Heap → Option (Trace × Heap)
process_callbacks [] seqno h = some ([], h)
process_callbacks (rec ∷ buf) seqno h = do
  _ ← h rec
  h' ← record_ref_dec rec h
  (calls, h'') ← process_callbacks buf (add_size seqno 1) h'
  some ((rec, seqno) ∷ calls, h'')

-- What a read leaves behind: the calls of the callback, the records read, the queue and the heap.
pub record Reading : Type 0 where
  pub calls : Trace
  pub total : ℕ
  pub queue : Queue
  pub heap : Heap

-- The loop of `ctx_read_nowait`, on fuel.
unfoldable pub read_loop : ℕ → Others → Queue → Heap → ℕ → ℕ → Option Reading
read_loop zero others q h records total = none
read_loop (suc fuel) others q h records total = do
  let target = min (sub_size records total) buf_len
  (count, p) ← queue_pop_records_nowait buf_len q target
  (calls, h') ← process_callbacks p.buf p.first_seqno h
  let total' = add_size total count
  let rest = (do
    (q'', h'') ← others 0 p.queue h'
    read_loop fuel (λ i. others (suc i)) q'' h'' records total')
  if count == target && ltb total' records
      then (do r ← rest; some (record r { calls = calls ++ r.calls }))
      else some (record { calls = calls; total = total'; queue = p.queue; heap = h' })

-- Every round that another one follows reads a record.
unfoldable pub read_nowait : Others → Queue → Heap → ℕ → Option Reading
read_nowait others q h records = read_loop (records + 1) others q h records 0

-- `ctx_read_nowait`, with the context that it leaves.
unfoldable pub ctx_read_nowait : Others → HoundCtx → Heap → ℕ → Option (Reading × HoundCtx)
ctx_read_nowait others ctx h records = do
  let ctx' = start_read ctx
  r ← read_nowait others ctx'.queue h records
  some (r, stop_read (record ctx' { queue = r.queue }))

unfoldable pub ctx_read_all_nowait : Others → HoundCtx → Heap → Option (Reading × HoundCtx)
ctx_read_all_nowait others ctx h = ctx_read_nowait others ctx h size_max

-- The same by bytes.
pub record ReadingBytes : Type 0 where
  pub calls : Trace
  pub total_records : ℕ
  pub total_bytes : ℕ
  pub queue : Queue
  pub heap : Heap

unfoldable pub read_bytes_loop : ℕ → Others → Queue → Heap → ℕ → ℕ → ℕ → Option ReadingBytes
read_bytes_loop zero others q h bytes total_bytes total_records = none
read_bytes_loop (suc fuel) others q h bytes total_bytes total_records = do
  let target = min (sub_size bytes total_bytes) buf_bytes
  (count, p) ← queue_pop_bytes_nowait buf_len q target h
  (calls, h') ← process_callbacks p.buf p.first_seqno h
  let records' = add_size total_records (length p.buf)
  let bytes' = add_size total_bytes count
  let rest = (do
    (q'', h'') ← others 0 p.queue h'
    read_bytes_loop fuel (λ i. others (suc i)) q'' h'' bytes bytes' records')
  if count == target && ltb bytes' bytes
      then (do r ← rest; some (record r { calls = calls ++ r.calls }))
      else some (record {
        calls = calls;
        total_records = records';
        total_bytes = bytes';
        queue = p.queue;
        heap = h';
      })

unfoldable pub ctx_read_bytes_nowait :
    Others → HoundCtx → Heap → ℕ → Option (ReadingBytes × HoundCtx)
ctx_read_bytes_nowait others ctx h bytes = do
  let ctx' = start_read ctx
  r ← read_bytes_loop (bytes + 1) others ctx'.queue h bytes 0 0
  some (r, stop_read (record ctx' { queue = r.queue }))
