-- ===== src/Io/Push.antt =====
-- `io_push_records` of src/core/io.c: each record of a driver goes, with one reference for each entry,
-- into the queues that have an entry of its data ID. The queues are known by their place in a list.
-- A queue's own mutex is free between two pushes, so that readers may run there: `reads` lists what
-- they do after each push.
pub mod Others
pub mod Deliver
pub mod Deliveries
pub mod Calls
use hound.Base.{
  ℕ, zero, suc, ◌+◌, Option, none, some, Bool, true, false, not, ◌==◌, if◌then◌else◌, List, [], ◌∷◌,
  get_elem?, set, ◌>>=◌,
}
use hound.Records.{Record, RecordInfo, Heap, update, atomic_ref_inc, free_record_info}
use hound.Queue.{Queue, queue_push}
use hound.Ctx.Read.{read_nowait}

-- `struct queue_entry`.
pub record QueueEntry : Type 0 where
  pub id : ℕ
  pub queue : ℕ

-- The queues of all contexts, the records, and the addresses of the data (`record.data`) whose
-- `record_info` is freed without them.
pub record World : Type 0 where
  pub queues : List Queue
  pub heap : Heap
  pub lost : List ℕ

-- `atomic_ref_inc(&rec_info->refcount)`.
unfoldable pub ref_inc_at : ℕ → Heap → Option Heap
unfolding atomic_ref_inc
ref_inc_at p h = do
  info ← h p
  some (update h p (some (record info { refcount = (atomic_ref_inc info.refcount).1 })))

-- `queue_push(entry->queue, rec_info)`.
unfoldable pub push_at : ℕ → ℕ → World → Option World
push_at i p w = do
  q ← get_elem? w.queues i
  (q', h') ← queue_push q p w.heap
  some (record w { queues = set w.queues i q'; heap = h' })

-- The reads of other threads run one after the other.
abbrev alone : ℕ → Queue → Heap → Option (Queue × Heap)
alone i q h = some (q, h)

-- The pops of a reader's `ctx_read_nowait` of `n` records from the queue `i`.
pub record Read : Type 0 where
  pub queue : ℕ
  pub records : ℕ

unfoldable pub run_reads : List Read → World → Option World
run_reads [] w = some w
run_reads (r ∷ rs) w = do
  q ← get_elem? w.queues r.queue
  done ← read_nowait alone q w.heap r.records
  run_reads rs (record w { queues = set w.queues r.queue done.queue; heap = done.heap })

abbrev pub head_reads : List (List Read) → List Read
head_reads [] = []
head_reads (rs ∷ rest) = rs

abbrev pub tail_reads : List (List Read) → List (List Read)
tail_reads [] = []
tail_reads (rs ∷ rest) = rest

-- The loop over the entries of the file descriptor: `pushed`, and the world.
unfoldable pub deliver :
    List QueueEntry → ℕ → ℕ → List (List Read) → Bool → World → Option (Bool × World)
deliver [] data_id p reads pushed w = some (pushed, w)
deliver (entry ∷ entries) data_id p reads pushed w = elim (data_id == entry.id) [
  | true ↦ do
    h ← ref_inc_at p w.heap
    w₁ ← push_at entry.queue p (record w { heap = h })
    w₂ ← run_reads (head_reads reads) w₁
    deliver entries data_id p (tail_reads reads) true w₂
  | false ↦ deliver entries data_id p reads pushed w
]

-- One record: `p` is the answer of `drv_alloc`, 0 for NULL. A record that no entry wants loses its
-- `record_info` by `drv_free(rec_info)` alone.
unfoldable pub push_record :
    List QueueEntry → ℕ → Record → ℕ → List (List Read) → World → Option World
push_record entries dev_id rec p reads w =
    let info : RecordInfo = record { refcount = 0; rec = record rec { dev_id = dev_id } } in
    let run =
      deliver entries rec.data_id p reads false (record w { heap = update w.heap p (some info) }) in
    if p == 0 then some w else (do
      (pushed, w') ← run
      some (
          if pushed
          then w'
          else record w' { heap = update w'.heap p none; lost = rec.bytes ∷ w'.lost }))

-- The loop over the records; `alloc` answers each call of `drv_alloc` from the heap at that time, and
-- each record has its own list of what readers do.
unfoldable pub io_push_records :
    (Heap → ℕ) → List QueueEntry → ℕ → List (Record × List (List Read)) → World → Option World
io_push_records alloc entries dev_id [] w = some w
io_push_records alloc entries dev_id ((rec, reads) ∷ recs) w = do
  w' ← push_record entries dev_id rec (alloc w.heap) reads w
  io_push_records alloc entries dev_id recs w'
