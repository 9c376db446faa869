-- ===== src/Tests/Deliveries.antt =====
-- Deliveries of records to queues.
use hound.Base.{ℕ, ◌≡◌, refl, false, [], ◌∷◌, List, some, none}
use hound.Records.{Record, Heap}
use hound.Queue.{Queue}
use hound.Io.Push.{QueueEntry, World, Read, deliver, push_record, io_push_records}
use hound.Tests.Data.{two, wrapped}

abbrev empty : Queue
empty = record {
  interrupt = false;
  max_len = 2;
  len = 0;
  front = 1;
  front_seqno = 9;
  slots = 0 ∷ 0 ∷ [];
}

abbrev both : World
both = record { queues = wrapped ∷ empty ∷ []; heap = two; lost = [] }

abbrev entries : List QueueEntry
entries =
    record { id = 7; queue = 0 } ∷ record { id = 8; queue = 0 } ∷ record { id = 7; queue = 1 } ∷ []

abbrev sample : ℕ → Record
sample n = record { data_id = n; dev_id = 0; tv_sec = 6; tv_nsec = 0; size = 10; bytes = 1 }

-- The first free one of two addresses, or NULL.
abbrev alloc : Heap → ℕ
alloc h = elim (h 5) [ none ↦ 5 | some i ↦ elim (h 6) [ none ↦ 6 | some j ↦ 0 ] ]

-- A reader that empties the first queue before the record goes to the second one frees the record.
freed_between_pushes :
    io_push_records alloc entries 4
      ((sample 7, (record { queue = 0; records = 3 } ∷ []) ∷ []) ∷ [])
      both
    ≡ none
unfolding io_push_records push_record deliver hound.Io.Push.ref_inc_at hound.Io.Push.push_at
    hound.Queue.queue_push hound.Queue.store hound.Io.Push.run_reads hound.Ctx.Read.read_nowait
    hound.Ctx.Read.read_loop hound.Queue.queue_pop_records_nowait hound.Queue.pop_helper
    hound.Queue.copy_out hound.Ctx.Read.process_callbacks hound.Records.record_ref_dec
freed_between_pushes = refl
