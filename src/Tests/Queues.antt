-- ===== src/Tests/Queues.antt =====
-- The queue.
use hound.Base.{◌==◌, if◌then◌else◌, ◌≡◌, refl, true, false, [], ◌∷◌, some, none, arith, inl, inr}
use hound.Records.{Heap}
use hound.Records.Owned.{IsOwned}
use hound.Queue.{
  queue_destroy, Queue, queue_alloc, malloc_slots, store, queue_push, pop_records, pop_bytes,
  drain_until, queue_interrupt,
}
use hound.Queue.Valid.{IsValid, contents, advance, queue_alloc-IsValid}
use hound.Queue.Drain.{queue_destroy_lem, Drained, drain_until_lem}
use hound.Queue.Push.{Pushed, queue_push_lem}
use hound.Queue.Pop.{pop_records_lem}
use hound.Queue.Bytes.{pop_bytes_lem}
use hound.Queue.Resize.{queue_resize}
use hound.Queue.Resize.Flush.{queue_resize_flush}
use hound.Queue.Resize.Outcome.{Resized, queue_resize_lem}
use hound.Queue.History.{Reach, Follows, Reach-Follows}
use hound.Queue.Wait.{
  pushes, interrupts, ready, wait_ready, run_calls, returns, queue_pop_records,
  queue_pop_records_lem,
}
use hound.Tests.Data.{
  info, two, three, wrapped, full, at_end, wrapped-IsValid, full-IsValid, at_end-IsValid,
  two-IsOwned, three-IsOwned,
}

push_example : Pushed full 3 [] three (queue_push full 3 three)
push_example = queue_push_lem full 3 [] three full-IsValid (omega arith) refl three-IsOwned

pop_example :
    pop_records 512 wrapped 5
    ≡ some (2, record { buf = 1 ∷ 2 ∷ []; first_seqno = 40; queue = advance wrapped 2 })
pop_example = pop_records_lem 512 wrapped 5 wrapped-IsValid (omega arith)

bytes_example :
    pop_bytes 512 wrapped 15 two
    ≡ some (10, record { buf = 1 ∷ []; first_seqno = 40; queue = advance wrapped 1 })
bytes_example =
    pop_bytes_lem 512 wrapped 15 [] two wrapped-IsValid two-IsOwned (omega arith) (omega arith)

drain_example : Drained wrapped 1 [] two (drain_until wrapped 1 two)
drain_example = drain_until_lem wrapped 1 [] two wrapped-IsValid two-IsOwned

resize_example : Resized wrapped 2 0 [] (queue_resize wrapped (some (λ i. 77)) 2 false two)
resize_example =
    queue_resize_lem wrapped 2 (λ i. 77) [] two wrapped-IsValid (omega arith) (omega arith)
      two-IsOwned (inr (inl (omega arith, inr (omega arith))))

abbrev fresh : Queue
fresh = record {
  interrupt = false;
  max_len = 2;
  len = 0;
  front = 0;
  front_seqno = 0;
  slots = 77 ∷ 77 ∷ [];
}

alloc_example :
    IsValid fresh × (contents fresh ≡ []) × (fresh.max_len ≡ 2) × (fresh.front_seqno ≡ 0)
unfolding queue_alloc malloc_slots
alloc_example = queue_alloc-IsValid true (some (λ i. 77)) 2 fresh (omega arith) (omega arith) refl

-- Two pushes, and a pop of one record.
fresh-Reach : Reach fresh []
unfolding queue_alloc malloc_slots
fresh-Reach = Reach.alloc true (some (λ i. 77)) 2 (omega arith) (omega arith) refl

abbrev one : Heap
one p = if p == 1 then some (info 1) else none

abbrev with_one : Queue
with_one = record fresh { len = 1; slots = 1 ∷ 77 ∷ [] }

with_one-Reach : Reach with_one (1 ∷ [])
unfolding queue_push store
with_one-Reach = Reach.push 1 [] one one fresh-Reach (omega arith) refl (λ p. ground arith) refl

Follows-example : Follows with_one (1 ∷ [])
Follows-example = Reach-Follows with_one-Reach

-- A thread pushes record 3 while the caller waits for two records.
abbrev waiting : Queue
waiting = record wrapped { len = 1 }

wait_runs :
    wait_ready ((pushes 3 three ∷ []) ∷ []) waiting 2
    ≡ some (ready (record wrapped { slots = 3 ∷ 9 ∷ 1 ∷ [] }) [])
unfolding wait_ready run_calls queue_push store
wait_runs = refl

wait_example :
    queue_pop_records 512 waiting ((pushes 3 three ∷ []) ∷ []) 2
    ≡ some (
        returns (record {
          count = 2;
          buf = 1 ∷ 3 ∷ [];
          first_seqno = some 40;
          interrupt = false;
          queue = advance (record wrapped { slots = 3 ∷ 9 ∷ 1 ∷ [] }) 2;
        }))
wait_example =
    queue_pop_records_lem 512 waiting (record wrapped { slots = 3 ∷ 9 ∷ 1 ∷ [] })
      ((pushes 3 three ∷ []) ∷ []) [] 2 wait_runs (omega arith) refl (omega arith)

interrupt_runs :
    wait_ready ((interrupts ∷ []) ∷ []) waiting 2
    ≡ some (ready (record waiting { interrupt = true }) [])
unfolding wait_ready run_calls queue_interrupt
interrupt_runs = refl

destroy_example : (h' : Heap) × (queue_destroy wrapped two ≡ some h') × IsOwned [] h'
destroy_example = queue_destroy_lem wrapped [] two wrapped-IsValid two-IsOwned

flush_example : Resized at_end 2 at_end.len [] (queue_resize at_end (some (λ i. 77)) 2 true two)
flush_example =
    queue_resize_flush at_end 2 (λ i. 77) [] two at_end-IsValid (omega arith) (omega arith)
      two-IsOwned
