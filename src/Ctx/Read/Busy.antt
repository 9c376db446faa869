-- ===== src/Ctx/Read/Busy.antt =====
-- `ctx_read_nowait` while other threads use the queue between its pops.
use hound.Base.{ℕ, ◌+◌, ◌≤◌, ◌<◌, ◌≡◌, List, [], ◌++◌, some, Option, length}
use hound.Records.{Heap}
use hound.Records.Owned.{IsOwned}
use hound.Queue.{Queue}
use hound.Queue.Valid.{IsValid, contents}
use hound.Ctx.Read.{HoundCtx, Others, Reading}

-- What the other threads leave: a valid queue that owns its entries.
pub record Kept (held : List ℕ) (r : Option (Queue × Heap)) : Type 0 where
  pub queue : Queue
  pub heap : Heap
  pub returns : r ≡ some (queue, heap)
  pub valid : IsValid queue
  pub owned : IsOwned (contents queue ++ held) heap

abbrev pub IsFair : Others → List ℕ → Type 0
IsFair others held =
    (i : ℕ) (q : Queue) (h : Heap)
    → IsValid q
    → IsOwned (contents q ++ held) h
    → Kept held (others i q h)

-- How a read of `records` records ends, of which `before` were read earlier in the same call.
pub record Ends (records before : ℕ) (held : List ℕ) (r : Option Reading) : Type 0 where
  pub reading : Reading
  pub returns : r ≡ some reading
  pub one_each : before + length reading.calls ≡ reading.total
  pub bounded : reading.total ≤ records
  pub drained : reading.total < records → contents reading.queue ≡ []
  pub valid : IsValid reading.queue
  pub owned : IsOwned (contents reading.queue ++ held) reading.heap

-- The end of a call, with the context that it leaves.
pub record EndsCtx (ctx : HoundCtx) (records : ℕ) (held : List ℕ) (r : Option (Reading × HoundCtx))
    : Type 0 where
  pub reading : Reading
  pub returns : r ≡ some (reading, record ctx { queue = reading.queue })
  pub one_each : length reading.calls ≡ reading.total
  pub bounded : reading.total ≤ records
  pub drained : reading.total < records → contents reading.queue ≡ []
  pub valid : IsValid reading.queue
  pub owned : IsOwned (contents reading.queue ++ held) reading.heap
