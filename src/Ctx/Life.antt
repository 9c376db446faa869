-- ===== src/Ctx/Life.antt =====
-- The life of a context in src/core/ctx.c: `ref_drivers`, `unref_drivers`, `ctx_start`, `ctx_stop`,
-- `ctx_free`, `ctx_next`, `ctx_read` and the queue lengths. The functions
-- hold the context's lock, so each is one step, save `ctx_read`, which waits on the queue; its
-- `start_read` and `stop_read`, which leave the number of readers as it was, are left out.
-- The drivers are those of Driver/Refs.
pub mod Booked
pub mod Walks
pub mod Start
use hound.Base.{
  ℕ, zero, suc, ◌+◌, Option, none, some, Bool, true, false, not, ◌&&◌, ◌||◌, ◌==◌, if◌then◌else◌,
  ltb, List, [], ◌∷◌, ◌++◌, ◌>>=◌, add_size, sub_size, min,
}
use hound.Err.{HoundErr}
use hound.Records.{Heap}
use hound.Queue.{Queue, queue_len, queue_max_len, queue_interrupt, queue_destroy}
use hound.Queue.Wait.{Call, Outcome, queue_pop_records}
use hound.Driver.Calls.{Result, good, is_ok, DataRq, Calls}
use hound.Driver.Refs.{Driver, driver_ref, driver_unref, driver_next}
use hound.Ctx.Read.{HoundCtx, buf_len, Trace, process_callbacks}

-- The drivers by their addresses, and the state of the rest of the program.
pub record Fleet (W : Type 0) : Type 0 where
  pub drivers : ℕ → Driver
  pub rest : W

abbrev pub put_driver : (W : Type 0) → ℕ → Driver → W → Fleet W → Fleet W
put_driver W x drv w s = record { drivers = λ y. if x == y then drv else s.drivers y; rest = w }

-- Each driver has its own operations.
module _ {W : Type 0} (c : ℕ → Calls W) where
  -- `driver_ref` and `driver_unref` of the driver at an address.
  unfoldable pub ref_at : ℕ → ℕ → List DataRq → Fleet W → Option (Result × Fleet W)
  ref_at x queue rqs s = do
    (err, drv, w) ← driver_ref (c x) (s.drivers x) queue rqs s.rest
    some (err, put_driver W x drv w s)

  unfoldable pub unref_at : ℕ → ℕ → List DataRq → Fleet W → Option (Result × Fleet W)
  unref_at x queue rqs s = do
    (err, drv, w) ← driver_unref (c x) (s.drivers x) queue rqs s.rest
    some (err, put_driver W x drv w s)

  -- `unref_drivers`: every driver is unreferenced; the last error is returned.
  unfoldable pub unref_all :
      ℕ → List (ℕ × List DataRq) → Result → Fleet W → Option (Result × Fleet W)
  unref_all queue [] err s = some (err, s)
  unref_all queue ((x, rqs) ∷ rest) err s = do
    (tmp, s') ← unref_at x queue rqs s
    unref_all queue rest (if is_ok tmp then err else tmp) s'

  unfoldable pub unref_drivers : HoundCtx → Fleet W → Option (Result × Fleet W)
  unref_drivers ctx s = unref_all ctx.queue_ptr ctx.drv_data_map good s

  -- The loop of `ref_drivers`, with the entries before; at an error it unreferences them.
  unfoldable pub ref_all :
      ℕ → List (ℕ × List DataRq) → List (ℕ × List DataRq) → Fleet W → Option (Result × Fleet W)
  ref_all queue before [] s = some (good, s)
  ref_all queue before ((x, rqs) ∷ rest) s = do
    (err, s') ← ref_at x queue rqs s
    let next = ref_all queue (before ++ ((x, rqs) ∷ [])) rest s'
    let undone = unref_all queue before good s'
    if is_ok err then next else (do (e, s'') ← undone; some (err, s''))

  unfoldable pub ref_drivers : HoundCtx → Fleet W → Option (Result × Fleet W)
  ref_drivers ctx s = ref_all ctx.queue_ptr [] ctx.drv_data_map s

  -- `ctx_start` with `ctx_start_nolock`.
  unfoldable pub ctx_start : HoundCtx → Fleet W → Option (Result × HoundCtx × Fleet W)
  ctx_start ctx s =
      let run = ref_drivers ctx s in
      if ctx.active then some (Result.library HoundErr.ctx_active, ctx, s) else (do
        (err, s') ← run
        some (if is_ok err then (good, record ctx { active = true }, s') else (err, ctx, s')))

  -- `ctx_stop` with `ctx_stop_nolock`.
  unfoldable pub ctx_stop : HoundCtx → Fleet W → Option (Result × HoundCtx × Fleet W)
  ctx_stop ctx s =
      let ctx' = record ctx { queue = queue_interrupt ctx.queue } in
      let run = unref_drivers ctx' s in
      if not ctx.active
      then some (Result.library HoundErr.ctx_not_active, ctx, s)
      else (do (err, s') ← run; some (err, record ctx' { active = false }, s'))

  -- The loops of `ctx_next`: each assigns `err` anew, so the last call's error is returned.
  unfoldable pub next_ids : ℕ → List ℕ → ℕ → Result → W → Result × W
  next_ids x [] n err w = (err, w)
  next_ids x (id ∷ ids) n err w =
      let (err', w') = driver_next (c x) id n w in next_ids x ids n err' w'

  unfoldable pub next_all : List (ℕ × List ℕ) → ℕ → Result → W → Result × W
  next_all [] n err w = (err, w)
  next_all ((x, ids) ∷ rest) n err w =
      let (err', w') = next_ids x ids n err w in next_all rest n err' w'

  unfoldable pub ctx_next : HoundCtx → ℕ → Fleet W → Result × Fleet W
  ctx_next ctx n s =
      let (err, w) = next_all ctx.on_demand_data_map n good s.rest in (err, record s { rest = w })

-- `ctx_free`: the error, and the heap after the queue is destroyed.
unfoldable pub ctx_free : HoundCtx → Heap → Option (Result × Heap)
ctx_free ctx h =
    let freed = queue_destroy ctx.queue h in
    if ctx.active || ltb 0 ctx.readers
    then some (Result.library HoundErr.ctx_active, h)
    else (do h' ← freed; some (good, h'))

unfoldable pub ctx_queue_length : HoundCtx → ℕ
ctx_queue_length ctx = queue_len ctx.queue

unfoldable pub ctx_max_queue_length : HoundCtx → ℕ
ctx_max_queue_length ctx = queue_max_len ctx.queue

-- How a blocking read ends: it still waits, or it has returned with the calls of the callback, an
-- error, and the records read where the code stores them.
pub data ReadOutcome : Type 0 where
  read_waits : Queue → ReadOutcome
  read_returns : Trace → Result → Option ℕ → Queue → Heap → ReadOutcome

-- The calls of earlier rounds come first.
unfoldable pub after_calls : Trace → ReadOutcome → ReadOutcome
after_calls calls (read_waits q) = read_waits q
after_calls calls (read_returns later err read q h) = read_returns (calls ++ later) err read q h

-- The sequence number that `process_callbacks` is passed; it is not used where nothing was popped.
unfoldable pub seqno_of : Option ℕ → ℕ
seqno_of none = 0
seqno_of (some n) = n

-- The loop of `ctx_read`, on fuel; `rounds` gives each round the wakeups while it waits and the heap
-- that the other threads then leave.
unfoldable pub ctx_read_loop :
    ℕ → Queue → (ℕ → List (List Call) × Heap) → ℕ → ℕ → Option ReadOutcome
ctx_read_loop zero q rounds records total = none
ctx_read_loop (suc fuel) q rounds records total = do
  let target = min (sub_size records total) buf_len
  outcome ← queue_pop_records buf_len q (rounds 0).0 target
  elim outcome [
    | Outcome.waits q' ↦ some (read_waits q')
    | Outcome.returns r ↦ do
      (calls, h') ← process_callbacks r.buf (seqno_of r.first_seqno) (rounds 0).1
      let total' = add_size total r.count
      let rest = ctx_read_loop fuel r.queue (λ i. rounds (suc i)) records total'
      if ltb total' records && not r.interrupt
          then (do later ← rest; some (after_calls calls later))
          else some (
              read_returns calls (if r.interrupt then Result.library HoundErr.ctx_stopped else good)
                (some total') r.queue h')
  ]

-- `ctx_read`. Every round but the last pops a buffer's worth of records.
unfoldable pub ctx_read : Queue → (ℕ → List (List Call) × Heap) → ℕ → Option ReadOutcome
ctx_read q rounds records =
    let run = ctx_read_loop (records + 1) q rounds records 0 in
    if ltb (queue_max_len q) records
    then some (read_returns [] (Result.library HoundErr.queue_too_small) none q (rounds 0).1)
    else run
