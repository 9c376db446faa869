-- ===== src/Tests/Reads.antt =====
-- Reads of a context.
use hound.Base.{◌≡◌, [], ◌∷◌, some, ◌>>=◌, arith, true}
use hound.Records.{Heap}
use hound.Records.Owned.{IsOwned}
use hound.Ctx.Read.{HoundCtx, Others, process_callbacks, read_nowait, ctx_read_nowait}
use hound.Ctx.Read.Callbacks.{process_callbacks_lem}
use hound.Ctx.Read.Nowait.{ReadsCtx, one_pop, ctx_read_nowait_lem}
use hound.Tests.Data.{two, wrapped, wrapped-IsValid, two-IsOwned}

callbacks_example :
    (h' : Heap) × (process_callbacks (1 ∷ []) 40 two ≡ some ((1, 40) ∷ [], h'))
    × IsOwned (2 ∷ []) h'
callbacks_example = process_callbacks_lem (1 ∷ []) (2 ∷ []) 40 two two-IsOwned

abbrev nothing : Others
nothing i q h = some (q, h)

-- Another thread reads one record.
abbrev reader : Others
reader i q h = do r ← read_nowait nothing q h 1; some (r.queue, r.heap)

abbrev ctx : HoundCtx
ctx = record {
  active = true;
  readers = 2;
  queue = wrapped;
  queue_ptr = 9;
  drv_data_map = [];
  on_demand_data_map = [];
}

read_example : ReadsCtx ctx 1 [] two (ctx_read_nowait reader ctx two 1)
read_example =
    ctx_read_nowait_lem reader ctx [] two 1 wrapped-IsValid two-IsOwned (omega arith) (omega arith)
      (one_pop (omega arith))
