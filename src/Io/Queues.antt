-- ===== src/Io/Queues.antt =====
-- The queue entries and pull timeouts of one file descriptor: `struct fdctx`, `set_fd_timeout`,
-- `add_queue_nolock` and `remove_queue_nolock` of src/core/io.c. A line is the `fdctx` of the descriptor
-- and its value in `s_pull_map`.
pub mod Counts
pub mod Remove
pub mod Timer
pub mod Unqueue
pub mod Grown
pub mod Add
pub mod Enqueue
pub mod Restore
use hound.Base.{
  ℕ, zero, suc, ◌+◌, min, Option, none, some, Bool, true, false, ◌&&◌, ◌||◌, ◌==◌, if◌then◌else◌,
  ltb, List, [], ◌∷◌, length, get_elem?, ◌>>=◌,
}
use hound.Err.{HoundErr}
use hound.Driver.Calls.{Result, good, is_ok, DataRq}
use hound.Driver.Descs.{DriverInfo, driver_is_pull_mode}
use hound.Io.Calls.{Vecs}
use hound.Io.Push.{QueueEntry}
use hound.Io.Pull.{PullTimeoutInfo, PullInfo, no_timeout}

-- `struct fdctx`.
pub record FdCtx : Type 0 where
  pub drv : DriverInfo
  pub timeout_enabled : Bool
  pub timeout_ns : ℕ
  pub queues : List QueueEntry

pub record Line : Type 0 where
  pub ctx : FdCtx
  pub pull : Option PullInfo

-- The loop of `set_fd_timeout`.
unfoldable pub min_loop : List PullTimeoutInfo → ℕ → ℕ
min_loop [] min_timeout = min_timeout
min_loop (t ∷ ts) min_timeout = min_loop ts (min min_timeout t.current_timeout)

unfoldable pub set_fd_timeout : Line → Option Line
unfolding min_loop
set_fd_timeout line = do
  info ← line.pull
  let any : Bool = ltb 0 (length info.timeout_info)
  let timeout = if any then min_loop info.timeout_info no_timeout else no_timeout
  let ctx : FdCtx = record line.ctx { timeout_enabled = any; timeout_ns = timeout }
  some (record line { ctx = ctx })

abbrev pub is_pull : Line → Bool
is_pull line = driver_is_pull_mode line.ctx.drv

-- The scan of the requests before the current one.
unfoldable pub seen : ℕ → List DataRq → Bool
seen id [] = false
seen id (rq ∷ rqs) = (id == rq.id) || seen id rqs

-- `xv_pop` for each of the entries pushed.
unfoldable pub pop_all : {W : Type 0} → Vecs W → ℕ → List QueueEntry → List QueueEntry
pop_all v zero es = es
pop_all v (suc n) es = pop_all v n (v.pop es)

-- The local variables of `add_queue_nolock`: the ID of the entry pushed last (none before the first),
-- and `queue_count`.
pub record Adding (W : Type 0) : Type 0 where
  pub fine : Bool
  pub line : Line
  pub entry : Option ℕ
  pub queue_count : ℕ
  pub world : W

module _ {W : Type 0} (v : Vecs W) (queue : ℕ) where
  unfoldable pub push_entry : Bool → ℕ → Adding W → Adding W
  push_entry true id a = a
  push_entry false id a =
      let (fine, es, w) = v.pushp a.line.ctx.queues (record { id = id; queue = queue }) a.world in
      let line : Line = record (a.line) { ctx = record a.line.ctx { queues = es } } in
      if fine
      then record {
        fine = true;
        line = line;
        entry = some id;
        queue_count = suc a.queue_count;
        world = w;
      }
      else record a { fine = false; line = line; world = w }

  unfoldable pub push_timeout : DataRq → Adding W → Option (Adding W)
  unfolding pop_all
  push_timeout rq a = do
    info ← a.line.pull
    id ← a.entry
    let timeout : PullTimeoutInfo = record {
      id = id;
      current_timeout = rq.period_ns;
      max_timeout = rq.period_ns;
    }
    let (fine, ts, w) = v.pushp info.timeout_info timeout a.world
    let pull : PullInfo = record info { timeout_info = ts }
    let popped = pop_all v a.queue_count a.line.ctx.queues
    let queues = if fine then a.line.ctx.queues else popped
    let line : Line = record { ctx = record a.line.ctx { queues = queues }; pull = some pull }
    some (record a { fine = fine; line = line; world = w })

  -- The loop over the requests, `before` those already seen; it returns at the first failed push.
  unfoldable pub add_loop : List DataRq → List DataRq → Adding W → Option (Adding W)
  unfolding push_entry push_timeout seen
  add_loop before [] a = some a
  add_loop before (rq ∷ rqs) a = do
    let a₁ = push_entry (seen rq.id before) rq.id a
    let timed =
        if a₁.fine && is_pull a₁.line && ltb 0 rq.period_ns then push_timeout rq a₁ else some a₁
    a₂ ← timed
    let rest = add_loop (rq ∷ before) rqs a₂
    if a₂.fine then rest else some a₂

  unfoldable pub add_queue_nolock : List DataRq → Line → W → Option (Result × Line × W)
  unfolding add_loop set_fd_timeout
  add_queue_nolock rqs line w = do
    a ←
        add_loop [] rqs
          (record { fine = true; line = line; entry = none; queue_count = 0; world = w })
    line' ← if a.fine && is_pull a.line then set_fd_timeout a.line else some a.line
    some (if a.fine then good else Result.library HoundErr.oom, line', a.world)

  -- The loop over the queue entries for one ID. The index moves on after a removal too. One round for
  -- each entry is enough; `none` at the end of the rounds stands for a loop that goes on.
  unfoldable pub remove_entries : ℕ → ℕ → ℕ → List QueueEntry → Option (List QueueEntry)
  remove_entries zero id j es = if ltb j (length es) then none else some es
  remove_entries (suc rounds) id j es = elim (get_elem? es j) [
    | none ↦ some es
    | some e ↦
        remove_entries rounds id (suc j)
          (if (e.id == id) && (e.queue == queue) then v.quickdel es j else es)
  ]

  -- The loop over the timeouts, up to the first match.
  unfoldable pub find_timeout : DataRq → List PullTimeoutInfo → ℕ → Option ℕ
  find_timeout rq [] j = none
  find_timeout rq (t ∷ ts) j =
      if (t.id == rq.id) && (t.max_timeout == rq.period_ns)
      then some j
      else find_timeout rq ts (suc j)

  unfoldable pub remove_timeout : DataRq → List PullTimeoutInfo → List PullTimeoutInfo
  unfolding find_timeout
  remove_timeout rq ts = elim (find_timeout rq ts 0) [ none ↦ ts | some j ↦ v.quickdel ts j ]

  unfoldable pub remove_rq : DataRq → Line → Option Line
  unfolding remove_entries remove_timeout
  remove_rq rq line = do
    es ← remove_entries (length line.ctx.queues) rq.id 0 line.ctx.queues
    let ctx : FdCtx = record line.ctx { queues = es }
    let untimed : Option Line = elim line.pull [
      | none ↦ none
      | some info ↦ some (record {
        ctx = ctx;
        pull = some (record info { timeout_info = remove_timeout rq info.timeout_info });
      })
    ]
    if is_pull line && ltb 0 rq.period_ns then untimed else some (record line { ctx = ctx })

  unfoldable pub remove_loop : List DataRq → Line → Option Line
  unfolding remove_rq
  remove_loop [] line = some line
  remove_loop (rq ∷ rqs) line = do line' ← remove_rq rq line; remove_loop rqs line'

  unfoldable pub remove_queue_nolock : List DataRq → Line → Option Line
  unfolding remove_loop set_fd_timeout
  remove_queue_nolock rqs line = do
    line' ← remove_loop rqs line
    if is_pull line' then set_fd_timeout line' else some line'

  -- `io_add_queue`, `io_remove_queue` and `io_modify_queue` of the line, between `pause_poll` and
  -- `resume_poll`.
  unfoldable pub io_add_queue : List DataRq → Line → W → Option (Result × Line × W)
  unfolding add_queue_nolock
  io_add_queue = add_queue_nolock

  unfoldable pub io_remove_queue : List DataRq → Line → Option Line
  unfolding remove_queue_nolock
  io_remove_queue = remove_queue_nolock

  unfoldable pub io_modify_queue : List DataRq → List DataRq → Line → W → Option (Result × Line × W)
  unfolding remove_queue_nolock add_queue_nolock
  io_modify_queue old_rqs new_rqs line w = do
    line' ← remove_queue_nolock old_rqs line
    add_queue_nolock new_rqs line' w
