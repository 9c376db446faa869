-- ===== src/Io/Queues/Restore.antt =====
-- `io_remove_queue` after `io_add_queue`, and `io_modify_queue`, where the memory does not run out.
use hound.Base.{ℕ, ◌+◌, ◌-◌, ◌≡◌, Option, some, true, false, ◌==◌, if◌then◌else◌, List, []}
use hound.Driver.Calls.{Result, good, DataRq}
use hound.Io.Calls.{Vecs}
use hound.Io.Queues.{Line, is_pull, io_add_queue, io_remove_queue}
use hound.Io.Queues.Counts.{bit, entries, timeouts, timings}
use hound.Io.Queues.Timer.{Timed}
use hound.Io.Queues.Unqueue.{has_id, timed}
use hound.Io.Queues.Grown.{owned}

-- The queue has just one entry for each ID of the requests.
abbrev pub Registered : ℕ → List DataRq → Line → Type 0
Registered queue rqs line = (id : ℕ) → entries id queue line.ctx.queues ≡ bit (has_id id rqs)

-- The same entries and timeouts, each as often.
pub record SameCounts (line line' : Line) : Type 0 where
  pub same_entries : (id q : ℕ) → entries id q line'.ctx.queues ≡ entries id q line.ctx.queues
  pub same_timeouts :
      (id period : ℕ) → timeouts id period (timings line') ≡ timeouts id period (timings line)

-- A queue that is added and removed again.
pub record AddedAndRemoved {W : Type 0} (v : Vecs W) (queue : ℕ) (rqs : List DataRq) (line : Line)
    (w : W) : Type 0 where
  pub added : Line
  pub world : W
  pub adds : io_add_queue v queue rqs line w ≡ some (good, added, world)
  pub registered : Registered queue rqs added
  pub removed : Line
  pub removes : io_remove_queue v queue rqs added ≡ some removed
  pub restored : SameCounts line removed

-- What `io_modify_queue` leaves.
pub record Modified {W : Type 0} (queue : ℕ) (old_rqs new_rqs : List DataRq) (line : Line)
    (r : Option (Result × Line × W)) : Type 0 where
  pub line' : Line
  pub world : W
  pub returns : r ≡ some (good, line', world)
  pub registered : Registered queue new_rqs line'
  pub others_same :
      (id q : ℕ)
      → (queue == q) ≡ false
      → entries id q line'.ctx.queues ≡ entries id q line.ctx.queues
  pub timeouts_moved :
      (id period : ℕ)
      → timeouts id period (timings line')
        ≡ timeouts id period (timings line)
          - (if is_pull line then timed id period old_rqs else 0)
          + (if is_pull line then timed id period (owned 0 [] new_rqs) else 0)
  pub timer : is_pull line ≡ true → Timed line'
