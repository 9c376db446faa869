-- ===== src/Io/Queues/Timer.antt =====
-- `set_fd_timeout`: the timer of a file descriptor in pull mode.
use hound.Base.{
  ℕ, suc, ◌≡◌, refl, Option, some, if◌then◌else◌, ltb, List, [], ◌∷◌, map, length, min, arith,
  lt→ltb,
}
use hound.Io.Pull.{PullTimeoutInfo, PullInfo, no_timeout}
use hound.Io.Pull.Schedule.{least}
use hound.Io.Queues.{Line, set_fd_timeout, min_loop}
use hound.Io.Queues.Counts.{timings}

-- The timer of the descriptor is the shortest timeout.
pub record Timed (line : Line) : Type 0 where
  pub enabled : line.ctx.timeout_enabled ≡ ltb 0 (length (timings line))
  pub shortest :
      line.ctx.timeout_ns ≡ least no_timeout (map (λ t. t.current_timeout) (timings line))

min_loop_lem :
    (ts : List PullTimeoutInfo) (bound : ℕ)
    → min_loop ts bound ≡ least bound (map (λ t. t.current_timeout) ts)
unfolding min_loop
min_loop_lem [] bound = refl
min_loop_lem (t ∷ ts) bound = min_loop_lem ts (min bound t.current_timeout)

timeout_lem :
    (ts : List PullTimeoutInfo)
    → (if ltb 0 (length ts) then min_loop ts no_timeout else no_timeout)
      ≡ least no_timeout (map (λ t. t.current_timeout) ts)
timeout_lem [] = refl
timeout_lem (t ∷ ts) =
    rw (lt→ltb 0 (suc (length ts)) (omega arith)) (min_loop_lem (t ∷ ts) no_timeout)

-- The timer is set, and all else stays.
pub record TimerSet (line : Line) (r : Option Line) : Type 0 where
  pub line' : Line
  pub returns : r ≡ some line'
  pub timer : Timed line'
  pub same_drv : line'.ctx.drv ≡ line.ctx.drv
  pub same_queues : line'.ctx.queues ≡ line.ctx.queues
  pub same_pull : line'.pull ≡ line.pull

pub set_fd_timeout_lem :
    (line : Line) (info : PullInfo) → line.pull ≡ some info → TimerSet line (set_fd_timeout line)
unfolding set_fd_timeout
set_fd_timeout_lem line info e =
    let any = ltb 0 (length info.timeout_info) in
    let timeout = if any then min_loop info.timeout_info no_timeout else no_timeout in
    let line' : Line = record line {
      ctx = record line.ctx { timeout_enabled = any; timeout_ns = timeout };
    } in
    record {
      line' = line';
      returns = rw (set_fd_timeout, e);
      timer = record { enabled = rw (e); shortest = rw (e) (timeout_lem info.timeout_info) };
      same_drv = refl;
      same_queues = refl;
      same_pull = refl;
    }
