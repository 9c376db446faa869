-- ===== src/Io/Poll/Timers.antt =====
-- Which descriptors a round of `io_poll` reads.
use hound.Base.{
  ℕ, ◌≤◌, ◌≡◌, Option, some, Bool, true, false, not, ◌&&◌, ◌||◌, if◌then◌else◌, leb, List, [], ◌∷◌,
  count,
}
use hound.Io.Queues.{FdCtx}
use hound.Io.Poll.{Watched, Passed, has_events}

-- A descriptor with events, or whose timer has run out.
abbrev pub is_due : ℕ → Watched → Bool
is_due elapsed d = has_events d.revents || (d.ctx.timeout_enabled && leb d.ctx.timeout_ns elapsed)

abbrev pub due_fds : ℕ → List Watched → List ℕ
due_fds elapsed [] = []
due_fds elapsed (d ∷ ds) =
    if is_due elapsed d then d.fd ∷ due_fds elapsed ds else due_fds elapsed ds

-- No timer is enabled that has not run out.
abbrev pub NoneRunning : ℕ → List Watched → Type 0
NoneRunning elapsed [] = Unit {0}
NoneRunning elapsed (d ∷ ds) =
    ((d.ctx.timeout_enabled && not (leb d.ctx.timeout_ns elapsed)) ≡ false) × NoneRunning elapsed ds

-- What a pass leaves where no poll is interrupted.
pub record ReadsDue {W : Type 0} (elapsed : ℕ) (ds : List Watched) (r : Option (Passed W))
    : Type 0 where
  pub passed : Passed W
  pub returns : r ≡ some passed
  pub all_due : (fd : ℕ) → count fd (due_fds elapsed ds) ≤ count fd passed.read
  pub only_due : NoneRunning elapsed ds → passed.read ≡ due_fds elapsed ds

-- The value of fd_timeout after a timer.
abbrev next_flag : ℕ → FdCtx → Bool → Bool
next_flag elapsed ctx b =
    if ctx.timeout_enabled then (if leb ctx.timeout_ns elapsed then true else b) else false
