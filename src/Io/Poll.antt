-- ===== src/Io/Poll.antt =====
-- The rounds of `io_poll` of src/core/io.c, with `io_read`, `populate_timespec` and `need_to_pause`.
-- `ppoll`, the clock and the `poll` operation of a driver answer as arguments say.
pub mod Timers
use hound.Base.{
  ℕ, zero, suc, ◌/◌, ◌%◌, Option, none, some, Bool, true, false, not, ◌&&◌, ◌||◌, ◌==◌,
  if◌then◌else◌, ltb, leb, min, List, [], ◌∷◌, map, sub_size, ◌>>=◌,
}
use hound.Err.{HoundErr}
use hound.Driver.Calls.{Result, good, is_ok}
use hound.Driver.Descs.{DriverInfo}
use hound.Io.Calls.{Events}
use hound.Io.Pull.{no_timeout}
use hound.Io.Queues.{FdCtx}

-- The loop over the timers; `none` stands for the NULL of a wait without end.
unfoldable pub wait_loop : List FdCtx → Bool → ℕ → Option ℕ
wait_loop [] have_timeout min_timeout = if have_timeout then some min_timeout else none
wait_loop (ctx ∷ ctxs) have_timeout min_timeout =
    if ctx.timeout_enabled
    then wait_loop ctxs true (min min_timeout ctx.timeout_ns)
    else wait_loop ctxs have_timeout min_timeout

-- `struct timespec`.
pub record Timespec : Type 0 where
  pub tv_sec : ℕ
  pub tv_nsec : ℕ

abbrev pub nsec_per_sec : ℕ
nsec_per_sec = 1000000000

unfoldable pub populate_timespec : ℕ → Timespec
populate_timespec ts = record { tv_sec = ts / nsec_per_sec; tv_nsec = ts % nsec_per_sec }

-- The timeout that the next `ppoll` gets.
unfoldable pub ppoll_timeout : List FdCtx → Option Timespec
unfolding wait_loop populate_timespec
ppoll_timeout ctxs = do ns ← wait_loop ctxs false no_timeout; some (populate_timespec ns)

-- What `poll` of a driver answers: its result, `*next_events`, and the timeout where it enables one.
pub record OpPoll (W : Type 0) : Type 0 where
  pub err : Result
  pub next_events : Events
  pub timeout : Option ℕ
  pub world : W

-- A descriptor: `events`, `revents` of `ppoll`, and its `fdctx`.
pub record Watched : Type 0 where
  pub fd : ℕ
  pub events : Events
  pub revents : Events
  pub ctx : FdCtx

abbrev pub has_events : Events → Bool
has_events e = e.pollin || e.other

-- The timer of a descriptor after a wait, and the local variable fd_timeout; its `none` is the value of
-- the variable before it is first assigned.
unfoldable pub run_timer : ℕ → FdCtx → Option Bool → FdCtx × Option Bool
run_timer elapsed ctx fd_timeout =
    if ctx.timeout_enabled
    then (if leb ctx.timeout_ns elapsed
        then (record ctx { timeout_enabled = false }, some true)
        else (record ctx { timeout_ns = sub_size ctx.timeout_ns elapsed }, fd_timeout))
    else (ctx, some false)

-- `pfd->revents == 0 && !fd_timeout`, negated.
unfoldable pub wants_read : Events → Option Bool → Option Bool
wants_read revents fd_timeout = if has_events revents then some true else fd_timeout

-- What a pass over the descriptors leaves, with those that were read.
pub record Passed (W : Type 0) : Type 0 where
  pub fds : List Watched
  pub read : List ℕ
  pub fd_timeout : Option Bool
  pub world : W

-- What `ppoll` answers: the number of descriptors with events, or an error by its `errno`.
pub data Ppoll : Type 0 where
  ready : ℕ → Ppoll
  interrupted_wait no_memory io_failure other_failure : Ppoll

module _ {W : Type 0} (op_poll : ℕ → DriverInfo → Events → ℕ → W → Option (OpPoll W)) where
  unfoldable pub io_read : ℕ → Watched → W → Option (Result × Watched × W)
  io_read now d w = do
    answer ← op_poll d.fd d.ctx.drv d.revents now w
    let enabled : Bool = elim answer.timeout [ none ↦ false | some ns ↦ true ]
    let ns : ℕ = elim answer.timeout [ none ↦ no_timeout | some ns ↦ ns ]
    let ctx : FdCtx = record d.ctx { timeout_enabled = enabled; timeout_ns = ns }
    some (answer.err, record d { events = answer.next_events; ctx = ctx }, answer.world)

  -- `err == HOUND_INTR`.
  abbrev pub is_intr : Result → Bool
  is_intr (Result.library HoundErr.intr) = true
  is_intr _ = false

  -- The loop over the descriptors, which a poll that is interrupted ends.
  unfoldable pub read_fds : ℕ → ℕ → List Watched → Option Bool → W → Option (Passed W)
  unfolding run_timer wants_read io_read
  read_fds elapsed now [] fd_timeout w =
      some (record { fds = []; read = []; fd_timeout = fd_timeout; world = w })
  read_fds elapsed now (d ∷ ds) fd_timeout w = do
    let timed = run_timer elapsed d.ctx fd_timeout
    let d' : Watched = record d { ctx = timed.0 }
    wanted ← wants_read d.revents timed.1
    let answered = io_read now d' w
    (err, d'', w') ← if wanted then answered else some (good, d', w)
    let rest = read_fds elapsed now ds timed.1 w'
    let ended : Passed W = record { fds = ds; read = []; fd_timeout = timed.1; world = w' }
    p ← if wanted && is_intr err then some ended else rest
    some (record p { fds = d'' ∷ p.fds; read = if wanted then d.fd ∷ p.read else p.read })

  -- A round after the wait: `pipe_in` tells whether the pipe has data, which `need_to_pause` reads. The
  -- variable fd_timeout keeps its value between rounds.
  unfoldable pub poll_round :
      Ppoll → Bool → ℕ → ℕ → List Watched → Option Bool → W → Option (Passed W)
  unfolding read_fds
  poll_round answer pipe_in last_poll now ds fd_timeout w =
      let skipped : Passed W = record { fds = ds; read = []; fd_timeout = fd_timeout; world = w } in
      let passed = read_fds (sub_size now last_poll) now ds fd_timeout w in
      elim answer [
        | ready n ↦ if ltb 0 n && pipe_in then some skipped else passed
        | interrupted_wait ↦ some skipped
        | no_memory ↦ passed
        | io_failure ↦ passed
        | other_failure ↦ none
      ]
