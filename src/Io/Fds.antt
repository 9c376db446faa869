-- ===== src/Io/Fds.antt =====
-- The file descriptors of the poll loop: `s_ios` of src/core/io.c with its look-ups, `io_add_fd` and
-- `io_remove_fd`. The descriptor at index 0 is the pipe that stops the loop; the others have an `fdctx`
-- each, at the index before.
pub mod Zip
pub mod Remove
pub mod Add
pub mod Fail
use hound.Base.{
  ℕ, zero, suc, ◌+◌, ◌-◌, Option, none, some, Bool, true, false, not, ◌&&◌, ◌==◌, if◌then◌else◌,
  ltb, List, [], ◌∷◌, length, get_elem?, set, assert, ◌>>=◌, ◌>>◌,
}
use hound.Err.{HoundErr}
use hound.Driver.Calls.{Result, good, is_ok, DataRq}
use hound.Driver.Descs.{DriverInfo, driver_is_pull_mode}
use hound.Io.Calls.{Vecs, Events}
use hound.Io.Pull.{PullInfo, PullMap, put, no_timeout}
use hound.Io.Queues.{FdCtx, Line, add_queue_nolock, remove_queue_nolock}

-- `struct pollfd`, without the answer of `poll`.
pub record PollFd : Type 0 where
  pub fd : ℕ
  pub events : Events

-- An `fdctx`, and whether the storage of its vector of queues is allocated.
pub record Slot : Type 0 where
  pub ctx : FdCtx
  pub queues_live : Bool

-- `s_ios` and `s_pull_map`.
pub record Ios : Type 0 where
  pub fds : List PollFd
  pub ctx : List Slot
  pub pull_map : PullMap

-- The loop of `get_fd_index`; `none` is the failed assertion.
unfoldable pub scan_fds : ℕ → List PollFd → ℕ → Option ℕ
scan_fds fd [] index = none
scan_fds fd (p ∷ fds) index = if p.fd == fd then some index else scan_fds fd fds (suc index)

-- Without the pipe the assertion compares 1 with 0.
unfoldable pub get_fd_index : ℕ → Ios → Option ℕ
unfolding scan_fds
get_fd_index fd ios = elim (ios.fds) [ [] ↦ some 1 | pipe ∷ fds ↦ scan_fds fd fds 1 ]

unfoldable pub get_fdctx_index : ℕ → Option ℕ
get_fdctx_index fd_index = do assert (ltb 0 fd_index); some (fd_index - 1)

-- `get_fdctx`: the index and what is there.
unfoldable pub get_fdctx : ℕ → Ios → Option (ℕ × Slot)
unfolding get_fd_index get_fdctx_index
get_fdctx fd ios = do
  fd_index ← get_fd_index fd ios
  index ← get_fdctx_index fd_index
  slot ← get_elem? ios.ctx index
  some (index, slot)

-- The entry of `s_pull_map` is written back where there is one.
abbrev pub put_back : Option PullInfo → ℕ → PullMap → PullMap
put_back none fd m = m
put_back (some info) fd m = put m fd (some info)

abbrev pub line_of : Slot → ℕ → Ios → Line
line_of slot fd ios = record { ctx = slot.ctx; pull = ios.pull_map fd }

abbrev pub with_line : ℕ → ℕ → Slot → Line → Ios → Ios
with_line fd index slot line ios = record ios {
  ctx = set ios.ctx index (record slot { ctx = line.ctx });
  pull_map = put_back line.pull fd ios.pull_map;
}

-- `xv_destroy(ctx->queues)` of the `fdctx` at an index; past the end it is none of the others.
unfoldable pub destroy_queues : List Slot → ℕ → List Slot
destroy_queues [] index = []
destroy_queues (slot ∷ slots) zero = record slot { queues_live = false } ∷ slots
destroy_queues (slot ∷ slots) (suc index) = slot ∷ destroy_queues slots index

-- The entry of a driver in pull mode in `s_pull_map`.
unfoldable pub put_fd : DriverInfo → ℕ → Ios → Ios
put_fd drv fd ios =
    let info : PullInfo = record { last_pull = 0; timeout_info = [] } in
    if driver_is_pull_mode drv
    then record ios { pull_map = put ios.pull_map fd (some info) }
    else ios

module _ {W : Type 0} (v : Vecs W) where
  -- `add_queue_nolock` and `remove_queue_nolock` at a descriptor.
  unfoldable pub add_queue_at : ℕ → List DataRq → ℕ → Ios → W → Option (Result × Ios × W)
  unfolding get_fdctx
  add_queue_at fd rqs queue ios w = do
    (index, slot) ← get_fdctx fd ios
    assert slot.queues_live
    (err, line, w') ← add_queue_nolock v queue rqs (line_of slot fd ios) w
    some (err, with_line fd index slot line ios, w')

  unfoldable pub remove_queue_at : ℕ → List DataRq → ℕ → Ios → Option Ios
  unfolding get_fdctx
  remove_queue_at fd rqs queue ios = do
    (index, slot) ← get_fdctx fd ios
    assert slot.queues_live
    line ← remove_queue_nolock v queue rqs (line_of slot fd ios)
    some (with_line fd index slot line ios)

  -- `add_queue_nolock` with its undoing in `io_add_fd`, which drops the error.
  unfoldable pub start_queue : ℕ → List DataRq → ℕ → Ios → W → Option (Result × Ios × W)
  unfolding add_queue_at remove_queue_at
  start_queue fd rqs queue ios w = do
    (err, ios', w') ← add_queue_at fd rqs queue ios w
    let removed = remove_queue_at fd rqs queue ios'
    ios'' ← if is_ok err then some ios' else removed
    some (good, ios'', w')

  -- The end of `io_add_fd`, from the entry in `s_pull_map` on; `put_fails` is the answer of `xh_put`.
  unfoldable pub add_fd_queue :
      Bool → ℕ → DriverInfo → List DataRq → ℕ → Ios → W → Option (Result × Ios × W)
  unfolding start_queue put_fd
  add_fd_queue put_fails fd drv rqs queue ios w =
      let undone : Ios = record ios { fds = v.pop ios.fds; ctx = v.pop ios.ctx } in
      let started = start_queue fd rqs queue (put_fd drv fd ios) w in
      if driver_is_pull_mode drv && put_fails
      then some (Result.library HoundErr.oom, undone, w)
      else started

  -- `io_add_fd` between `pause_poll` and `resume_poll`.
  unfoldable pub io_add_fd :
      Bool → ℕ → DriverInfo → List DataRq → ℕ → Ios → W → Option (Result × Ios × W)
  unfolding add_fd_queue
  io_add_fd put_fails fd drv rqs queue ios w =
      let pfd : PollFd = record { fd = fd; events = record { pollin = true; other = true } } in
      let ctx : FdCtx = record {
        drv = drv;
        timeout_enabled = false;
        timeout_ns = no_timeout;
        queues = [];
      } in
      let (fds_ok, fds, w₁) = v.pushp ios.fds pfd w in
      let (ctx_ok, slots, w₂) = v.pushp ios.ctx (record { ctx = ctx; queues_live = true }) w₁ in
      let oom = Result.library HoundErr.oom in
      let rest =
        add_fd_queue put_fails fd drv rqs queue (record ios { fds = fds; ctx = slots }) w₂ in
      if fd == 0
      then none
      else if fds_ok
      then (if ctx_ok then rest else some (oom, record ios { fds = v.pop fds; ctx = slots }, w₂))
      else some (oom, record ios { fds = fds }, w₁)

  -- `io_remove_fd` between `pause_poll` and `resume_poll`: `xv_destroy` frees the vector of queues of what
  -- is at the place of the `fdctx` after `xv_quickdel`; past the end this is the removed one.
  unfoldable pub io_remove_fd : ℕ → Ios → Option Ios
  unfolding get_fd_index get_fdctx_index destroy_queues
  io_remove_fd fd ios = do
    fd_index ← get_fd_index fd ios
    index ← get_fdctx_index fd_index
    slot ← get_elem? ios.ctx index
    let pull_map =
        if driver_is_pull_mode slot.ctx.drv then put ios.pull_map fd none else ios.pull_map
    let slots = v.quickdel ios.ctx index
    some (record {
      fds = v.quickdel ios.fds fd_index;
      ctx = destroy_queues slots index;
      pull_map = pull_map;
    })
