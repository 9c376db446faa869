-- ===== src/Io/Fds/Add.antt =====
-- `io_add_fd` where the memory does not run out.
use hound.Base.{
  ℕ, ◌+◌, ◌≡◌, ◌≢◌, refl, ap, sym, subst, ◌∙◌, Option, none, some, Bool, true, false, ◌&&◌, ◌==◌,
  if◌then◌else◌, List, [], ◌∷◌, ◌++◌, map, length, get_elem?, set, arith, Bool-cases, inl, inr,
  ne→==, ==_self,
}
use hound.Driver.Calls.{Result, good, DataRq}
use hound.Driver.Descs.{DriverInfo, driver_is_pull_mode}
use hound.Io.Calls.{Vecs, IsVecs}
use hound.Io.Pull.{PullTimeoutInfo, PullInfo, PullMap, no_timeout}
use hound.Io.Queues.{Line}
use hound.Io.Queues.Counts.{bit, entries, timeouts}
use hound.Io.Queues.Unqueue.{has_id, timed}
use hound.Io.Queues.Grown.{owned}
use hound.Io.Queues.Enqueue.{add_queue_nolock_lem}
use hound.Io.Fds.{
  PollFd, Slot, Ios, get_fdctx, line_of, with_line, put_back, put_fd, add_queue_at, start_queue,
  add_fd_queue, io_add_fd,
}
use hound.Io.Fds.Zip.{IsAligned, StandsAt, get_fd_index_lem, map-append_last}
use hound.Io.Fds.Remove.{get_fdctx_index_lem}

-- A descriptor that is not there.
abbrev pub Absent : ℕ → List (PollFd × Slot) → Type 0
Absent fd [] = Unit {0}
Absent fd (x ∷ xs) = ((x.0).fd ≢ fd) × Absent fd xs

Absent-StandsAt :
    (fd : ℕ) (xs : List (PollFd × Slot)) (x : PollFd × Slot)
    → Absent fd xs
    → (x.0).fd ≡ fd
    → StandsAt fd (length xs) (xs ++ (x ∷ []))
Absent-StandsAt fd [] x absent e = e
Absent-StandsAt fd (y ∷ xs) x (apart, absent) e = (apart, Absent-StandsAt fd xs x absent e)

module _ {A B : Type 0} (f : A → B) where
  get_last : (xs : List A) (x : A) → get_elem? (map f (xs ++ (x ∷ []))) (length xs) ≡ some (f x)
  get_last [] x = refl
  get_last (y ∷ xs) x = get_last xs x

  set_last :
      (xs : List A) (x z : A) (fz : B)
      → f z ≡ fz
      → set (map f (xs ++ (x ∷ []))) (length xs) fz ≡ map f (xs ++ (z ∷ []))
  set_last [] x z fz e = ap (λ y. y ∷ []) (sym e)
  set_last (y ∷ xs) x z fz e = ap (λ ys. f y ∷ ys) (set_last xs x z fz e)

  set_last_keeps :
      (xs : List A) (x z : A) → f x ≡ f z → map f (xs ++ (x ∷ [])) ≡ map f (xs ++ (z ∷ []))
  set_last_keeps [] x z e = ap (λ y. y ∷ []) e
  set_last_keeps (y ∷ xs) x z e = ap (λ ys. f y ∷ ys) (set_last_keeps xs x z e)

abbrev pub new_pfd : ℕ → PollFd
new_pfd fd = record { fd = fd; events = record { pollin = true; other = true } }

abbrev pub new_slot : DriverInfo → Slot
new_slot drv = record {
  ctx = record { drv = drv; timeout_enabled = false; timeout_ns = no_timeout; queues = [] };
  queues_live = true;
}

abbrev new_info : PullInfo
new_info = record { last_pull = 0; timeout_info = [] }

abbrev timings_of : Option PullInfo → List PullTimeoutInfo
timings_of none = []
timings_of (some info) = info.timeout_info

-- What `io_add_fd` leaves.
pub record FdAdded {W : Type 0} (fd : ℕ) (drv : DriverInfo) (rqs : List DataRq) (queue : ℕ)
    (pipe : PollFd) (xs : List (PollFd × Slot)) (r : Option (Result × Ios × W)) : Type 0 where
  pub ios' : Ios
  pub world : W
  pub returns : r ≡ some (good, ios', world)
  pub line : Line
  pub aligned :
      IsAligned ios' pipe (xs ++ ((new_pfd fd, record { ctx = line.ctx; queues_live = true }) ∷ []))
  pub same_drv : line.ctx.drv ≡ drv
  pub entries_of :
      (id q : ℕ) → entries id q line.ctx.queues ≡ (if queue == q then bit (has_id id rqs) else 0)
  pub timeouts_of :
      driver_is_pull_mode drv ≡ true
      → (info : PullInfo) × (ios'.pull_map fd ≡ some info)
        × ((id period : ℕ)
            → timeouts id period info.timeout_info ≡ timed id period (owned 0 [] rqs))

get_fdctx_last :
    (fd : ℕ) (slot : Slot) (ios : Ios) (pipe : PollFd) (xs : List (PollFd × Slot))
    → IsAligned ios pipe (xs ++ ((new_pfd fd, slot) ∷ []))
    → Absent fd xs
    → get_fdctx fd ios ≡ some (length xs, slot)
unfolding get_fdctx
get_fdctx_last fd slot ios pipe xs a absent =
    let all = xs ++ ((new_pfd fd, slot) ∷ []) in
    let index =
      get_fd_index_lem fd (length xs) ios pipe all a
        (Absent-StandsAt fd xs (new_pfd fd, slot) absent refl) in
    let there : get_elem? ios.ctx (length xs) ≡ some slot =
      ap (λ ss. get_elem? ss (length xs)) a.ctx ∙ get_last (λ x. x.1) xs (new_pfd fd, slot) in
    rw (get_fdctx, index, get_fdctx_index_lem (length xs), there) refl

put_back_at :
    (o : Option PullInfo) (info : PullInfo) (fd : ℕ) (m : PullMap)
    → o ≡ some info
    → put_back o fd m fd ≡ some info
put_back_at o info fd m e = rw (e, ==_self fd) refl

new_timeouts :
    (pull : Bool) (o : Option PullInfo) (id period n : ℕ)
    → pull ≡ true
    → o ≡ some new_info
    → timeouts id period (timings_of o) + (if pull then n else 0) ≡ n
new_timeouts pull o id period n p e = rw (p, e) (omega arith)

put_fd-IsAligned :
    (drv : DriverInfo) (fd : ℕ) (ios : Ios) (pipe : PollFd) (xs : List (PollFd × Slot))
    → IsAligned ios pipe xs
    → IsAligned (put_fd drv fd ios) pipe xs
unfolding put_fd
put_fd-IsAligned drv fd ios pipe xs a = elim (Bool-cases (driver_is_pull_mode drv)) [
  | inl e ↦ rw (put_fd, e) (record { fds = a.fds; ctx = a.ctx })
  | inr e ↦ rw (put_fd, e) a
]

put_fd_at :
    (drv : DriverInfo) (fd : ℕ) (ios : Ios)
    → driver_is_pull_mode drv ≡ true
    → (put_fd drv fd ios).pull_map fd ≡ some new_info
unfolding put_fd
put_fd_at drv fd ios e = rw (put_fd, e, ==_self fd) refl

never : (b : Bool) → (b && false) ≡ false
never b = ground arith

module _ {W : Type 0} (v : Vecs W) (l : IsVecs v)
    (memory : (A : Type 0) (xs : List A) (x : A) (w : W) → (v.pushp xs x w).0 ≡ true) where
  start_queue_lem :
      (fd : ℕ) (drv : DriverInfo) (rqs : List DataRq) (queue : ℕ) (ios : Ios) (w : W)
      (pipe : PollFd) (xs : List (PollFd × Slot))
      → IsAligned ios pipe (xs ++ ((new_pfd fd, new_slot drv) ∷ []))
      → Absent fd xs
      → (driver_is_pull_mode drv ≡ true → ios.pull_map fd ≡ some new_info)
      → FdAdded fd drv rqs queue pipe xs (start_queue v fd rqs queue ios w)
  unfolding start_queue add_queue_at
  start_queue_lem fd drv rqs queue ios w pipe xs a absent pull =
      let found = get_fdctx_last fd (new_slot drv) ios pipe xs a absent in
      let line = line_of (new_slot drv) fd ios in
      let added = add_queue_nolock_lem v l memory queue rqs line w (λ p. (new_info, pull p)) in
      let slot : Slot = record { ctx = added.line'.ctx; queues_live = true } in
      record {
        ios' = with_line fd (length xs) (new_slot drv) added.line' ios;
        world = added.world;
        returns = rw (start_queue, add_queue_at, found, added.returns) refl;
        line = added.line';
        aligned = record {
          fds =
              a.fds
              ∙ ap (λ ps. pipe ∷ ps)
                  (set_last_keeps (λ x. x.0) xs (new_pfd fd, new_slot drv) (new_pfd fd, slot) refl);
          ctx =
              ap (λ ss. set ss (length xs) slot) a.ctx
              ∙ set_last (λ x. x.1) xs (new_pfd fd, new_slot drv) (new_pfd fd, slot) slot refl;
        };
        same_drv = added.same_drv;
        entries_of = λ id q. omega (arith, added.entries_more id q);
        timeouts_of = λ p.
            let (info, e) = added.pulls (ap driver_is_pull_mode added.same_drv ∙ p) in
            (
              info,
              put_back_at (added.line'.pull) info fd ios.pull_map e,
              λ id period.
                  sym (ap (λ o. timeouts id period (timings_of o)) e)
                  ∙ added.timeouts_more id period
                  ∙ new_timeouts (driver_is_pull_mode drv) (ios.pull_map fd) id period
                      (timed id period (owned 0 [] rqs)) p (pull p),
            );
      }

  -- `io_add_fd` of a new descriptor other than 0, where the memory does not run out and the others after
  -- the pipe have an `fdctx` each in the same order, has no fault and succeeds: the descriptor and its
  -- `fdctx` become the last of them; the `fdctx` has one entry of the queue for each ID of the requests
  -- and no others; and a driver in pull mode has just the timeouts of the requests with a positive
  -- period, each under the last ID up to it that comes for the first time.
  pub io_add_fd_lem :
      (fd : ℕ) (drv : DriverInfo) (rqs : List DataRq) (queue : ℕ) (ios : Ios) (w : W)
      (pipe : PollFd) (xs : List (PollFd × Slot))
      → fd ≢ 0
      → IsAligned ios pipe xs
      → Absent fd xs
      → FdAdded fd drv rqs queue pipe xs (io_add_fd v false fd drv rqs queue ios w)
  unfolding io_add_fd add_fd_queue
  io_add_fd_lem fd drv rqs queue ios w pipe xs nonzero a absent =
      let p = v.pushp ios.fds (new_pfd fd) w in
      let q = v.pushp ios.ctx (new_slot drv) p.2 in
      let p_ok = memory PollFd ios.fds (new_pfd fd) w in
      let q_ok = memory Slot ios.ctx (new_slot drv) p.2 in
      let pushed : Ios = record ios { fds = p.1; ctx = q.1 } in
      let fds : p.1 ≡ pipe ∷ map (λ x. x.0) (xs ++ ((new_pfd fd, new_slot drv) ∷ [])) =
        l.push_appends ios.fds (new_pfd fd) w p_ok
        ∙ ap (λ ps. ps ++ (new_pfd fd ∷ [])) a.fds
        ∙ ap (λ ps. pipe ∷ ps) (sym (map-append_last (λ x. x.0) xs (new_pfd fd, new_slot drv))) in
      let ctx : q.1 ≡ map (λ x. x.1) (xs ++ ((new_pfd fd, new_slot drv) ∷ [])) =
        l.push_appends ios.ctx (new_slot drv) p.2 q_ok
        ∙ ap (λ ss. ss ++ (new_slot drv ∷ [])) a.ctx
        ∙ sym (map-append_last (λ x. x.1) xs (new_pfd fd, new_slot drv)) in
      let started =
        start_queue_lem fd drv rqs queue (put_fd drv fd pushed) q.2 pipe xs
          (put_fd-IsAligned drv fd pushed pipe (xs ++ ((new_pfd fd, new_slot drv) ∷ []))
            (record { fds = fds; ctx = ctx }))
          absent (put_fd_at drv fd pushed) in
      let runs : io_add_fd v false fd drv rqs queue ios w
          ≡ start_queue v fd rqs queue (put_fd drv fd pushed) q.2 =
        rw
          (io_add_fd, ne→== fd 0 nonzero, p_ok, q_ok, add_fd_queue, never (driver_is_pull_mode drv))
          refl in
      subst (FdAdded fd drv rqs queue pipe xs) (sym runs) started
