-- ===== src/Io/Fds/Fail.antt =====
-- `io_add_fd` where it fails.
use hound.Base.{
  ℕ, ◌≡◌, refl, ap, sym, ◌∙◌, Option, none, some, some_inj, Bool, true, false, ◌&&◌, ◌==◌,
  if◌then◌else◌, List, [], arith, >>=-eq-some, ◌⊎◌, inl, inr,
}
use hound.Err.{HoundErr}
use hound.Driver.Calls.{Result, good, is_ok, DataRq}
use hound.Driver.Descs.{DriverInfo, driver_is_pull_mode}
use hound.Io.Calls.{Vecs, IsVecs}
use hound.Io.Pull.{no_timeout}
use hound.Io.Queues.{FdCtx}
use hound.Io.Fds.{
  PollFd, Slot, Ios, add_queue_at, remove_queue_at, put_fd, start_queue, add_fd_queue, io_add_fd,
}

-- The descriptors, their `fdctx` and the pull timeouts are the same.
pub record Same (ios ios' : Ios) : Type 0 where
  pub fds : ios'.fds ≡ ios.fds
  pub ctx : ios'.ctx ≡ ios.ctx
  pub pull_map : ios'.pull_map ≡ ios.pull_map

branch :
    {R : Type 0} (b : Bool) (x y : Option R) (r : R)
    → (if b then x else y) ≡ some r
    → ((b ≡ true) × (x ≡ some r)) ⊎ ((b ≡ false) × (y ≡ some r))
branch true x y r e = inl (refl, e)
branch false x y r e = inr (refl, e)

module _ {W : Type 0} (v : Vecs W) (l : IsVecs v) where
  start_queue-good :
      (fd : ℕ) (rqs : List DataRq) (queue : ℕ) (ios : Ios) (w : W) (r : Result × Ios × W)
      → start_queue v fd rqs queue ios w ≡ some r
      → r.0 ≡ good
  unfolding start_queue
  start_queue-good fd rqs queue ios w r e =
      let ((err, ios', w'), added, e₁) = >>=-eq-some (add_queue_at v fd rqs queue ios w) _ e in
      let (ios'', removed, e₂) =
        >>=-eq-some (if is_ok err then some ios' else remove_queue_at v fd rqs queue ios')
          (λ x. some (good, x, w')) e₁ in
      ap (λ (x : Result × Ios × W). x.0) (sym (some_inj e₂))

  add_fd_queue_fails :
      (put_fails : Bool) (fd : ℕ) (drv : DriverInfo) (rqs : List DataRq) (queue : ℕ) (ios : Ios)
      (w : W) (r : Result × Ios × W)
      → add_fd_queue v put_fails fd drv rqs queue ios w ≡ some r
      → is_ok r.0 ≡ false
      → (r.1.fds ≡ v.pop ios.fds) × (r.1.ctx ≡ v.pop ios.ctx) × (r.1.pull_map ≡ ios.pull_map)
  unfolding add_fd_queue
  add_fd_queue_fails put_fails fd drv rqs queue ios w r e bad =
      elim (branch (driver_is_pull_mode drv && put_fails) _
        (start_queue v fd rqs queue (put_fd drv fd ios) w) r e) [
          | inl (failed, x) ↦
              let back = sym (some_inj x) in
              (ap (λ y. y.1.fds) back, ap (λ y. y.1.ctx) back, ap (λ y. y.1.pull_map) back)
          | inr (fine, started) ↦ absurd (
              ground (
                arith,
                ap is_ok (start_queue-good fd rqs queue (put_fd drv fd ios) w r started),
                bad,
              ))
        ]

  -- Where `io_add_fd` reports an error, the descriptors with their `fdctx` and the pull timeouts are as
  -- before.
  pub io_add_fd_fails :
      (put_fails : Bool) (fd : ℕ) (drv : DriverInfo) (rqs : List DataRq) (queue : ℕ) (ios : Ios)
      (w : W) (r : Result × Ios × W)
      → io_add_fd v put_fails fd drv rqs queue ios w ≡ some r
      → is_ok r.0 ≡ false
      → Same ios r.1
  unfolding io_add_fd
  io_add_fd_fails put_fails fd drv rqs queue ios w r e bad =
      let pfd : PollFd = record { fd = fd; events = record { pollin = true; other = true } } in
      let ctx : FdCtx = record {
        drv = drv;
        timeout_enabled = false;
        timeout_ns = no_timeout;
        queues = [];
      } in
      let slot : Slot = record { ctx = ctx; queues_live = true } in
      let p = v.pushp ios.fds pfd w in
      let q = v.pushp ios.ctx slot p.2 in
      let ios₁ : Ios = record ios { fds = p.1; ctx = q.1 } in
      let rest = add_fd_queue v put_fails fd drv rqs queue ios₁ q.2 in
      elim (branch (fd == 0) none _ r e) [
        | inl (z, x) ↦ cc
        | inr (nz, e₁) ↦
            elim (branch p.0 _ (some (Result.library HoundErr.oom, record ios { fds = p.1 }, p.2)) r
              e₁) [
                | inl (ok, e₂) ↦ elim (branch q.0 rest _ r e₂) [
                  | inl (ok', e₃) ↦
                      let (fds, slots, same_map) =
                        add_fd_queue_fails put_fails fd drv rqs queue ios₁ q.2 r e₃ bad in
                      record {
                        fds = fds ∙ ap v.pop (l.push_appends ios.fds pfd w ok) ∙ l.pops ios.fds pfd;
                        ctx =
                            slots
                            ∙ ap v.pop (l.push_appends ios.ctx slot p.2 ok')
                            ∙ l.pops ios.ctx slot;
                        pull_map = same_map;
                      }
                  | inr (full, x) ↦
                      let back = sym (some_inj x) in
                      record {
                        fds =
                            ap (λ y. y.1.fds) back
                            ∙ ap v.pop (l.push_appends ios.fds pfd w ok)
                            ∙ l.pops ios.fds pfd;
                        ctx = ap (λ y. y.1.ctx) back ∙ l.push_keeps ios.ctx slot p.2 full;
                        pull_map = ap (λ y. y.1.pull_map) back;
                      }
                ]
                | inr (full, x) ↦
                    let back = sym (some_inj x) in
                    record {
                      fds = ap (λ y. y.1.fds) back ∙ l.push_keeps ios.fds pfd w full;
                      ctx = ap (λ y. y.1.ctx) back;
                      pull_map = ap (λ y. y.1.pull_map) back;
                    }
              ]
      ]
