-- ===== src/Io/Fds/Remove.antt =====
-- `io_remove_fd`: the last descriptor moves to the place of the removed one, with its `fdctx`, whose
-- vector of queues is the one that is freed.
use hound.Base.{
  ℕ, zero, suc, ◌-◌, ◌≤◌, ◌≡◌, refl, ap, sym, ◌∙◌, Option, none, some, Bool, true, false, ◌==◌,
  if◌then◌else◌, List, [], ◌∷◌, ◌++◌, map, length, get_elem?, set, arith, lt→ltb, length-append,
}
use hound.Driver.Descs.{driver_is_pull_mode}
use hound.Io.Calls.{Vecs, IsVecs}
use hound.Io.Pull.{PullMap, put}
use hound.Io.Fds.{PollFd, Slot, Ios, get_fdctx_index, destroy_queues, io_remove_fd}
use hound.Io.Fds.Zip.{
  IsAligned, StandsAt, get_fd_index_lem, get_elem?-StandsAt, map-append_last, map-set, length-map,
  get_elem?-of_lt_map,
}

abbrev pub with_freed : Slot → Slot
with_freed s = record s { queues_live = false }

-- What `io_remove_fd` leaves.
pub record FdRemoved (fd i : ℕ) (ios : Ios) (pipe : PollFd) (xs : List (PollFd × Slot))
    (last : PollFd × Slot) (r : Option Ios) : Type 0 where
  pub ios' : Ios
  pub returns : r ≡ some ios'
  pub aligned : IsAligned ios' pipe (set xs i (last.0, with_freed last.1))
  pub pull_map : (fd' : ℕ) → (fd == fd') ≡ false → ios'.pull_map fd' ≡ ios.pull_map fd'

destroy_queues-set :
    (slots : List Slot) (i : ℕ) (z : Slot)
    → destroy_queues (set slots i z) i ≡ set slots i (with_freed z)
unfolding destroy_queues
destroy_queues-set [] i z = refl
destroy_queues-set (s ∷ slots) zero z = refl
destroy_queues-set (s ∷ slots) (suc i) z = ap (λ ss. s ∷ ss) (destroy_queues-set slots i z)

pub get_fdctx_index_lem : (i : ℕ) → get_fdctx_index (suc i) ≡ some i
unfolding get_fdctx_index
get_fdctx_index_lem i =
    rw (lt→ltb 0 (suc i) (omega arith)) (ap some {x = suc i - 1} {y = i} (omega arith))

pull_map_other :
    (pull : Bool) (m : PullMap) (fd fd' : ℕ)
    → (fd == fd') ≡ false
    → (if pull then put m fd none else m) fd' ≡ m fd'
pull_map_other true m fd fd' e = rw (e) refl
pull_map_other false m fd fd' e = refl

-- `io_remove_fd` of a descriptor, where the others after the pipe have an `fdctx` each in the same order,
-- has no fault and keeps them so: the last one moves to the place of the removed one with its `fdctx`,
-- and it is the vector of queues of that `fdctx` that is freed, not that of the removed one, unless the
-- removed one is the last (then `set` changes nothing). The pull timeouts of all others stay.
pub io_remove_fd_lem :
    {W : Type 0} (v : Vecs W) (l : IsVecs v) (fd i : ℕ) (ios : Ios) (pipe : PollFd)
    (xs : List (PollFd × Slot)) (last : PollFd × Slot)
    → IsAligned ios pipe (xs ++ (last ∷ []))
    → StandsAt fd i (xs ++ (last ∷ []))
    → FdRemoved fd i ios pipe xs last (io_remove_fd v fd ios)
unfolding io_remove_fd
io_remove_fd_lem v l fd i ios pipe xs last a at =
    let n = get_elem?-StandsAt fd i (xs ++ (last ∷ [])) at in
    let small : i ≤ length xs = omega (arith, n, length-append {0} xs (last ∷ [])) in
    let (x, e, e') = get_elem?-of_lt_map (λ x. x.1) (xs ++ (last ∷ [])) i n in
    let found : get_elem? ios.ctx i ≡ some x.1 = ap (λ ss. get_elem? ss i) a.ctx ∙ e' in
    let fds : v.quickdel ios.fds (suc i)
        ≡ pipe ∷ map (λ x. x.0) (set xs i (last.0, with_freed last.1)) =
      ap (λ ps. v.quickdel ps (suc i))
        (a.fds ∙ ap (λ ps. pipe ∷ ps) (map-append_last (λ x. x.0) xs last))
      ∙ l.moves (pipe ∷ map (λ x. x.0) xs) last.0 (suc i) (omega (arith, length-map (λ x. x.0) xs))
      ∙ ap (λ ps. pipe ∷ ps) (sym (map-set (λ x. x.0) xs i (last.0, with_freed last.1))) in
    let ctx : destroy_queues (v.quickdel ios.ctx i) i
        ≡ map (λ x. x.1) (set xs i (last.0, with_freed last.1)) =
      ap (λ ss. destroy_queues (v.quickdel ss i) i) (a.ctx ∙ map-append_last (λ x. x.1) xs last)
      ∙ ap (λ ss. destroy_queues ss i)
          (l.moves (map (λ x. x.1) xs) last.1 i (omega (arith, length-map (λ x. x.1) xs)))
      ∙ destroy_queues-set (map (λ x. x.1) xs) i last.1
      ∙ sym (map-set (λ x. x.1) xs i (last.0, with_freed last.1)) in
    let pull = driver_is_pull_mode x.1.ctx.drv in
    record {
      ios' = record {
        fds = v.quickdel ios.fds (suc i);
        ctx = destroy_queues (v.quickdel ios.ctx i) i;
        pull_map = if pull then put ios.pull_map fd none else ios.pull_map;
      };
      returns =
          rw
            (
              io_remove_fd,
              get_fd_index_lem fd i ios pipe (xs ++ (last ∷ [])) a at,
              get_fdctx_index_lem i,
              found,
            )
            refl;
      aligned = record { fds = fds; ctx = ctx };
      pull_map = λ fd' other. pull_map_other pull ios.pull_map fd fd' other;
    }
