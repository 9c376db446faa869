-- ===== src/Tests/Descriptors.antt =====
-- Descriptors added to and removed from the poll loop.
use hound.Base.{◌≡◌, refl, arith, List, [], ◌∷◌, ◌++◌, map, some, none, true, false}
use hound.Err.{HoundErr}
use hound.Driver.Calls.{Result}
use hound.Driver.Descs.{driver_is_pull_mode}
use hound.Io.Fds.{PollFd, Slot, Ios, add_fd_queue, io_add_fd, io_remove_fd}
use hound.Io.Fds.Zip.{IsAligned}
use hound.Io.Fds.Remove.{FdRemoved, io_remove_fd_lem}
use hound.Io.Fds.Add.{FdAdded, new_pfd, new_slot, io_add_fd_lem}
use hound.Io.Fds.Fail.{Same, io_add_fd_fails}
use hound.Tests.Lines.{vecs, vecs-IsVecs, memory, drv, rqs}

abbrev pairs : List (PollFd × Slot)
pairs = (new_pfd 5, new_slot drv) ∷ (new_pfd 6, new_slot drv) ∷ []

abbrev three_fds : Ios
three_fds = record {
  fds = new_pfd 4 ∷ map (λ x. x.0) (pairs ++ ((new_pfd 7, new_slot drv) ∷ []));
  ctx = map (λ x. x.1) (pairs ++ ((new_pfd 7, new_slot drv) ∷ []));
  pull_map = λ fd. none;
}

three-IsAligned : IsAligned three_fds (new_pfd 4) (pairs ++ ((new_pfd 7, new_slot drv) ∷ []))
three-IsAligned = record { fds = refl; ctx = refl }

remove_fd_example :
    FdRemoved 5 0 three_fds
      (new_pfd 4)
      pairs
      (new_pfd 7, new_slot drv)
      (io_remove_fd vecs 5 three_fds)
remove_fd_example =
    io_remove_fd_lem vecs vecs-IsVecs 5 0 three_fds (new_pfd 4) pairs (new_pfd 7, new_slot drv)
      three-IsAligned refl

add_fd_example :
    FdAdded 9 drv rqs 1
      (new_pfd 4)
      (pairs ++ ((new_pfd 7, new_slot drv) ∷ []))
      (io_add_fd vecs false 9 drv rqs 1 three_fds tt)
add_fd_example =
    io_add_fd_lem vecs vecs-IsVecs memory 9 drv rqs 1 three_fds tt (new_pfd 4)
      (pairs ++ ((new_pfd 7, new_slot drv) ∷ [])) (omega arith) three-IsAligned
      (omega arith, (omega arith, (omega arith, tt)))

-- The map has no memory for the entry of the driver.
refused_add :
    io_add_fd vecs true 9 drv rqs 1 three_fds tt ≡ some (Result.library HoundErr.oom, three_fds, tt)
unfolding io_add_fd add_fd_queue driver_is_pull_mode
refused_add = refl

fail_fd_example : Same three_fds three_fds
fail_fd_example =
    io_add_fd_fails vecs vecs-IsVecs true 9 drv rqs 1 three_fds tt
      (Result.library HoundErr.oom, three_fds, tt) refused_add refl
