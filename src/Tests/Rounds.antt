-- ===== src/Tests/Rounds.antt =====
-- Rounds of the poll loop.
use hound.Base.{ℕ, ◌≡◌, refl, Option, none, some, true, false, Bool, List, [], ◌∷◌}
use hound.Driver.Calls.{good}
use hound.Driver.Descs.{DriverInfo}
use hound.Io.Calls.{Events}
use hound.Io.Poll.{OpPoll, Watched, run_timer, wants_read, io_read, read_fds, wait_loop}
use hound.Tests.Lines.{drv}

abbrev answer : ℕ → DriverInfo → Events → ℕ → Unit {0} → Option (OpPoll (Unit {0}))
answer fd d e now w = some (record {
  err = good;
  next_events = record { pollin = true; other = false };
  timeout = some 40;
  world = w;
})

abbrev watched : ℕ → Bool → Bool → ℕ → Watched
watched fd input timer ns = record {
  fd = fd;
  events = record { pollin = true; other = false };
  revents = record { pollin = input; other = false };
  ctx = record { drv = drv; timeout_enabled = timer; timeout_ns = ns; queues = [] };
}

abbrev fds : List Watched
fds = watched 5 false true 30 ∷ watched 6 false true 90 ∷ watched 7 true false 0 ∷ []

-- The timer of 6 has not run out, but it is read after 5, whose timer has.
reads_too_early :
    (elim (read_fds answer 50 1050 fds (some false) tt) [ none ↦ [] | some p ↦ p.read ])
    ≡ 5 ∷ 6 ∷ 7 ∷ []
unfolding read_fds run_timer wants_read io_read
reads_too_early = refl

-- At the first descriptor the variable fd_timeout has no value.
no_value : read_fds answer 50 1050 (watched 6 false true 90 ∷ []) none tt ≡ none
unfolding read_fds run_timer wants_read io_read
no_value = refl

-- The shortest of the enabled timers.
shortest_wait :
    wait_loop
      ((watched 5 false true 90).ctx
        ∷ (watched 6 false false 3).ctx
        ∷ (watched 7 true true 60).ctx
        ∷ [])
      false
      1000
    ≡ some 60
unfolding wait_loop
shortest_wait = refl
