-- ===== src/Io/Pause/Progress.antt =====
-- A thread that waits in `pause_poll` gets through.
use hound.Base.{ℕ, ◌≡◌, refl, false, ==_self}
use hound.Io.Pause.{
  at_gate, idle, changing, System, start_system, wait_for_ready, end_round, pause_round, pause_poll,
  Steps, Held, gate, round, pause, again, start, then_held,
}
use hound.Io.Pause.Safety.{IsHeld, Held-IsHeld, pause_poll-IsHeld, Steps-Runs, start-Runs}

-- `current` stays false while nobody resumes the loop.
stays_down : {s t : System} (i : ℕ) → Held s t → IsHeld i s → s.current ≡ false → t.current ≡ false
unfolding end_round pause_poll pause_round wait_for_ready
stays_down i (start s) h e = e
stays_down i (then_held held (gate s at)) h e =
    rw (wait_for_ready, (Held-IsHeld i held h).target) refl
stays_down i (then_held held (round s at)) h e = stays_down i held h e
stays_down i (then_held held (pause s j at)) h e = stays_down i held h e
stays_down i (then_held held (again s j at)) h e = stays_down i held h e

gate_lowers : (s : System) → s.target ≡ false → (wait_for_ready s).current ≡ false
unfolding wait_for_ready
gate_lowers s e = rw (wait_for_ready, e) refl

test_passes : (i : ℕ) (s : System) → s.current ≡ false → (pause_round i s).modifiers i ≡ changing
unfolding pause_round
test_passes i s e = rw (pause_round, e, ==_self i) refl

-- In any system that steps of any number of threads reach: after the `pause_poll` of a thread, as long as
-- no thread calls `resume_poll`, once the poll thread has been through a round of `io_wait_for_ready`,
-- every later test of the thread lets it through, whatever steps come before the round and between the
-- round and the test.
pub pause_poll_returns :
    {s t u : System} (i : ℕ)
    → Steps start_system s
    → s.modifiers i ≡ idle
    → Held (pause_poll i s) t
    → t.poll ≡ at_gate
    → Held (wait_for_ready t) u
    → (pause_round i u).modifiers i ≡ changing
pause_poll_returns {s} {t} {u} i steps idles before at after =
    let h = Held-IsHeld i before (pause_poll-IsHeld i s (Steps-Runs steps start-Runs) idles) in
    let h' =
      Held-IsHeld i (then_held before (gate t at))
        (pause_poll-IsHeld i s (Steps-Runs steps start-Runs) idles) in
    test_passes i u (stays_down i after h' (gate_lowers t h.target))
