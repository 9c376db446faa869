-- ===== src/Tests/Pauses.antt =====
-- Threads that pause the poll loop.
use hound.Base.{◌≡◌, refl}
use hound.Io.Pause.{
  at_gate, in_loop, idle, changing, System, start_system, wait_for_ready, end_round, pause_round,
  pause_poll, resume_poll, Steps, Held, start, then_held, gate, round, pause, again, resume, done,
  then_step,
}
use hound.Io.Pause.Safety.{paused_until_resume}
use hound.Io.Pause.Progress.{pause_poll_returns}

-- Thread 2 starts the loop, the loop runs, and thread 3 pauses it.
abbrev running : System
running = wait_for_ready (resume_poll 2 (pause_poll 2 start_system))

running-Steps : Steps start_system running
unfolding pause_poll pause_round resume_poll
running-Steps =
    then_step
      (then_step (then_step (done start_system) (pause start_system 2 refl))
        (resume (pause_poll 2 start_system) 2 refl))
      (gate (resume_poll 2 (pause_poll 2 start_system)) refl)

abbrev waiting : System
waiting = pause_poll 3 running

-- Thread 4 asks for a pause as well; the poll thread comes to the gate, and both are let through.
abbrev at_the_gate : System
at_the_gate = end_round (pause_poll 4 waiting)

abbrev paused : System
paused = pause_round 4 (pause_round 3 (wait_for_ready at_the_gate))

gate-Held : Held waiting at_the_gate
unfolding pause_poll pause_round resume_poll wait_for_ready
gate-Held =
    then_held (then_held (start waiting) (pause waiting 4 refl)) (round (pause_poll 4 waiting) refl)

paused-Held : Held waiting paused
unfolding pause_poll pause_round resume_poll wait_for_ready end_round
paused-Held =
    then_held
      (then_held (then_held gate-Held (gate at_the_gate refl))
        (again (wait_for_ready at_the_gate) 3 refl))
      (again (pause_round 3 (wait_for_ready at_the_gate)) 4 refl)

facts :
    (running.modifiers 3 ≡ idle) × (paused.modifiers 3 ≡ changing) × (at_the_gate.poll ≡ at_gate)
unfolding pause_poll pause_round resume_poll wait_for_ready end_round
facts = (refl, refl, refl)

changing_example : (paused.poll ≡ at_gate) × ((wait_for_ready paused).poll ≡ at_gate)
changing_example =
    paused_until_resume {s = running} {t = paused} 3 running-Steps facts.0 paused-Held facts.1

pausing_example : (pause_round 3 (wait_for_ready at_the_gate)).modifiers 3 ≡ changing
pausing_example =
    pause_poll_returns {s = running} {t = at_the_gate} {u = wait_for_ready at_the_gate} 3
      running-Steps facts.0 gate-Held facts.2 (start (wait_for_ready at_the_gate))

-- When thread 3 resumes the loop, it runs while thread 4 still changes s_ios.
abbrev both : System
both = wait_for_ready (resume_poll 3 paused)

runs_while_changing : (both.poll ≡ in_loop) × (both.modifiers 4 ≡ changing)
unfolding pause_poll pause_round resume_poll wait_for_ready end_round
runs_while_changing = (refl, refl)
