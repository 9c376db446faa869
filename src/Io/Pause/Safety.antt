-- ===== src/Io/Pause/Safety.antt =====
-- The poll loop stands still from a `pause_poll` to the next `resume_poll`.
use hound.Base.{
  ℕ, ◌≡◌, ◌≢◌, refl, ap, sym, ◌∙◌, Bool, true, false, ◌==◌, if◌then◌else◌, Bool-cases, ◌⊎◌, inl,
  inr,
}
use hound.Io.Pause.{
  PollAt, at_gate, in_loop, ModifierAt, idle, pausing, changing, System, move_to, start_system,
  wait_for_ready, end_round, pause_round, pause_poll, resume_poll, Step, Steps, Held, gate, round,
  pause, again, resume, done, then_step, start, then_held,
}

-- The poll thread is in the loop only with s_poll_active_current.
abbrev pub Runs : System → Type 0
Runs s = s.poll ≡ in_loop → s.current ≡ true

gate_apart : at_gate ≢ in_loop
gate_apart e = cc

true_apart : true ≢ false
true_apart e = cc

poll-cases : (p : PollAt) → (p ≡ at_gate) ⊎ (p ≡ in_loop)
poll-cases at_gate = inl refl
poll-cases in_loop = inr refl

wait_for_ready-Runs : (s : System) → s.poll ≡ at_gate → Runs (wait_for_ready s)
unfolding wait_for_ready
wait_for_ready-Runs s at = elim (Bool-cases s.target) [
  | inl e ↦ rw (wait_for_ready, e) (λ r. refl)
  | inr e ↦ rw (wait_for_ready, e) (λ r. absurd (gate_apart (sym at ∙ r)))
]

Step-Runs : {b : Bool} {s t : System} → Step b s t → Runs s → Runs t
unfolding end_round pause_poll pause_round resume_poll
Step-Runs (gate s at) r = wait_for_ready-Runs s at
Step-Runs (round s at) r = λ e. absurd (gate_apart e)
Step-Runs (pause s i at) r = r
Step-Runs (again s i at) r = r
Step-Runs (resume s i at) r = r

pub Steps-Runs : {s t : System} → Steps s t → Runs s → Runs t
Steps-Runs (done s) r = r
Steps-Runs (then_step steps st) r = Step-Runs st (Steps-Runs steps r)

pub start-Runs : Runs start_system
start-Runs e = cc

-- While nobody resumes the loop after thread `i` has asked for the pause: the target stays false, and
-- where the thread has been let through, `current` is false.
pub record IsHeld (i : ℕ) (s : System) : Type 0 where
  pub runs : Runs s
  pub target : s.target ≡ false
  pub quiet : s.modifiers i ≡ changing → s.current ≡ false

idle_apart : {current : Bool} → idle ≡ changing → current ≡ false
idle_apart e = cc

stays_quiet :
    (current : Bool) → (if current then pausing else changing) ≡ changing → current ≡ false
stays_quiet true e = cc
stays_quiet false e = refl

-- The test of any thread `j`.
round_quiet :
    (i j : ℕ) (ms : ℕ → ModifierAt) (current : Bool)
    → (ms i ≡ changing → current ≡ false)
    → move_to ms j (if current then pausing else changing) i ≡ changing
    → current ≡ false
round_quiet i j ms current quiet e = elim (Bool-cases (j == i)) [
  | inl here ↦
      stays_quiet current
        (sym (ap (λ b. if b then (if current then pausing else changing) else ms i) here) ∙ e)
  | inr other ↦
      quiet (sym (ap (λ b. if b then (if current then pausing else changing) else ms i) other) ∙ e)
]

gate-IsHeld : (i : ℕ) (s : System) → s.poll ≡ at_gate → IsHeld i s → IsHeld i (wait_for_ready s)
unfolding wait_for_ready
gate-IsHeld i s at h =
    rw (wait_for_ready, h.target)
      (record { runs = λ r. absurd (gate_apart (sym at ∙ r)); target = refl; quiet = λ c. refl })

Step-IsHeld : {s t : System} (i : ℕ) → Step false s t → IsHeld i s → IsHeld i t
unfolding end_round pause_poll pause_round
Step-IsHeld i (gate s at) h = gate-IsHeld i s at h
Step-IsHeld i (round s at) h = record {
  runs = λ e. absurd (gate_apart e);
  target = h.target;
  quiet = h.quiet;
}
Step-IsHeld i (pause s j at) h = record {
  runs = h.runs;
  target = refl;
  quiet = round_quiet i j s.modifiers s.current h.quiet;
}
Step-IsHeld i (again s j at) h = record {
  runs = h.runs;
  target = h.target;
  quiet = round_quiet i j s.modifiers s.current h.quiet;
}

pub Held-IsHeld : {s t : System} (i : ℕ) → Held s t → IsHeld i s → IsHeld i t
Held-IsHeld i (start s) h = h
Held-IsHeld i (then_held held st) h = Step-IsHeld i st (Held-IsHeld i held h)

pub pause_poll-IsHeld :
    (i : ℕ) (s : System) → Runs s → s.modifiers i ≡ idle → IsHeld i (pause_poll i s)
unfolding pause_poll pause_round
pause_poll-IsHeld i s r at = record {
  runs = r;
  target = refl;
  quiet = round_quiet i i s.modifiers s.current (λ e. idle_apart (sym at ∙ e));
}

stopped : (i : ℕ) (s : System) → IsHeld i s → s.modifiers i ≡ changing → s.poll ≡ at_gate
stopped i s h c = elim (poll-cases s.poll) [
  | inl e ↦ e
  | inr e ↦ absurd (true_apart (sym (h.runs e) ∙ h.quiet c))
]

-- In any system that steps of any number of threads reach: from the `pause_poll` of a thread on, as long
-- as no thread calls `resume_poll`, whatever else the threads do, once the thread has been let through
-- the poll thread is at `io_wait_for_ready`, which does not let it into the loop.
pub paused_until_resume :
    {s t : System} (i : ℕ)
    → Steps start_system s
    → s.modifiers i ≡ idle
    → Held (pause_poll i s) t
    → t.modifiers i ≡ changing
    → (t.poll ≡ at_gate) × ((wait_for_ready t).poll ≡ at_gate)
unfolding wait_for_ready
paused_until_resume {s} {t} i steps at held c =
    let h = Held-IsHeld i held (pause_poll-IsHeld i s (Steps-Runs steps start-Runs) at) in
    let e = stopped i t h c in (e, rw (wait_for_ready, h.target) e)
