-- ===== src/Io/Pause.antt =====
-- How the poll loop of src/core/io.c is paused: `io_wait_for_ready`, `pause_poll` and `resume_poll` with
-- s_poll_active_target and s_poll_active_current. What a thread does in one hold of s_poll_mutex is one
-- step. A thread that waits on s_poll_cond may wake at any time.
pub mod Safety
pub mod Progress
use hound.Base.{ℕ, ◌≡◌, ◌≢◌, Bool, true, false, ◌==◌, if◌then◌else◌}

-- The poll thread is at `io_wait_for_ready`, or between it and its next call.
pub data PollAt : Type 0 where
  at_gate in_loop : PollAt

-- A thread that changes s_ios waits in `pause_poll`, or is between its `pause_poll` and `resume_poll`.
pub data ModifierAt : Type 0 where
  idle pausing changing : ModifierAt

pub record System : Type 0 where
  pub target : Bool
  pub current : Bool
  pub poll : PollAt
  pub modifiers : ℕ → ModifierAt

abbrev pub move_to : (ℕ → ModifierAt) → ℕ → ModifierAt → ℕ → ModifierAt
move_to ms i m j = if i == j then m else ms j

-- As the variables are declared, with no thread in a call.
abbrev pub start_system : System
start_system = record { target = false; current = false; poll = at_gate; modifiers = λ i. idle }

-- One round of the loop of `io_wait_for_ready`.
unfoldable pub wait_for_ready : System → System
wait_for_ready s =
    if s.target then record s { current = true; poll = in_loop } else record s { current = false }

-- The poll thread comes back to `io_wait_for_ready`.
unfoldable pub end_round : System → System
end_round s = record s { poll = at_gate }

-- The test of the loop of `pause_poll`.
unfoldable pub pause_round : ℕ → System → System
pause_round i s = record s {
  modifiers = move_to s.modifiers i (if s.current then pausing else changing);
}

unfoldable pub pause_poll : ℕ → System → System
unfolding pause_round
pause_poll i s = pause_round i (record s { target = false })

unfoldable pub resume_poll : ℕ → System → System
resume_poll i s = record s { target = true; modifiers = move_to s.modifiers i idle }

-- What the threads do, at any time and in any number; `resumes` tells whether it is a `resume_poll`.
pub data Step : Bool → System → System → Type 0 where
  gate : (s : System) → s.poll ≡ at_gate → Step false s (wait_for_ready s)
  round : (s : System) → s.poll ≡ in_loop → Step false s (end_round s)
  pause : (s : System) (i : ℕ) → s.modifiers i ≡ idle → Step false s (pause_poll i s)
  again : (s : System) (i : ℕ) → s.modifiers i ≡ pausing → Step false s (pause_round i s)
  resume : (s : System) (i : ℕ) → s.modifiers i ≡ changing → Step true s (resume_poll i s)

-- Any steps, and steps none of which is a `resume_poll`.
pub data Steps : System → System → Type 0 where
  done : (s : System) → Steps s s
  then_step : {s t u : System} {resumes : Bool} → Steps s t → Step resumes t u → Steps s u

pub data Held : System → System → Type 0 where
  start : (s : System) → Held s s
  then_held : {s t u : System} → Held s t → Step false t u → Held s u
