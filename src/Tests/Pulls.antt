-- ===== src/Tests/Pulls.antt =====
-- Polls of a driver in pull mode.
use hound.Base.{ℕ, ◌≢◌, refl, arith, List, [], ◌∷◌, ◌++◌, some, none, true, false}
use hound.Driver.Calls.{good}
use hound.Io.Calls.{IoCalls, bytes, Events, make_records, parse_answer}
use hound.Io.Pull.{PullInfo, PullMap, io_default_pull}
use hound.Io.Pull.Schedule.{PulledAt, io_default_pull_lem}
use hound.Io.Pull.Rate.{Logs, Paces, run_pulls, run_pulls_lem}

-- A driver that logs what it is asked for.
abbrev logging : IoCalls (List ℕ)
logging = record {
  read = λ fd w. (bytes 10, w);
  op_parse = λ n w. (good, w);
  op_next = λ id w. (good, w ++ (id ∷ []));
}

logging-Logs : Logs logging (λ w. w)
logging-Logs = record {
  next_logs = λ id w. refl;
  read_keeps = λ fd w. refl;
  parse_keeps = λ n w. refl;
}

logging-reads : (w : List ℕ) → make_records logging 4 w ≢ none
unfolding make_records parse_answer
logging-reads w e = cc

abbrev info : PullInfo
info = record {
  last_pull = 100;
  timeout_info =
      record { id = 1; current_timeout = 50; max_timeout = 50 }
      ∷ record { id = 2; current_timeout = 20; max_timeout = 30 }
      ∷ [];
}

abbrev map_of : PullMap
map_of fd = some info

abbrev input : Events
input = record { pollin = true; other = false }

abbrev quiet : Events
quiet = record { pollin = false; other = false }

pull_example :
    PulledAt logging 4 input info 125 map_of [] (io_default_pull logging 4 input 125 map_of [])
pull_example =
    io_default_pull_lem logging 4 input info 125 map_of [] refl (omega arith) (omega arith)
      (omega arith) logging-reads

rate_example :
    Paces
      (λ w. w)
      4
      300
      (record { id = 1; due = 150; period = 50 } ∷ record { id = 2; due = 120; period = 30 } ∷ [])
      []
      (run_pulls logging 4 ((input, 125) ∷ (quiet, 155) ∷ (input, 300) ∷ []) map_of [])
rate_example =
    run_pulls_lem logging (λ w. w) 4 input 125 ((quiet, 155) ∷ (input, 300) ∷ []) info map_of []
      logging-Logs refl (omega arith) (omega arith) (omega arith) logging-reads
