-- ===== src/Io/Pull/Schedule.antt =====
-- What `io_default_pull` promises, in absolute times: each entry has the time at which its data are due
-- next. A poll asks for what is due and moves that time on by a period, or to the time of the poll where
-- that is later.
use hound.Base.{
  ℕ, ◌+◌, ◌-◌, ◌≤◌, ◌<◌, ◌≡◌, ◌≢◌, refl, ap, subst, ◌∙◌, Option, none, some, Bool, true, false,
  if◌then◌else◌, List, [], ◌∷◌, map, leb, min, sub_size, sub_size_small, word_mod, arith,
}
use hound.Driver.Calls.{Result, good}
use hound.Io.Calls.{IoCalls, Events, Polled, make_records}
use hound.Io.Pull.{
  PullTimeoutInfo, PullInfo, PullMap, put, Pull, next_timeout, no_timeout, pull_loop,
  io_default_pull,
}

pub record Deadline : Type 0 where
  pub id : ℕ
  pub due : ℕ
  pub period : ℕ

abbrev pub due_next : ℕ → Deadline → ℕ
due_next now d =
    if leb d.due now then (if leb (d.due + d.period) now then now else d.due + d.period) else d.due

abbrev pub schedule : ℕ → List Deadline → List Deadline
schedule now [] = []
schedule now (d ∷ ds) = record d { due = due_next now d } ∷ schedule now ds

-- The data asked for by a poll, in order.
abbrev pub due_ids : ℕ → List Deadline → List ℕ
due_ids now [] = []
due_ids now (d ∷ ds) = if leb d.due now then d.id ∷ due_ids now ds else due_ids now ds

-- The times of the entries, seen from the last poll.
abbrev pub deadlines : ℕ → List PullTimeoutInfo → List Deadline
deadlines last [] = []
deadlines last (t ∷ ts) =
    record { id = t.id; due = last + t.current_timeout; period = t.max_timeout } ∷ deadlines last ts

-- One `next` for each of them.
abbrev pub ask_all : {W : Type 0} → IoCalls W → List ℕ → W → W
ask_all c [] w = w
ask_all c (id ∷ ids) w = ask_all c ids (c.op_next id w).1

abbrev pub least : ℕ → List ℕ → ℕ
least bound [] = bound
least bound (n ∷ ns) = least (min bound n) ns

abbrev pub Bounded : List PullTimeoutInfo → Type 0
Bounded [] = Unit {0}
Bounded (t ∷ ts) = (t.current_timeout < word_mod) × (t.max_timeout < word_mod) × Bounded ts

next_timeout_lem :
    (last now : ℕ) (t : PullTimeoutInfo)
    → last ≤ now
    → now < word_mod
    → t.current_timeout < word_mod
    → t.max_timeout < word_mod
    → now + next_timeout (now - last) t
      ≡ due_next now (record { id = t.id; due = last + t.current_timeout; period = t.max_timeout })
unfolding next_timeout
next_timeout_lem last now t le small cur max = ground arith

next_timeout-small :
    (elapsed : ℕ) (t : PullTimeoutInfo)
    → t.current_timeout < word_mod
    → t.max_timeout < word_mod
    → next_timeout elapsed t < word_mod
unfolding next_timeout
next_timeout-small elapsed t cur max = ground arith

-- What the loop leaves.
pub record PulledBy {W : Type 0} (c : IoCalls W) (now : ℕ) (ds : List Deadline) (bound : ℕ) (w : W)
    (r : List PullTimeoutInfo × ℕ × W) : Type 0 where
  pub dues : deadlines now r.0 ≡ schedule now ds
  pub least_timeout : r.1 ≡ least bound (map (λ t. t.current_timeout) r.0)
  pub asked : r.2 ≡ ask_all c (due_ids now ds) w
  pub bounded : Bounded r.0

same_due : (last now n : ℕ) → last ≤ now → leb n (now - last) ≡ leb (last + n) now
same_due last now n le = ground arith

ask-due :
    {W : Type 0} (c : IoCalls W) (is_due : Bool) (id : ℕ) (ids : List ℕ) (w : W)
    → ask_all c ids (if is_due then (c.op_next id w).1 else w)
      ≡ ask_all c (if is_due then id ∷ ids else ids) w
ask-due c true id ids w = refl
ask-due c false id ids w = refl

pull_loop_lem :
    {W : Type 0} (c : IoCalls W) (last now : ℕ) (ts : List PullTimeoutInfo) (bound : ℕ) (w : W)
    → last ≤ now
    → now < word_mod
    → Bounded ts
    → PulledBy c now (deadlines last ts) bound w (pull_loop c (now - last) ts bound w)
unfolding pull_loop
pull_loop_lem c last now [] bound w le small b = record {
  dues = refl;
  least_timeout = refl;
  asked = refl;
  bounded = tt;
}
pull_loop_lem c last now (t ∷ ts) bound w le small (cur, max, b) =
    let next = next_timeout (now - last) t in
    let w' = if leb t.current_timeout (now - last) then (c.op_next t.id w).1 else w in
    let rest = pull_loop_lem c last now ts (min bound next) w' le small b in
    let rest_ts = (pull_loop c (now - last) ts (min bound next) w').0 in
    let first : Deadline = record {
      id = t.id;
      due = last + t.current_timeout;
      period = t.max_timeout;
    } in
    record {
      dues =
          ap (λ n. record { id = t.id; due = n; period = t.max_timeout } ∷ deadlines now rest_ts)
            (next_timeout_lem last now t le small cur max)
          ∙ ap (λ ds. record first { due = due_next now first } ∷ ds) rest.dues;
      least_timeout = rest.least_timeout;
      asked =
          rest.asked
          ∙ ask-due c (leb t.current_timeout (now - last)) t.id (due_ids now (deadlines last ts)) w
          ∙ ap
              (λ (is_due : Bool).
                ask_all c
                  (if is_due
                    then t.id ∷ due_ids now (deadlines last ts)
                    else due_ids now (deadlines last ts))
                  w)
              (same_due last now t.current_timeout le);
      bounded = (next_timeout-small (now - last) t cur max, max, rest.bounded);
    }

read-some :
    {W : Type 0} (c : IoCalls W) (fd : ℕ) (pollin : Bool) (w : W)
    → ((v : W) → make_records c fd v ≢ none)
    → (r : Result × W) × ((if pollin then make_records c fd w else some (good, w)) ≡ some r)
read-some c fd false w reads = ((good, w), refl)
read-some {W} c fd true w reads =
    elim (make_records c fd w) as (λ o. o ≢ none → (r : Result × W) × (o ≡ some r)) [
      | none ↦ λ ne. absurd (ne refl)
      | some r ↦ λ ne. (r, refl)
    ]
      (reads w)

-- What a poll of a driver in pull mode leaves.
pub record PulledAt {W : Type 0} (c : IoCalls W) (fd : ℕ) (events : Events) (info : PullInfo)
    (now : ℕ) (m : PullMap) (w : W) (r : Option (Pull W)) : Type 0 where
  pub out : Pull W
  pub returns : r ≡ some out
  pub info' : PullInfo
  pub stored : out.pull_map ≡ put m fd (some info')
  pub last_pull : info'.last_pull ≡ now
  pub dues :
      deadlines now info'.timeout_info ≡ schedule now (deadlines info.last_pull info.timeout_info)
  pub bounded : Bounded info'.timeout_info
  pub enabled : out.polled.timeout_enabled ≡ true
  pub timeout : out.timeout ≡ least no_timeout (map (λ t. t.current_timeout) info'.timeout_info)
  pub asked :
      let w' = ask_all c (due_ids now (deadlines info.last_pull info.timeout_info)) w in
      (if events.pollin then make_records c fd w' else some (good, w'))
      ≡ some (out.polled.err, out.polled.world)

-- A poll of a driver in pull mode, at a time not before that of the last one, whose read does not fail
-- in a way that the code takes for a bug: the driver is asked just for the data whose time has come, in
-- order, and then read if there is input; the time of each of these entries moves on by its period, or
-- to the time of the poll where that is later, so that lateness does not add up, and all others stay;
-- the timeout is the shortest time to the next of them.
pub io_default_pull_lem :
    {W : Type 0} (c : IoCalls W) (fd : ℕ) (events : Events) (info : PullInfo) (now : ℕ)
    (m : PullMap) (w : W)
    → m fd ≡ some info
    → info.last_pull ≤ now
    → now < word_mod
    → Bounded info.timeout_info
    → ((v : W) → make_records c fd v ≢ none)
    → PulledAt c fd events info now m w (io_default_pull c fd events now m w)
unfolding io_default_pull
io_default_pull_lem {W} c fd events info now m w found le small b reads =
    let elapsed : sub_size now info.last_pull ≡ now - info.last_pull =
      sub_size_small now info.last_pull le small in
    let pulled = pull_loop c (now - info.last_pull) info.timeout_info no_timeout w in
    let l = pull_loop_lem c info.last_pull now info.timeout_info no_timeout w le small b in
    let (read, e) = read-some c fd events.pollin pulled.2 reads in
    let info' : PullInfo = record { last_pull = now; timeout_info = pulled.0 } in
    let polled : Polled W = record {
      err = read.0;
      next_events = record { pollin = true; other = false };
      timeout_enabled = true;
      world = read.1;
    } in
    record {
      out = record { polled = polled; timeout = pulled.1; pull_map = put m fd (some info') };
      returns = rw (found, elapsed, e);
      info' = info';
      stored = refl;
      last_pull = refl;
      dues = l.dues;
      bounded = l.bounded;
      enabled = refl;
      timeout = l.least_timeout;
      asked =
          subst (λ v. (if events.pollin then make_records c fd v else some (good, v)) ≡ some read)
            l.asked e;
    }
