-- ===== src/Io/Pull/Rate.antt =====
-- How often a driver in pull mode is asked for its data, over any polls of it.
use hound.Base.{
  ℕ, ◌+◌, ◌≤◌, ◌<◌, ◌≡◌, ◌≢◌, ap, ◌∙◌, sym, subst, Option, none, some, Bool, true, false, ◌==◌,
  if◌then◌else◌, List, [], ◌∷◌, ◌++◌, count, count-append, word_mod, arith, ◌>>=◌, append_assoc,
  append-nil, ==_self, some_inj,
}
use hound.Driver.Calls.{Result, good, is_ok}
use hound.Io.Calls.{
  IoCalls, Answer, bytes, failed, again, would_block, interrupted, io_failed, other_errno, Events,
  parse_answer, make_records,
}
use hound.Io.Pull.{PullInfo, PullMap, Pull, put, io_default_pull}
use hound.Io.Pull.Schedule.{
  Deadline, schedule, due_ids, deadlines, ask_all, Bounded, PulledAt, io_default_pull_lem,
}
use hound.Io.Pull.Paced.{
  AllPaced, total, all_fires, zeros, all_fires-AllPaced, one_poll-AllPaced, total-all_fires,
  total-one_poll,
}

-- The polls of one driver, with their times.
unfoldable pub run_pulls :
    {W : Type 0} → IoCalls W → ℕ → List (Events × ℕ) → PullMap → W → Option (PullMap × W)
run_pulls c fd [] m w = some (m, w)
run_pulls c fd ((events, now) ∷ polls) m w = do
  p ← io_default_pull c fd events now m w
  run_pulls c fd polls p.pull_map p.polled.world

-- The times of the polls do not go back.
abbrev pub Ascending : ℕ → List (Events × ℕ) → Type 0
Ascending last [] = last < word_mod
Ascending last ((events, now) ∷ polls) = (last ≤ now) × Ascending now polls

abbrev pub end_of : ℕ → List (Events × ℕ) → ℕ
end_of now [] = now
end_of now ((events, now') ∷ polls) = end_of now' polls

-- The state keeps the data that the driver was asked for.
pub record Logs {W : Type 0} (c : IoCalls W) (asks : W → List ℕ) : Type 0 where
  pub next_logs : (id : ℕ) (w : W) → asks (c.op_next id w).1 ≡ asks w ++ (id ∷ [])
  pub read_keeps : (fd : ℕ) (w : W) → asks (c.read fd w).1 ≡ asks w
  pub parse_keeps : (n : ℕ) (w : W) → asks (c.op_parse n w).1 ≡ asks w

asks-ask_all :
    {W : Type 0} (c : IoCalls W) (asks : W → List ℕ) (l : Logs c asks) (ids : List ℕ) (w : W)
    → asks (ask_all c ids w) ≡ asks w ++ ids
asks-ask_all c asks l [] w = sym (append-nil (asks w))
asks-ask_all c asks l (id ∷ ids) w =
    asks-ask_all c asks l ids (c.op_next id w).1
    ∙ ap (λ xs. xs ++ ids) (l.next_logs id w)
    ∙ append_assoc (asks w) (id ∷ []) ids

parsed-keeps :
    {W : Type 0} (asks : W → List ℕ) (empty fine : Bool) (p : Result × W) (w : W)
    → asks p.1 ≡ asks w
    → (r : Result × W) → (if empty then (good, w) else if fine then (good, p.1) else (p.0, p.1)) ≡ r
    → asks r.1 ≡ asks w
parsed-keeps asks true fine p w k r e = ap (λ x. asks x.1) (sym e)
parsed-keeps asks false true p w k r e = ap (λ x. asks x.1) (sym e) ∙ k
parsed-keeps asks false false p w k r e = ap (λ x. asks x.1) (sym e) ∙ k

parse_answer-keeps :
    {W : Type 0} (c : IoCalls W) (asks : W → List ℕ) (l : Logs c asks) (answer : Answer) (w : W)
    (r : Result × W)
    → parse_answer c answer w ≡ some r
    → asks r.1 ≡ asks w
unfolding parse_answer
parse_answer-keeps c asks l (bytes n) w r e =
    parsed-keeps asks (n == 0) (is_ok (c.op_parse n w).0) (c.op_parse n w) w (l.parse_keeps n w) r
      (some_inj e)
parse_answer-keeps c asks l (failed again) w r e = ap (λ x. asks x.1) (sym (some_inj e))
parse_answer-keeps c asks l (failed would_block) w r e = ap (λ x. asks x.1) (sym (some_inj e))
parse_answer-keeps c asks l (failed interrupted) w r e = ap (λ x. asks x.1) (sym (some_inj e))
parse_answer-keeps c asks l (failed io_failed) w r e = ap (λ x. asks x.1) (sym (some_inj e))
parse_answer-keeps c asks l (failed other_errno) w r e = cc

asks-read :
    {W : Type 0} (c : IoCalls W) (asks : W → List ℕ) (l : Logs c asks) (fd : ℕ) (pollin : Bool)
    (w : W) (r : Result × W)
    → (if pollin then make_records c fd w else some (good, w)) ≡ some r
    → asks r.1 ≡ asks w
unfolding make_records
asks-read c asks l fd false w r e = ap (λ x. asks x.1) (sym (some_inj e))
asks-read c asks l fd true w r e =
    parse_answer-keeps c asks l (c.read fd w).0 (c.read fd w).1 r e ∙ l.read_keeps fd w

-- What polls leave of the entries, `ks` of each pulled, and of the data asked for.
pub record Paces {W : Type 0} (asks : W → List ℕ) (fd last : ℕ) (ds : List Deadline) (w : W)
    (r : Option (PullMap × W)) : Type 0 where
  pub map' : PullMap
  pub world : W
  pub returns : r ≡ some (map', world)
  pub info : PullInfo
  pub stored : map' fd ≡ some info
  pub pulls : List ℕ
  pub paced : AllPaced last ds (deadlines last info.timeout_info) pulls
  pub counts : (id : ℕ) → count id (asks world) ≡ count id (asks w) + total id ds pulls

poll-asks :
    {W : Type 0} (c : IoCalls W) (asks : W → List ℕ) (l : Logs c asks) (fd : ℕ) (events : Events)
    (info : PullInfo) (now : ℕ) (m : PullMap) (w : W)
    → (p : PulledAt c fd events info now m w (io_default_pull c fd events now m w)) → (id : ℕ)
    → count id (asks p.out.polled.world)
      ≡ count id (asks w) + count id (due_ids now (deadlines info.last_pull info.timeout_info))
poll-asks c asks l fd events info now m w p id =
    let ids = due_ids now (deadlines info.last_pull info.timeout_info) in
    ap (count id) (
      asks-read c asks l fd events.pollin (ask_all c ids w) (p.out.polled.err, p.out.polled.world)
        p.asked
      ∙ asks-ask_all c asks l ids w)
    ∙ count-append id (asks w) ids

run_pulls_cons :
    {W : Type 0} (c : IoCalls W) (fd : ℕ) (events : Events) (now : ℕ) (polls : List (Events × ℕ))
    (m : PullMap) (w : W) (p : Pull W)
    → io_default_pull c fd events now m w ≡ some p
    → run_pulls c fd ((events, now) ∷ polls) m w ≡ run_pulls c fd polls p.pull_map p.polled.world
unfolding run_pulls
run_pulls_cons c fd events now polls m w p e = rw (e)

stored_at :
    (m : PullMap) (fd : ℕ) (m' : PullMap) (info : PullInfo)
    → m' ≡ put m fd (some info)
    → m' fd ≡ some info
stored_at m fd m' info e = rw (e, ==_self fd)

end_of-le : (now : ℕ) (polls : List (Events × ℕ)) → Ascending now polls → now ≤ end_of now polls
end_of-le now [] up = omega arith
end_of-le now ((events, now') ∷ polls) (le, up) = omega (arith, end_of-le now' polls up)

small_end :
    (now : ℕ) (polls : List (Events × ℕ)) → Ascending now polls → end_of now polls < word_mod
small_end now [] up = up
small_end now ((events, now') ∷ polls) (le, up) = small_end now' polls up

-- Polls of a driver in pull mode at times that do not go back, one at least, whose reads do not fail in
-- a way that the code takes for a bug: no poll has a fault, and for each entry the driver is asked `k`
-- times, where `k` periods fit between the time at which the data were due first and the end plus a
-- period, and `k` is positive if they were due by the end. Of each data ID the driver is asked for just
-- the sum over its entries. What the driver is asked for can be read off the state.
pub run_pulls_lem :
    {W : Type 0} (c : IoCalls W) (asks : W → List ℕ) (fd : ℕ) (events : Events) (now : ℕ)
    (polls : List (Events × ℕ)) (info : PullInfo) (m : PullMap) (w : W)
    → Logs c asks
    → m fd ≡ some info
    → info.last_pull ≤ now
    → Ascending now polls
    → Bounded info.timeout_info
    → ((v : W) → make_records c fd v ≢ none)
    → Paces asks fd
        (end_of now polls)
        (deadlines info.last_pull info.timeout_info)
        w
        (run_pulls c fd ((events, now) ∷ polls) m w)
unfolding run_pulls
run_pulls_lem c asks fd events now [] info m w l found le up b reads =
    let p = io_default_pull_lem c fd events info now m w found le up b reads in
    let ds = deadlines info.last_pull info.timeout_info in
    record {
      map' = p.out.pull_map;
      world = p.out.polled.world;
      returns = run_pulls_cons c fd events now [] m w p.out p.returns;
      info = p.info';
      stored = stored_at m fd p.out.pull_map p.info' p.stored;
      pulls = all_fires now ds (zeros ds);
      paced =
          subst (λ ds'. AllPaced now ds ds' (all_fires now ds (zeros ds))) (sym p.dues)
            (one_poll-AllPaced now ds);
      counts = λ id.
          omega (arith, poll-asks c asks l fd events info now m w p id, total-one_poll id now ds);
    }
run_pulls_lem c asks fd events now ((events', now') ∷ polls) info m w l found le (le', up) b reads =
    let p =
      io_default_pull_lem c fd events info now m w found le
        (omega (arith, small_end now' polls up, end_of-le now' polls up)) b reads in
    let ds = deadlines info.last_pull info.timeout_info in
    let dues : deadlines p.info'.last_pull p.info'.timeout_info ≡ schedule now ds =
      ap (λ n. deadlines n p.info'.timeout_info) p.last_pull ∙ p.dues in
    let rest =
      run_pulls_lem c asks fd events' now' polls p.info' p.out.pull_map p.out.polled.world l
        (stored_at m fd p.out.pull_map p.info' p.stored) (omega (arith, p.last_pull)) up p.bounded
        reads in
    let last = end_of now' polls in
    let ends = deadlines last rest.info.timeout_info in
    let paced : AllPaced last (schedule now ds) ends rest.pulls =
      subst (λ xs. AllPaced last xs ends rest.pulls) dues rest.paced in
    record {
      map' = rest.map';
      world = rest.world;
      returns =
          run_pulls_cons c fd events now ((events', now') ∷ polls) m w p.out p.returns
          ∙ rest.returns;
      info = rest.info;
      stored = rest.stored;
      pulls = all_fires now ds rest.pulls;
      paced =
          all_fires-AllPaced now last ds ends rest.pulls (omega (arith, end_of-le now' polls up))
            paced;
      counts = λ id. omega (
        arith,
        rest.counts id,
        poll-asks c asks l fd events info now m w p id,
        total-all_fires id now last ds ends rest.pulls paced,
        ap (λ xs. total id xs rest.pulls) dues,
      );
    }
