-- ===== src/Io/Queues/Enqueue.antt =====
-- `add_queue_nolock` on a whole list of requests, where the memory does not run out.
use hound.Base.{
  ℕ, ◌+◌, ◌≡◌, refl, ap, ◌∙◌, Option, none, some, Bool, true, false, not, ◌&&◌, ◌==◌, if◌then◌else◌,
  ltb, List, [], ◌∷◌, arith, Bool-cases, inl, inr, ==→eq,
}
use hound.Driver.Calls.{Result, good, DataRq}
use hound.Driver.Descs.{driver_is_pull_mode}
use hound.Io.Calls.{Vecs, IsVecs}
use hound.Io.Pull.{PullInfo}
use hound.Io.Queues.{Line, Adding, is_pull, add_loop, add_queue_nolock}
use hound.Io.Queues.Counts.{bit, entries, timeouts, timings}
use hound.Io.Queues.Timer.{Timed, set_fd_timeout_lem}
use hound.Io.Queues.Unqueue.{has_id, timed, Pulls}
use hound.Io.Queues.Add.{round_lem}
use hound.Io.Queues.Grown.{owner, owned, Grown, grown_trans, grown-eq}

-- The requests are of new IDs once.
new_once :
    (id : ℕ) (rq : DataRq) (before rqs : List DataRq)
    → bit (not (has_id rq.id before) && (rq.id == id))
        + bit (not (has_id id (rq ∷ before)) && has_id id rqs)
      ≡ bit (not (has_id id before) && has_id id (rq ∷ rqs))
new_once id rq before rqs = elim (Bool-cases (rq.id == id)) [
  | inl same ↦
      let e : rq.id ≡ id = ==→eq rq.id id same in ground (arith, same, ap (λ n. has_id n before) e)
  | inr other ↦ ground (arith, other)
]

all_timed :
    (pull : Bool) (rq : DataRq) (id period o n : ℕ)
    → (if pull && ltb 0 rq.period_ns then bit ((o == id) && (rq.period_ns == period)) else 0)
        + (if pull then n else 0)
      ≡ (if pull
          then (if ltb 0 rq.period_ns then bit ((o == id) && (rq.period_ns == period)) else 0) + n
          else 0)
all_timed true rq id period o n = refl
all_timed false rq id period o n = refl

-- The entries and timeouts that a list of requests adds to a line.
abbrev pub new_ids : List DataRq → List DataRq → ℕ → ℕ
new_ids before rqs id = bit (not (has_id id before) && has_id id rqs)

abbrev pub more_timed : Bool → ℕ → List DataRq → List DataRq → ℕ → ℕ → ℕ
more_timed pull last before rqs id period =
    if pull then timed id period (owned last before rqs) else 0

-- What `add_queue_nolock` leaves.
pub record QueueAdded {W : Type 0} (queue : ℕ) (line : Line) (rqs : List DataRq)
    (r : Option (Result × Line × W)) : Type 0 where
  pub line' : Line
  pub world : W
  pub returns : r ≡ some (good, line', world)
  pub same_drv : line'.ctx.drv ≡ line.ctx.drv
  pub pulls : Pulls line'
  pub entries_more :
      (id q : ℕ)
      → entries id q line'.ctx.queues
        ≡ entries id q line.ctx.queues + (if queue == q then bit (has_id id rqs) else 0)
  pub timeouts_more :
      (id period : ℕ)
      → timeouts id period (timings line')
        ≡ timeouts id period (timings line)
          + (if is_pull line then timed id period (owned 0 [] rqs) else 0)
  pub timer : is_pull line ≡ true → Timed line'

module _ {W : Type 0} (v : Vecs W) (l : IsVecs v)
    (memory : (A : Type 0) (xs : List A) (x : A) (w : W) → (v.pushp xs x w).0 ≡ true)
    (queue : ℕ) where
  add_loop_lem :
      (before rqs : List DataRq) (a : Adding W) (last : ℕ)
      → a.fine ≡ true
      → Pulls a.line
      → ((id : ℕ) → has_id id before ≡ true → a.entry ≡ some last)
      → (a' : Adding W) × (add_loop v queue before rqs a ≡ some a')
        × Grown queue a.line (new_ids before rqs) (more_timed (is_pull a.line) last before rqs) a'
  unfolding add_loop
  add_loop_lem before [] a last fine pulls entry = (
    a,
    refl,
    record {
      fine = fine;
      same_drv = refl;
      pulls = pulls;
      entries_more = λ id q. ground arith;
      timeouts_more = λ id period. ground arith;
    },
  )
  add_loop_lem before (rq ∷ rqs) a last fine pulls entry =
      let round = round_lem v l memory queue before rq a last fine pulls (entry rq.id) in
      let (a', runs, grown) =
        add_loop_lem (rq ∷ before) rqs round.next (owner last before rq) round.grown.fine
          round.grown.pulls (λ id seen_it. round.entry) in
      (
        a',
        round.runs rqs ∙ runs,
        grown-eq (grown_trans round.grown grown) (λ id. new_once id rq before rqs)
            (λ id period.
              ap
                (λ b.
                  (if is_pull a.line && ltb 0 rq.period_ns
                    then bit ((owner last before rq == id) && (rq.period_ns == period))
                    else 0)
                  + more_timed b (owner last before rq) (rq ∷ before) rqs id period)
                (ap driver_is_pull_mode round.grown.same_drv)
              ∙ all_timed (is_pull a.line) rq id period (owner last before rq)
                  (timed id period (owned (owner last before rq) (rq ∷ before) rqs))),
      )

  -- `add_queue_nolock` where the memory does not run out, on a line whose driver is in the map if it is
  -- in pull mode, has no fault and succeeds: each ID of the requests gets one entry of the queue more,
  -- and no other entry is added; for a driver in pull mode each request with a positive period gets a
  -- timeout of its period, under the ID of the last request up to it whose ID comes for the first time;
  -- and the timer of that driver is the shortest timeout.
  pub add_queue_nolock_lem :
      (rqs : List DataRq) (line : Line) (w : W)
      → Pulls line
      → QueueAdded queue line rqs (add_queue_nolock v queue rqs line w)
  unfolding add_queue_nolock
  add_queue_nolock_lem rqs line w pulls =
      let start : Adding W = record {
        fine = true;
        line = line;
        entry = none;
        queue_count = 0;
        world = w;
      } in
      let (a, runs, g) = add_loop_lem [] rqs start 0 refl pulls (λ id e. cc) in
      let same : is_pull a.line ≡ is_pull line = ap driver_is_pull_mode g.same_drv in
      elim (Bool-cases (is_pull a.line)) [
        | inl pull ↦
            let (info, e) = g.pulls pull in
            let set = set_fd_timeout_lem a.line info e in
            record {
              line' = set.line';
              world = a.world;
              returns = rw (add_queue_nolock, runs, g.fine, pull, set.returns);
              same_drv = set.same_drv ∙ g.same_drv;
              pulls = λ p. (info, set.same_pull ∙ e);
              entries_more = λ id q. ap (entries id q) set.same_queues ∙ g.entries_more id q;
              timeouts_more = λ id period.
                  ap
                    (λ (o : Option PullInfo).
                      timeouts id period (elim o [ none ↦ [] | some i ↦ i.timeout_info ]))
                    set.same_pull
                  ∙ g.timeouts_more id period;
              timer = λ p. set.timer;
            }
        | inr other ↦ record {
          line' = a.line;
          world = a.world;
          returns = rw (add_queue_nolock, runs, g.fine, other);
          same_drv = g.same_drv;
          pulls = g.pulls;
          entries_more = g.entries_more;
          timeouts_more = g.timeouts_more;
          timer = λ p. absurd (ground (arith, same, other, p));
        }
      ]
