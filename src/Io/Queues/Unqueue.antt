-- ===== src/Io/Queues/Unqueue.antt =====
-- `remove_queue_nolock` on a whole list of requests.
use hound.Base.{
  ℕ, ◌+◌, ◌-◌, ◌≡◌, refl, ap, sym, ◌∙◌, Option, none, some, Bool, true, false, ◌&&◌, ◌||◌, ◌==◌,
  if◌then◌else◌, ltb, List, [], ◌∷◌, length, arith, Bool-cases, inl, inr,
}
use hound.Driver.Calls.{DataRq}
use hound.Driver.Descs.{driver_is_pull_mode}
use hound.Io.Calls.{Vecs, IsVecs}
use hound.Io.Pull.{PullInfo}
use hound.Io.Queues.{Line, is_pull, remove_timeout, remove_rq, remove_loop, remove_queue_nolock}
use hound.Io.Queues.Counts.{bit, entries, timeouts, timings, Once}
use hound.Io.Queues.Timer.{Timed, set_fd_timeout_lem}
use hound.Io.Queues.Remove.{remove_entries_lem, remove_timeout_lem}

abbrev pub has_id : ℕ → List DataRq → Bool
has_id id [] = false
has_id id (rq ∷ rqs) = (rq.id == id) || has_id id rqs

-- The requests of an ID with a period, where it is positive.
abbrev pub timed : ℕ → ℕ → List DataRq → ℕ
timed id period [] = 0
timed id period (rq ∷ rqs) =
    (if ltb 0 rq.period_ns then bit ((rq.id == id) && (rq.period_ns == period)) else 0)
    + timed id period rqs

-- A driver in pull mode is in the map.
abbrev pub Pulls : Line → Type 0
Pulls line = is_pull line ≡ true → (info : PullInfo) × (line.pull ≡ some info)

-- The IDs of `gone` leave the queue, and `taken` timeouts leave; no other entries do.
pub record Unqueued (queue : ℕ) (line : Line) (gone : ℕ → Bool) (taken : ℕ → ℕ → ℕ)
    (r : Option Line) : Type 0 where
  pub line' : Line
  pub returns : r ≡ some line'
  pub same_drv : line'.ctx.drv ≡ line.ctx.drv
  pub pulls : Pulls line'
  pub entries_left :
      (id q : ℕ)
      → entries id q line'.ctx.queues
        ≡ (if gone id && (queue == q) then 0 else entries id q line.ctx.queues)
  pub timeouts_left :
      (id period : ℕ)
      → timeouts id period (timings line') ≡ timeouts id period (timings line) - taken id period

pub and_left : (a b : Bool) → (a && b) ≡ true → a ≡ true
and_left a b e = ground arith

abbrev unqueued_after :
    {queue : ℕ} {line : Line} {gone : ℕ → Bool} {taken : ℕ → ℕ → ℕ} {r : Option Line}
    (u : Unqueued queue line gone taken r) (end : Line) (r' : Option Line)
    → r' ≡ some end
    → end.ctx.drv ≡ u.line'.ctx.drv
    → end.ctx.queues ≡ u.line'.ctx.queues
    → end.pull ≡ u.line'.pull
    → Unqueued queue line gone taken r'
unqueued_after u end r' returns drv queues pull = record {
  line' = end;
  returns = returns;
  same_drv = drv ∙ u.same_drv;
  pulls = λ p. let (info, e) = u.pulls (sym (ap driver_is_pull_mode drv) ∙ p) in (info, pull ∙ e);
  entries_left = λ id q. ap (entries id q) queues ∙ u.entries_left id q;
  timeouts_left = λ id period.
      ap
        (λ (o : Option PullInfo).
          timeouts id period (elim o [ none ↦ [] | some info ↦ info.timeout_info ]))
        pull
      ∙ u.timeouts_left id period;
}

-- The timeouts that one request takes.
abbrev one_timed : Bool → DataRq → ℕ → ℕ → ℕ
one_timed pull rq id period =
    if pull && ltb 0 rq.period_ns then bit ((rq.id == id) && (rq.period_ns == period)) else 0

twice_gone :
    (a b c : Bool) (n : ℕ)
    → (if b && c then 0 else if a && c then 0 else n) ≡ (if (a || b) && c then 0 else n)
twice_gone a b c n = ground arith

twice_timed :
    (pull : Bool) (rq : DataRq) (rqs : List DataRq) (id period n : ℕ)
    → n - one_timed pull rq id period - (if pull then timed id period rqs else 0)
      ≡ n - (if pull then timed id period (rq ∷ rqs) else 0)
twice_timed true rq rqs id period n = omega arith
twice_timed false rq rqs id period n = omega arith

module _ {W : Type 0} (v : Vecs W) (l : IsVecs v) (queue : ℕ) where
  remove_rq_lem :
      (rq : DataRq) (line : Line)
      → Pulls line
      → Once queue line.ctx.queues
      → Unqueued queue line
          (λ id. rq.id == id)
          (one_timed (is_pull line) rq)
          (remove_rq v queue rq line)
  unfolding remove_rq
  remove_rq_lem rq line pulls once =
      let (es, runs, counts) =
        remove_entries_lem v l queue (length line.ctx.queues) rq.id 0 line.ctx.queues (omega arith)
          (once rq.id) refl in
      elim (Bool-cases (is_pull line && ltb 0 rq.period_ns)) [
        | inl both ↦
            let (info, e) = pulls (and_left (is_pull line) (ltb 0 rq.period_ns) both) in
            record {
              line' = record {
                ctx = record line.ctx { queues = es };
                pull =
                    some
                      (record info { timeout_info = remove_timeout v queue rq info.timeout_info });
              };
              returns = rw (remove_rq, runs, both, e);
              same_drv = refl;
              pulls = λ p. (
                record info { timeout_info = remove_timeout v queue rq info.timeout_info },
                refl,
              );
              entries_left = counts;
              timeouts_left = λ id period.
                  rw (both, e) (remove_timeout_lem v l queue rq info.timeout_info id period);
            }
        | inr neither ↦ record {
          line' = record line { ctx = record line.ctx { queues = es } };
          returns = rw (remove_rq, runs, neither);
          same_drv = refl;
          pulls = pulls;
          entries_left = counts;
          timeouts_left = λ id period. rw (neither) (omega arith);
        }
      ]

  remove_loop_cons :
      (rq : DataRq) (rqs : List DataRq) (line line' : Line)
      → remove_rq v queue rq line ≡ some line'
      → remove_loop v queue (rq ∷ rqs) line ≡ remove_loop v queue rqs line'
  unfolding remove_loop
  remove_loop_cons rq rqs line line' e = rw (remove_loop, e)

  pub remove_loop_lem :
      (rqs : List DataRq) (line : Line)
      → Pulls line
      → Once queue line.ctx.queues
      → Unqueued queue line
          (λ id. has_id id rqs)
          (λ id period. if is_pull line then timed id period rqs else 0)
          (remove_loop v queue rqs line)
  unfolding remove_loop
  remove_loop_lem [] line pulls once = record {
    line' = line;
    returns = refl;
    same_drv = refl;
    pulls = pulls;
    entries_left = λ id q. refl;
    timeouts_left = λ id period. ground arith;
  }
  remove_loop_lem (rq ∷ rqs) line pulls once =
      let one = remove_rq_lem rq line pulls once in
      let once' : Once queue one.line'.ctx.queues =
        λ id. ground (arith, one.entries_left id queue, once id) in
      let rest = remove_loop_lem rqs one.line' one.pulls once' in
      let same : is_pull one.line' ≡ is_pull line = ap driver_is_pull_mode one.same_drv in
      record {
        line' = rest.line';
        returns = remove_loop_cons rq rqs line one.line' one.returns ∙ rest.returns;
        same_drv = rest.same_drv ∙ one.same_drv;
        pulls = rest.pulls;
        entries_left = λ id q.
            rest.entries_left id q
            ∙ ap (λ n. if has_id id rqs && (queue == q) then 0 else n) (one.entries_left id q)
            ∙ twice_gone (rq.id == id) (has_id id rqs) (queue == q) (entries id q line.ctx.queues);
        timeouts_left = λ id period.
            rest.timeouts_left id period
            ∙ ap
                (λ (b : Bool).
                  timeouts id period (timings one.line') - (if b then timed id period rqs else 0))
                same
            ∙ ap (λ n. n - (if is_pull line then timed id period rqs else 0))
                (one.timeouts_left id period)
            ∙ twice_timed (is_pull line) rq rqs id period (timeouts id period (timings line));
      }

  -- What `remove_queue_nolock` leaves.
  pub record QueueRemoved (line : Line) (rqs : List DataRq) (r : Option Line) : Type 0 where
    pub unqueued :
        Unqueued queue line
          (λ id. has_id id rqs)
          (λ id period. if is_pull line then timed id period rqs else 0)
          r
    pub timer : is_pull line ≡ true → Timed unqueued.line'

  -- `remove_queue_nolock` on a line with at most one entry for each ID and the queue, and whose driver
  -- is in the map if it is in pull mode, has no fault and its loops end: just the entries of the queue
  -- with an ID of the requests leave, although the loop skips the entry that each removal moves; one
  -- timeout of each request with a positive period leaves, where it is there, for a driver in pull mode;
  -- and the timer of that driver is the shortest timeout left.
  pub remove_queue_nolock_lem :
      (rqs : List DataRq) (line : Line)
      → Pulls line
      → Once queue line.ctx.queues
      → QueueRemoved line rqs (remove_queue_nolock v queue rqs line)
  unfolding remove_queue_nolock
  remove_queue_nolock_lem rqs line pulls once =
      let u = remove_loop_lem rqs line pulls once in
      let same : is_pull u.line' ≡ is_pull line = ap driver_is_pull_mode u.same_drv in
      elim (Bool-cases (is_pull u.line')) [
        | inl pull ↦
            let (info, e) = u.pulls pull in
            let set = set_fd_timeout_lem u.line' info e in
            record {
              unqueued =
                  unqueued_after u set.line' (remove_queue_nolock v queue rqs line)
                    (rw (remove_queue_nolock, u.returns, pull) set.returns) set.same_drv
                    set.same_queues set.same_pull;
              timer = λ p. set.timer;
            }
        | inr other ↦ record {
          unqueued =
              unqueued_after u u.line' (remove_queue_nolock v queue rqs line)
                (rw (remove_queue_nolock, u.returns, other)) refl refl refl;
          timer = λ p. absurd (ground (arith, same, other, p));
        }
      ]
