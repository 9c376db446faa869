-- ===== src/Io/Queues/Grown.antt =====
-- What a list of requests adds to a line: the entries, and the timeouts with the IDs that they get.
use hound.Base.{
  ℕ, ◌+◌, ◌≡◌, refl, ap, ◌∙◌, Bool, true, ◌&&◌, ◌==◌, if◌then◌else◌, List, [], ◌∷◌, arith,
}
use hound.Driver.Calls.{DataRq}
use hound.Io.Queues.{Line, Adding, seen}
use hound.Io.Queues.Counts.{bit, entries, timeouts, timings}
use hound.Io.Queues.Unqueue.{has_id, Pulls}

-- The ID under which the timeout of each request is kept: that of the last request before it, or of
-- itself, that has an ID for the first time.
abbrev pub owner : ℕ → List DataRq → DataRq → ℕ
owner last before rq = if has_id rq.id before then last else rq.id

abbrev pub owned : ℕ → List DataRq → List DataRq → List DataRq
owned last before [] = []
owned last before (rq ∷ rqs) =
    record rq { id = owner last before rq } ∷ owned (owner last before rq) (rq ∷ before) rqs

pub seen-has_id : (id : ℕ) (rqs : List DataRq) → seen id rqs ≡ has_id id rqs
unfolding seen
seen-has_id id [] = refl
seen-has_id id (rq ∷ rqs) = ground (arith, seen-has_id id rqs)

pub bit_if : (b c : Bool) → bit (c && b) ≡ (if b then bit c else 0)
bit_if b c = ground arith

-- `new` entries of the queue and `more` timeouts have been added.
pub record Grown {W : Type 0} (queue : ℕ) (line : Line) (new : ℕ → ℕ) (more : ℕ → ℕ → ℕ)
    (a : Adding W) : Type 0 where
  pub fine : a.fine ≡ true
  pub same_drv : a.line.ctx.drv ≡ line.ctx.drv
  pub pulls : Pulls a.line
  pub entries_more :
      (id q : ℕ)
      → entries id q a.line.ctx.queues
        ≡ entries id q line.ctx.queues + (if queue == q then new id else 0)
  pub timeouts_more :
      (id period : ℕ)
      → timeouts id period (timings a.line) ≡ timeouts id period (timings line) + more id period

pub grown_trans :
    {W : Type 0} {queue : ℕ} {line : Line} {new new' : ℕ → ℕ} {more more' : ℕ → ℕ → ℕ}
    {a a' : Adding W}
    → Grown queue line new more a
    → Grown queue a.line new' more' a'
    → Grown queue line (λ id. new id + new' id) (λ id period. more id period + more' id period) a'
grown_trans {queue} g g' = record {
  fine = g'.fine;
  same_drv = g'.same_drv ∙ g.same_drv;
  pulls = g'.pulls;
  entries_more = λ id q. ground (arith, g.entries_more id q, g'.entries_more id q);
  timeouts_more = λ id period. omega (arith, g.timeouts_more id period, g'.timeouts_more id period);
}

pub grown-eq :
    {W : Type 0} {queue : ℕ} {line : Line} {new new' : ℕ → ℕ} {more more' : ℕ → ℕ → ℕ}
    {a : Adding W}
    → Grown queue line new more a
    → ((id : ℕ) → new id ≡ new' id)
    → ((id period : ℕ) → more id period ≡ more' id period)
    → Grown queue line new' more' a
grown-eq {queue} {line} g e e' = record {
  fine = g.fine;
  same_drv = g.same_drv;
  pulls = g.pulls;
  entries_more = λ id q.
      g.entries_more id q
      ∙ ap (λ n. entries id q line.ctx.queues + (if queue == q then n else 0)) (e id);
  timeouts_more = λ id period.
      g.timeouts_more id period ∙ ap (λ n. timeouts id period (timings line) + n) (e' id period);
}
