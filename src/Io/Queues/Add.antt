-- ===== src/Io/Queues/Add.antt =====
-- `add_queue_nolock` where the memory does not run out.
use hound.Base.{
  ℕ, suc, ◌+◌, ◌≡◌, refl, ap, sym, subst, ◌∙◌, some, Bool, true, false, not, ◌&&◌, ◌==◌,
  if◌then◌else◌, ltb, List, ◌∷◌, sum_by-append, arith, Bool-cases, inl, inr,
}
use hound.Driver.Calls.{DataRq}
use hound.Driver.Descs.{driver_is_pull_mode}
use hound.Io.Calls.{Vecs, IsVecs}
use hound.Io.Push.{QueueEntry}
use hound.Io.Pull.{PullTimeoutInfo, PullInfo}
use hound.Io.Queues.{Line, Adding, is_pull, seen, push_entry, push_timeout, add_loop}
use hound.Io.Queues.Counts.{bit, is_entry, entries, is_timeout, timeouts}
use hound.Io.Queues.Unqueue.{and_left, has_id, Pulls}
use hound.Io.Queues.Grown.{owner, seen-has_id, bit_if, Grown, grown_trans, grown-eq}

module _ {W : Type 0} (v : Vecs W) (l : IsVecs v)
    (memory : (A : Type 0) (xs : List A) (x : A) (w : W) → (v.pushp xs x w).0 ≡ true)
    (queue : ℕ) where
  push_entry_lem :
      (known : Bool) (id : ℕ) (a : Adding W)
      → a.fine ≡ true
      → Pulls a.line
      → Grown queue a.line
          (λ id'. bit (not known && (id == id')))
          (λ id' period. 0)
          (push_entry v queue known id a)
        × ((push_entry v queue known id a).line.pull ≡ a.line.pull)
        × (known ≡ false → (push_entry v queue known id a).entry ≡ some id)
        × (known ≡ true → (push_entry v queue known id a).entry ≡ a.entry)
  unfolding push_entry
  push_entry_lem true id a fine pulls = (
    record {
      fine = fine;
      same_drv = refl;
      pulls = pulls;
      entries_more = λ id' q. ground arith;
      timeouts_more = λ id' q. omega arith;
    },
    refl,
    λ e. cc,
    λ e. refl,
  )
  push_entry_lem false id a fine pulls =
      let e : QueueEntry = record { id = id; queue = queue } in
      let ok = memory QueueEntry a.line.ctx.queues e a.world in
      let es = (v.pushp a.line.ctx.queues e a.world).1 in
      let appended = l.push_appends a.line.ctx.queues e a.world ok in
      let a' : Adding W = record {
        fine = true;
        line = record a.line { ctx = record a.line.ctx { queues = es } };
        entry = some id;
        queue_count = suc a.queue_count;
        world = (v.pushp a.line.ctx.queues e a.world).2;
      } in
      let runs : push_entry v queue false id a ≡ a' = rw (push_entry, ok) in
      let grown : Grown queue a.line (λ id'. bit (id == id')) (λ id' period. 0) a' = record {
        fine = refl;
        same_drv = refl;
        pulls = pulls;
        entries_more = λ id' q.
            ap (entries id' q) appended
            ∙ sum_by-append (is_entry id' q) a.line.ctx.queues e
            ∙ ap (λ n. entries id' q a.line.ctx.queues + n) (bit_if (queue == q) (id == id'));
        timeouts_more = λ id' period. omega arith;
      } in
      (
        subst (λ x. Grown queue a.line (λ id'. bit (id == id')) (λ id' period. 0) x) (sym runs)
            grown,
        ap (λ x. x.line.pull) runs,
        λ k. ap (λ x. x.entry) runs,
        λ k. cc,
      )

  push_timeout_lem :
      (rq : DataRq) (a : Adding W) (info : PullInfo) (id : ℕ)
      → a.line.pull ≡ some info
      → a.entry ≡ some id
      → (a' : Adding W) × (push_timeout v queue rq a ≡ some a')
        × (a'.entry ≡ some id)
        × Grown queue a.line
            (λ id'. 0)
            (λ id' period. bit ((id == id') && (rq.period_ns == period)))
            a'
  unfolding push_timeout
  push_timeout_lem rq a info id pull entry =
      let t : PullTimeoutInfo = record {
        id = id;
        current_timeout = rq.period_ns;
        max_timeout = rq.period_ns;
      } in
      let ok = memory PullTimeoutInfo info.timeout_info t a.world in
      let ts = (v.pushp info.timeout_info t a.world).1 in
      let appended = l.push_appends info.timeout_info t a.world ok in
      let line : Line = record (a.line) { pull = some (record info { timeout_info = ts }) } in
      let a' : Adding W = record a {
        fine = true;
        line = line;
        world = (v.pushp info.timeout_info t a.world).2;
      } in
      (
        a',
        rw (push_timeout, pull, entry, ok),
        entry,
        record {
          fine = refl;
          same_drv = refl;
          pulls = λ p. (record info { timeout_info = ts }, refl);
          entries_more = λ id' q. ground arith;
          timeouts_more = λ id' period. rw (pull) (
              omega (
                arith,
                ap (timeouts id' period) appended,
                sum_by-append (is_timeout id' period) info.timeout_info t,
              ));
        },
      )

  -- What one round of the loop leaves.
  pub record Round (before : List DataRq) (rq : DataRq) (a : Adding W) (last : ℕ) : Type 0 where
    pub next : Adding W
    pub runs :
        (rqs : List DataRq)
        → add_loop v queue before (rq ∷ rqs) a ≡ add_loop v queue (rq ∷ before) rqs next
    pub entry : next.entry ≡ some (owner last before rq)
    pub grown :
        Grown queue a.line
          (λ id. bit (not (has_id rq.id before) && (rq.id == id)))
          (λ id period.
            if is_pull a.line && ltb 0 rq.period_ns
            then bit ((owner last before rq == id) && (rq.period_ns == period))
            else 0)
          next

  add_loop_round :
      (before rqs : List DataRq) (rq : DataRq) (a a₁ a₂ : Adding W) (timed_too : Bool)
      → push_entry v queue (seen rq.id before) rq.id a ≡ a₁
      → (a₁.fine && is_pull a₁.line && ltb 0 rq.period_ns) ≡ timed_too
      → (if timed_too then push_timeout v queue rq a₁ else some a₁) ≡ some a₂
      → a₂.fine ≡ true
      → add_loop v queue before (rq ∷ rqs) a ≡ add_loop v queue (rq ∷ before) rqs a₂
  unfolding add_loop
  add_loop_round before rqs rq a a₁ a₂ timed_too opened test runs fine =
      rw (add_loop, opened, test, runs, fine)

  -- One round of the loop.
  pub round_lem :
      (before : List DataRq) (rq : DataRq) (a : Adding W) (last : ℕ)
      → a.fine ≡ true
      → Pulls a.line
      → (has_id rq.id before ≡ true → a.entry ≡ some last)
      → Round before rq a last
  round_lem before rq a last fine pulls entry =
      let known = has_id rq.id before in
      let (g, same_pull, pushed, kept) = push_entry_lem known rq.id a fine pulls in
      let a₁ = push_entry v queue known rq.id a in
      let opened : push_entry v queue (seen rq.id before) rq.id a ≡ a₁ =
        ap (λ b. push_entry v queue b rq.id a) (seen-has_id rq.id before) in
      let entry₁ : a₁.entry ≡ some (owner last before rq) = elim (Bool-cases known) [
        | inl k ↦ kept k ∙ entry k ∙ sym (ap (λ b. some (if b then last else rq.id)) k)
        | inr k ↦ pushed k ∙ sym (ap (λ b. some (if b then last else rq.id)) k)
      ] in
      let test : (a₁.fine && is_pull a₁.line && ltb 0 rq.period_ns)
          ≡ (is_pull a.line && ltb 0 rq.period_ns) =
        ap (λ b. b && is_pull a₁.line && ltb 0 rq.period_ns) g.fine
        ∙ ap (λ b. b && ltb 0 rq.period_ns) (ap driver_is_pull_mode g.same_drv) in
      elim (Bool-cases (is_pull a.line && ltb 0 rq.period_ns)) [
        | inl both ↦
            let pull : is_pull a₁.line ≡ true =
              ap driver_is_pull_mode g.same_drv
              ∙ and_left (is_pull a.line) (ltb 0 rq.period_ns) both in
            let (info, e) = g.pulls pull in
            let (a₂, runs, entry₂, g₂) =
              push_timeout_lem rq a₁ info (owner last before rq) e entry₁ in
            record {
              next = a₂;
              runs = λ rqs.
                  add_loop_round before rqs rq a a₁ a₂ true opened (test ∙ both) runs g₂.fine;
              entry = entry₂;
              grown =
                  grown-eq (grown_trans g g₂) (λ id. omega arith)
                    (λ id period. rw (both) (omega arith));
            }
        | inr neither ↦ record {
          next = a₁;
          runs =
              λ rqs. add_loop_round before rqs rq a a₁ a₁ false opened (test ∙ neither) refl g.fine;
          entry = entry₁;
          grown = grown-eq g (λ id. refl) (λ id period. rw (neither) refl);
        }
      ]
