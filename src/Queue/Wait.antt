-- ===== src/Queue/Wait.antt =====
-- `queue_pop_records`, which blocks until enough records are there or the queue is interrupted. While
-- it waits, other threads run: each wakeup comes with the calls that they made in between.
use hound.Base.{
  ◌⊎◌, inl, inr, Bool-cases, >>=-eq-some, sub_size_small, ℕ, zero, suc, ◌+◌, ◌-◌, ◌≤◌, ◌≡◌, ap, ◌∙◌,
  List, [], ◌∷◌, ◌++◌, arith, Option, none, some, Bool, true, false, not, ◌&&◌, ◌==◌, length, ltb,
  le→ltb, if◌then◌else◌, ◌>>=◌, take, min, sub_size,
}
use hound.Records.{Heap}
use hound.Queue.{Queue, queue_push, queue_interrupt, pop_records}
use hound.Queue.Valid.{IsValid, contents, advance}
use hound.Queue.Pop.{pop_records_lem}

-- A call of another thread.
pub data Call : Type 0 where
  pushes : ℕ → Heap → Call
  interrupts : Call

-- The calls of one wait. The heap at each push is that thread's.
unfoldable pub run_calls : Queue → List Call → Option Queue
run_calls q [] = some q
run_calls q (pushes rec h ∷ cs) = do (q', h') ← queue_push q rec h; run_calls q' cs
run_calls q (interrupts ∷ cs) = run_calls (queue_interrupt q) cs

-- Where the caller stands after the wakeups given.
pub data Waiting : Type 0 where
  blocked : Queue → Waiting
  ready : Queue → List (List Call) → Waiting

-- The test of the `while` loop.
abbrev pub must_wait : Queue → ℕ → Bool
must_wait q records = ltb q.len records && not q.interrupt

-- `while (queue->len < records && !queue->interrupt) cond_wait(...)`, over the wakeups to come.
unfoldable pub wait_ready : List (List Call) → Queue → ℕ → Option Waiting
wait_ready [] q records = if must_wait q records then some (blocked q) else some (ready q [])
wait_ready (w ∷ ws) q records = elim (must_wait q records) [
  | true ↦ do q' ← run_calls q w; wait_ready ws q' records
  | false ↦ some (ready q (w ∷ ws))
]

-- What a call comes to: it still waits, or it has returned.
pub record Return : Type 0 where
  pub count : ℕ
  pub buf : List ℕ
  pub first_seqno : Option ℕ
  pub interrupt : Bool
  pub queue : Queue

pub data Outcome : Type 0 where
  waits : Queue → Outcome
  returns : Return → Outcome

-- The `do` loop, on fuel; `*first_seqno` is indeterminate until the first pop.
unfoldable pub pop_loop : ℕ → ℕ → Queue → List (List Call) → ℕ → List ℕ → Option ℕ → Option Outcome
pop_loop zero room q wakes records buf seqno = none
pop_loop (suc fuel) room q wakes records buf seqno = do
  let count = length buf
  state ← wait_ready wakes q records
  elim state [
    | blocked q' ↦ some (waits q')
    | ready q' ws ↦ elim q'.interrupt [
      | true ↦ some (
          returns (record {
            count = count;
            buf = buf;
            first_seqno = seqno;
            interrupt = true;
            queue = record q' { interrupt = false };
          }))
      | false ↦ do
        (n, p) ← pop_records (room - count) q' (sub_size records count)
        let seqno' = if count == 0 then some p.first_seqno else seqno
        let rest = pop_loop fuel room p.queue ws records (buf ++ p.buf) seqno'
        if ltb (count + n) records
            then rest
            else some (
                returns (record {
                  count = count + n;
                  buf = buf ++ p.buf;
                  first_seqno = seqno';
                  interrupt = false;
                  queue = p.queue;
                }))
    ]
  ]

-- `queue_pop_records`. The first round pops all of the records, so two rounds are enough fuel.
unfoldable pub queue_pop_records : ℕ → Queue → List (List Call) → ℕ → Option Outcome
unfolding pop_loop
queue_pop_records room q wakes records = pop_loop 2 room q wakes records [] none

wait_now :
    (wakes ws : List (List Call)) (q q' : Queue) (records : ℕ)
    → (if must_wait q records then some (blocked q) else some (ready q wakes)) ≡ some (ready q' ws)
    → (records ≤ q'.len) ⊎ (q'.interrupt ≡ true)
wait_now wakes ws q q' records e = ground arith

step_true :
    (w : List Call) (wakes ws : List (List Call)) (q q' : Queue) (records : ℕ)
    → must_wait q records ≡ true
    → wait_ready (w ∷ wakes) q records ≡ some (ready q' ws)
    → (run_calls q w >>= λ r. wait_ready wakes r records) ≡ some (ready q' ws)
unfolding wait_ready
step_true w wakes ws q q' records more e = rw (more, wait_ready) at e

step_false :
    (w : List Call) (wakes ws : List (List Call)) (q q' : Queue) (records : ℕ)
    → must_wait q records ≡ false
    → wait_ready (w ∷ wakes) q records ≡ some (ready q' ws)
    → some (ready q (w ∷ wakes)) ≡ some (ready q' ws)
unfolding wait_ready
step_false w wakes ws q q' records done e = rw (done, wait_ready) at e

-- The wait ends only when the records are there or the queue is interrupted.
pub wait_ready-ready :
    (wakes ws : List (List Call)) (q q' : Queue) (records : ℕ)
    → wait_ready wakes q records ≡ some (ready q' ws)
    → (records ≤ q'.len) ⊎ (q'.interrupt ≡ true)
unfolding wait_ready
wait_ready-ready [] ws q q' records e = wait_now [] ws q q' records e
wait_ready-ready (w ∷ wakes) ws q q' records e = elim (Bool-cases (must_wait q records)) [
  | inl more ↦
      let (q₁, _, e₁) =
        >>=-eq-some (run_calls q w) (λ r. wait_ready wakes r records)
          (step_true w wakes ws q q' records more e) in
      wait_ready-ready wakes ws q₁ q' records e₁
  | inr done ↦
      wait_now (w ∷ wakes) ws q q' records (rw (done) (step_false w wakes ws q q' records done e))
]

-- A wait that ends at a valid queue without an interrupt, with room for the records: exactly the
-- records asked for are popped, oldest first, in one round, and the first sequence number is that of
-- the queue after the wait.
pub queue_pop_records_lem :
    (room : ℕ) (q q' : Queue) (wakes ws : List (List Call)) (records : ℕ)
    → wait_ready wakes q records ≡ some (ready q' ws)
    → IsValid q'
    → q'.interrupt ≡ false
    → records ≤ room
    → queue_pop_records room q wakes records
      ≡ some (
          returns (record {
            count = records;
            buf = take records (contents q');
            first_seqno = some q'.front_seqno;
            interrupt = false;
            queue = advance q' records;
          }))
unfolding queue_pop_records pop_loop
queue_pop_records_lem room q q' wakes ws records e v quiet fits =
    let there : records ≤ q'.len = elim (wait_ready-ready wakes ws q q' records e) [
      | inl h ↦ h
      | inr h ↦ cc
    ] in
    let all : min records q'.len ≡ records = omega arith in
    let popped : pop_records (room - 0) q' (records - 0)
        ≡ some (
          records,
          record {
            buf = take records (contents q');
            first_seqno = q'.front_seqno;
            queue = advance q' records;
          },
        ) =
      ap (pop_records (room - 0) q') (omega arith)
      ∙ pop_records_lem (room - 0) q' records v (omega arith)
      ∙ ap
          (λ m. some (
            m,
            record {
              buf = take m (contents q');
              first_seqno = q'.front_seqno;
              queue = advance q' m;
            },
          ))
          all in
    let total : 0 + records ≡ records = omega arith in
    rw
      (
        e,
        quiet,
        sub_size_small records 0 (omega arith) (omega (arith, v.len_in, v.small)),
        popped,
        le→ltb (0 + records) records (omega arith),
      )
      λ i. some (
        returns (record {
          count = total i;
          buf = take records (contents q');
          first_seqno = some q'.front_seqno;
          interrupt = false;
          queue = record (advance q' records) { interrupt = quiet i };
        }))
