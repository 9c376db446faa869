-- ===== src/Ctx/Read/Nowait.antt =====
-- `ctx_read_nowait` where no other thread runs between two pops.
use native.Mathlib.Nat.{mod-add-mod}
use hound.Base.{
  ℕ, zero, suc, ◌+◌, ◌-◌, ◌≤◌, ◌<◌, ◌≡◌, refl, ap, ◌∙◌, sym, subst, List, ◌++◌, arith, some, Option,
  ◌>>=◌, ◌==◌, ◌&&◌, ltb, if◌then◌else◌, length, length-take, take, add_size, sub_size,
  add_size_small, sub_size_small, word_mod, min, append_assoc, take-append-drop, take-add, ◌%◌,
  Bool-cases, inl, inr,
}
use hound.Records.{Heap}
use hound.Records.Owned.{IsOwned}
use hound.Queue.{Queue, pop_records, queue_pop_records_nowait}
use hound.Queue.Window.{length-window}
use hound.Queue.Valid.{IsValid, contents, advance, advance-IsValid, contents-advance}
use hound.Queue.Pop.{pop_records_lem}
use hound.Ctx.Read.{
  HoundCtx, start_read, stop_read, Others, Reading, buf_len, process_callbacks, read_loop,
  read_nowait, ctx_read_nowait,
}
use hound.Ctx.Read.Callbacks.{numbered, numbered-append, process_callbacks_lem}

-- What a read of `n` records does to a valid queue: the `n` oldest are handed to the callback, in order
-- and with consecutive sequence numbers from that of the front on, lose the queue's reference, and
-- leave the queue; `before` were read earlier in the same call.
pub record Reads (q : Queue) (n before : ℕ) (held : List ℕ) (h : Heap) (r : Option Reading)
    : Type 0 where
  pub heap : Heap
  pub result :
      r
      ≡ some (record {
        calls = numbered q.front_seqno (take n (contents q));
        total = before + n;
        queue = advance q n;
        heap = heap;
      })
  pub owned : IsOwned (contents (advance q n) ++ held) heap

-- One round: the pop and its callbacks.
pub round :
    (q : Queue) (held : List ℕ) (h : Heap) (n : ℕ)
    → IsValid q
    → n ≤ q.len
    → IsOwned (contents q ++ held) h
    → (h' : Heap) × (process_callbacks (take n (contents q)) q.front_seqno h
        ≡ some (numbered q.front_seqno (take n (contents q)), h'))
      × IsOwned (contents (advance q n) ++ held) h'
round q held h n v le own =
    process_callbacks_lem (take n (contents q)) (contents (advance q n) ++ held) q.front_seqno h (
      subst (λ xs. IsOwned xs h)
        (ap (λ xs. xs ++ held)
            (sym (
              ap (λ xs. take n (contents q) ++ xs) (contents-advance q n le)
              ∙ take-append-drop n (contents q)))
          ∙ append_assoc (take n (contents q)) (contents (advance q n)) held)
        own)

pub loop_step :
    (fuel : ℕ) (others : Others) (q : Queue) (h h' : Heap) (records total n : ℕ)
    → IsValid q
    → total ≤ records
    → records < word_mod
    → n ≡ min (min (records - total) buf_len) q.len
    → process_callbacks (take n (contents q)) q.front_seqno h
      ≡ some (numbered q.front_seqno (take n (contents q)), h')
    → read_loop (suc fuel) others q h records total ≡ (
        if (n == min (records - total) buf_len) && ltb (total + n) records
        then ((others 0 (advance q n) h' >>= λ s.
              read_loop fuel (λ i. others (suc i)) s.0 s.1 records (total + n))
            >>= λ r.
                some (record r { calls = numbered q.front_seqno (take n (contents q)) ++ r.calls }))
        else some (record {
          calls = numbered q.front_seqno (take n (contents q));
          total = total + n;
          queue = advance q n;
          heap = h';
        }))
unfolding read_loop queue_pop_records_nowait
loop_step fuel others q h h' records total n v le small e calls =
    let target = min (records - total) buf_len in
    let popped : pop_records buf_len q target
        ≡ some (
          n,
          record { buf = take n (contents q); first_seqno = q.front_seqno; queue = advance q n },
        ) =
      pop_records_lem buf_len q target v (omega arith)
      ∙ ap
          (λ m. some (
            m,
            record { buf = take m (contents q); first_seqno = q.front_seqno; queue = advance q m },
          ))
          (sym e) in
    rw (
      sub_size_small records total le (omega arith),
      popped,
      calls,
      add_size_small total n (omega arith),
    )

joins :
    (q : Queue) (n m : ℕ)
    → IsValid q
    → n + m ≤ q.len
    → numbered q.front_seqno (take n (contents q))
        ++ numbered (advance q n).front_seqno (take m (contents (advance q n)))
      ≡ numbered q.front_seqno (take (n + m) (contents q))
joins q n m v le =
    let xs = contents q in
    let whole : take n xs ++ take m (contents (advance q n)) ≡ take (n + m) xs =
      ap (λ ys. take n xs ++ take m ys) (contents-advance q n (omega arith))
      ∙ sym (take-add n m xs) in
    let count : length (take n xs) ≡ n =
      omega (arith, length-take n xs, length-window q.slots q.max_len q.front q.len) in
    ap
      (λ k.
        numbered q.front_seqno (take n xs)
        ++ numbered (add_size q.front_seqno k) (take m (contents (advance q n))))
      (sym count)
    ∙ sym (numbered-append q.front_seqno (take n xs) (take m (contents (advance q n))) v.seqno_in)
    ∙ ap (numbered q.front_seqno) whole

advance-advance : (q : Queue) (n m : ℕ) → advance (advance q n) m ≡ advance q (n + m)
advance-advance q n m =
    let l : q.len - n - m ≡ q.len - (n + m) = omega arith in
    let f : ((q.front + n) % q.max_len + m) % q.max_len ≡ (q.front + (n + m)) % q.max_len =
      mod-add-mod (q.front + n) q.max_len m ∙ ap (λ i. i % q.max_len) (omega arith) in
    let s : add_size (add_size q.front_seqno n) m ≡ add_size q.front_seqno (n + m) = omega arith in
    λ i. record q { len = l i; front = f i; front_seqno = s i }

-- No other thread runs between two pops: the records asked for fit the buffer, so that there is one
-- pop, or the others do nothing.
pub data IsAlone (others : Others) (records : ℕ) : Type 0 where
  one_pop : records ≤ buf_len → IsAlone others records
  quiet : ((i : ℕ) (q : Queue) (h : Heap) → others i q h ≡ some (q, h)) → IsAlone others records

-- Where another round follows, the others do nothing.
pub rest_alone :
    (others : Others) (records n : ℕ)
    → IsAlone others records
    → buf_len < records
    → ((q : Queue) (h : Heap) → others 0 q h ≡ some (q, h)) × IsAlone (λ i. others (suc i)) records
rest_alone others records n (one_pop fits) more = absurd (omega arith)
rest_alone others records n (quiet none_runs) more =
    (λ q h. none_runs 0 q h, quiet (λ i q h. none_runs (suc i) q h))

read_loop_lem :
    (fuel : ℕ) (others : Others) (q : Queue) (held : List ℕ) (h : Heap) (records total : ℕ)
    → IsValid q
    → IsOwned (contents q ++ held) h
    → total ≤ records
    → records < word_mod
    → IsAlone others records
    → records - total < fuel
    → Reads q (min (records - total) q.len) total held h (read_loop fuel others q h records total)
read_loop_lem zero others q held h records total v own le small solo enough = absurd (omega arith)
read_loop_lem (suc fuel) others q held h records total v own le small solo enough =
    let n = min (min (records - total) buf_len) q.len in
    let (h', calls, own') = round q held h n v (omega arith) own in
    let step = loop_step fuel others q h h' records total n v le small refl calls in
    elim (Bool-cases ((n == min (records - total) buf_len) && ltb (total + n) records)) [
      | inr stop ↦
          let e : n ≡ min (records - total) q.len = ground arith in
          subst (λ k. Reads q k total held h (read_loop (suc fuel) others q h records total)) e
            (record { heap = h'; result = step ∙ rw stop; owned = own' })
      | inl go ↦
          let here : (n ≡ min (records - total) buf_len) × (total + n < records) = ground arith in
          let m = min (records - (total + n)) (q.len - n) in
          let (nothing, later) = rest_alone others records n solo (omega (arith, here)) in
          let rest =
            read_loop_lem fuel (λ i. others (suc i)) (advance q n) held h' records (total + n)
              (advance-IsValid q n v) own' (omega arith) small later (omega arith) in
          let e : n + m ≡ min (records - total) q.len = omega arith in
          subst (λ k. Reads q k total held h (read_loop (suc fuel) others q h records total)) e
            (record {
              heap = rest.heap;
              result =
                  step
                  ∙ rw go (
                      rw (nothing (advance q n) h', rest.result)
                        (λ i. some (record {
                          calls = joins q n m v (omega arith) i;
                          total = let t : total + n + m ≡ total + (n + m) = omega arith in t i;
                          queue = advance-advance q n m i;
                          heap = rest.heap;
                        })));
              owned =
                  subst (λ x. IsOwned (contents x ++ held) rest.heap) (advance-advance q n m)
                    rest.owned;
            })
    ]

-- What a read of `n` records does to a context: `Reads` of its queue, and the number of readers is as
-- before.
pub record ReadsCtx (ctx : HoundCtx) (n : ℕ) (held : List ℕ) (h : Heap)
    (r : Option (Reading × HoundCtx)) : Type 0 where
  pub heap : Heap
  pub result :
      r
      ≡ some (
        record {
          calls = numbered ctx.queue.front_seqno (take n (contents ctx.queue));
          total = n;
          queue = advance ctx.queue n;
          heap = heap;
        },
        record ctx { queue = advance ctx.queue n },
      )
  pub owned : IsOwned (contents (advance ctx.queue n) ++ held) heap

pub read_nowait_lem :
    (others : Others) (q : Queue) (held : List ℕ) (h : Heap) (records : ℕ)
    → IsValid q
    → IsOwned (contents q ++ held) h
    → records < word_mod
    → IsAlone others records
    → Reads q (min records q.len) 0 held h (read_nowait others q h records)
unfolding read_nowait
read_nowait_lem others q held h records v own small solo =
    subst (λ k. Reads q k 0 held h (read_loop (records + 1) others q h records 0)) (omega arith)
      (read_loop_lem (records + 1) others q held h records 0 v own (omega arith) small solo
        (omega arith))

-- The count of the readers goes back.
pub stop-start : (n : ℕ) → n + 1 < word_mod → sub_size (add_size n 1) 1 ≡ n
stop-start n small = omega arith

-- `ctx_read_nowait` on a context whose queue is valid and owns its entries has no fault, and returns the
-- total min records len: the callback is called for that many oldest records, in order and with
-- consecutive sequence numbers from that of the front on, and they leave the queue and lose its
-- reference. Either at most 512 records are asked for, or no other thread touches the queue and its
-- records between two pops.
pub ctx_read_nowait_lem :
    (others : Others) (ctx : HoundCtx) (held : List ℕ) (h : Heap) (records : ℕ)
    → IsValid ctx.queue
    → IsOwned (contents ctx.queue ++ held) h
    → records < word_mod
    → ctx.readers + 1 < word_mod
    → IsAlone others records
    → ReadsCtx ctx (min records ctx.queue.len) held h (ctx_read_nowait others ctx h records)
unfolding ctx_read_nowait start_read stop_read
ctx_read_nowait_lem others ctx held h records v own small few solo =
    let r = read_nowait_lem others ctx.queue held h records v own small solo in
    let back = stop-start ctx.readers few in
    let n = min records ctx.queue.len in
    let sum : 0 + n ≡ n = omega arith in
    record {
      heap = r.heap;
      result = rw (r.result) (λ i. some (
        record {
          calls = numbered ctx.queue.front_seqno (take n (contents ctx.queue));
          total = sum i;
          queue = advance ctx.queue n;
          heap = r.heap;
        },
        record ctx { readers = back i; queue = advance ctx.queue n },
      ));
      owned = r.owned;
    }
