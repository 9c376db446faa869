-- ===== src/Queue/Drain.antt =====
-- `drain_until`, `drain_nolock` and `queue_drain`.
use native.Mathlib.Decide.{dec_le}
use hound.Base.{
  [], refl, le→leb, lt→leb, add_size, ◌%◌, ℕ, ◌+◌, ◌-◌, ◌≤◌, ◌<◌, ◌≡◌, ap, ◌∙◌, subst, List, ◌++◌,
  arith, Option, some, append_assoc,
}
use hound.Records.{Heap}
use hound.Records.Owned.{IsOwned, release-IsOwned}
use hound.Queue.{queue_destroy, Queue, drain_loop, drain_until, drain_nolock, queue_drain}
use hound.Queue.Window.{window}
use hound.Queue.Window.{window}
use hound.Queue.Valid.{
  IsValid, contents, drain_loop_lem, advance, contents-split, Drops, advance-Drops, zero-Drops,
}

-- What draining does: the oldest entries leave the queue, each loses the queue's reference to it, and
-- the sequence number of the front moves on by their number.
pub record Drained (q : Queue) (n : ℕ) (held : List ℕ) (h : Heap) (r : Option (Queue × Heap))
    : Type 0 where
  pub queue : Queue
  pub heap : Heap
  pub returns : r ≡ some (queue, heap)
  pub drops : Drops q n queue
  pub owned : IsOwned (contents queue ++ held) heap

drain_until_short :
    (q : Queue) (new_len : ℕ) (h : Heap) → q.len ≤ new_len → drain_until q new_len h ≡ some (q, h)
unfolding drain_until
drain_until_short q new_len h le = rw (le→leb q.len new_len le, drain_until)

drain_until_long :
    (q : Queue) (new_len : ℕ) (h h' : Heap) (q' : Queue)
    → new_len < q.len
    → drain_loop (q.len - new_len) q h ≡ some (q', h')
    → drain_until q new_len h
      ≡ some
          (record q' { front_seqno = add_size q'.front_seqno (q.len - new_len); len = new_len }, h')
unfolding drain_until
drain_until_long q new_len h h' q' lt e = rw (lt→leb q.len new_len lt, drain_until) (rw e)

-- Draining a valid queue that owns its entries down to `new_len` entries has no fault: exactly the
-- oldest entries beyond that number leave, each loses the queue's reference, and the sequence number
-- moves on by their number.
pub drain_until_lem :
    (q : Queue) (new_len : ℕ) (held : List ℕ) (h : Heap)
    → IsValid q
    → IsOwned (contents q ++ held) h
    → Drained q (q.len - new_len) held h (drain_until q new_len h)
drain_until_lem q new_len held h v own = elim (dec_le q.len new_len) [
  | yes le ↦ record {
    queue = q;
    heap = h;
    returns = drain_until_short q new_len h le;
    drops = subst (λ n. Drops q n q) {x = 0} (omega arith) (zero-Drops q v);
    owned = own;
  }
  | no gt ↦
      let n = q.len - new_len in
      let gone = window q.slots q.max_len q.front n in
      let (h', e, own') = release-IsOwned gone (contents (advance q n) ++ held) h (
        subst (λ xs. IsOwned xs h)
          (ap (λ xs. xs ++ held) (contents-split q n (omega arith))
            ∙ append_assoc gone (contents (advance q n)) held)
          own) in
      record {
        queue = advance q n;
        heap = h';
        returns =
            drain_until_long q new_len h h' (record q { front = (q.front + n) % q.max_len })
              (omega arith) (drain_loop_lem n q h h' v e)
            ∙ ap (λ l. some (record (advance q n) { len = l }, h')) {x = new_len} {y = q.len - n}
                (omega arith);
        drops = advance-Drops q n v (omega arith);
        owned = own';
      }
]

-- `queue_drain` empties a valid queue, without a fault.
pub queue_drain_lem :
    (q : Queue) (held : List ℕ) (h : Heap)
    → IsValid q
    → IsOwned (contents q ++ held) h
    → Drained q q.len held h (queue_drain q h)
unfolding queue_drain drain_nolock
queue_drain_lem q held h v own =
    subst (λ n. Drained q n held h (drain_until q 0 h)) (omega arith)
      (drain_until_lem q 0 held h v own)

-- Destroying a valid queue that owns its entries has no fault, and drops the queue's references and
-- no others.
pub queue_destroy_lem :
    (q : Queue) (held : List ℕ) (h : Heap)
    → IsValid q
    → IsOwned (contents q ++ held) h
    → (h' : Heap) × (queue_destroy q h ≡ some h') × IsOwned held h'
unfolding queue_destroy drain_nolock
queue_destroy_lem q held h v own =
    let d = drain_until_lem q 0 held h v own in
    let empty : contents d.queue ≡ [] =
      ap (λ n. window d.queue.slots d.queue.max_len d.queue.front n) {y = 0}
        (omega (arith, d.drops.left)) in
    (d.heap, rw (d.returns) refl, subst (λ xs. IsOwned (xs ++ held) d.heap) empty d.owned)
