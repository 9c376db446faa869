-- ===== src/Queue/Resize/Flush.antt =====
-- `queue_resize` with a flush, which leaves no layout to keep.
use hound.Base.{
  ℕ, ◌-◌, ◌<◌, ◌≤◌, ◌≡◌, refl, ap, ◌∙◌, sym, subst, List, [], ◌++◌, arith, some, true, length, drop,
  add_size, le→ltb, lt→ltb, ne→==, eq→==, inl,
}
use native.Mathlib.Decide.{dec_lt}
use hound.Err.{HoundErr}
use hound.Records.{Heap}
use hound.Records.Owned.{IsOwned}
use hound.Queue.{Queue, drain_nolock, drain_until}
use hound.Queue.Window.{window}
use hound.Queue.Valid.{IsValid, contents, max_cap}
use hound.Queue.Drain.{Drained, drain_until_lem}
use hound.Queue.Resize.{expand_queue, realloc_slots, make_fit, change_block, queue_resize}
use hound.Queue.Resize.Moves.{length-realloc_slots}
use hound.Queue.Resize.Expand.{expand_queue_lem, grown}
use hound.Queue.Resize.Outcome.{Resized}

-- A queue without entries has no contents, wherever its front is.
contents_empty : (q : Queue) → q.len ≡ 0 → contents q ≡ []
contents_empty q e = ap (λ n. window q.slots q.max_len q.front n) {y = 0} e

module _ (q : Queue) (n : ℕ) (fill : ℕ → ℕ) (held : List ℕ) (h : Heap) (v : IsValid q) (pos : 0 < n)
    (small : n < max_cap) (own : IsOwned (contents q ++ held) h) where
  -- The queue after the drain, with its front reset.
  flushed : Drained q (q.len - 0) held h (drain_until q 0 h) → Queue
  flushed d = record d.queue { front = 0 }

  flush_fit :
      (d : Drained q (q.len - 0) held h (drain_until q 0 h))
      → make_fit q n true h ≡ some (flushed d, d.heap)
  unfolding make_fit drain_nolock flushed
  flush_fit d = rw (d.returns)

  emptied :
      (d : Drained q (q.len - 0) held h (drain_until q 0 h)) (q₂ : Queue)
      → queue_resize q (some fill) n true h ≡ some (HoundErr.ok, q₂, d.heap)
      → q₂.len ≡ 0
      → q₂.front < n
      → n ≤ length q₂.slots
      → q₂.front_seqno ≡ d.queue.front_seqno
      → q₂.max_len ≡ n
      → q₂.interrupt ≡ d.queue.interrupt
      → Resized q n q.len held (queue_resize q (some fill) n true h)
  emptied d q₂ e none_left front room seqno cap flag =
      let all : q.len - 0 ≡ q.len = omega arith in
      let gone : contents d.queue ≡ [] = contents_empty d.queue (omega (arith, d.drops.left)) in
      let now = contents_empty q₂ none_left in
      record {
        queue = q₂;
        heap = d.heap;
        returns = e;
        valid = record {
          positive = omega (arith, cap);
          small = omega (arith, cap);
          storage = omega (arith, cap, room);
          front_in = omega (arith, cap, front);
          len_in = omega (arith, none_left);
          seqno_in = omega (arith, seqno, d.drops.valid.seqno_in);
        };
        holds = now ∙ sym gone ∙ d.drops.kept ∙ ap (λ k. drop k (contents q)) all;
        seqno = seqno ∙ d.drops.seqno ∙ ap (add_size q.front_seqno) all;
        capacity = cap;
        flag = flag ∙ d.drops.flag;
        owned = subst (λ xs. IsOwned (xs ++ held) d.heap) (gone ∙ sym now) d.owned;
      }

  -- With a flush, and where realloc succeeds, a resize to a positive capacity below 2 ^ 60 of a valid
  -- queue that owns its entries has no fault in any layout: every entry leaves and loses the queue's
  -- reference, the sequence number moves on by their number, and the queue is valid.
  pub queue_resize_flush : Resized q n q.len held (queue_resize q (some fill) n true h)
  unfolding queue_resize change_block flushed
  queue_resize_flush =
      let d = drain_until_lem q 0 held h v own in
      let q₀ = flushed d in
      let vd = d.drops.valid in
      let left : d.queue.len ≡ 0 = omega (arith, d.drops.left) in
      elim (dec_lt q.max_len n) [
        | yes more ↦
            let v₀ : IsValid q₀ = record {
              positive = vd.positive;
              small = vd.small;
              storage = vd.storage;
              front_in = vd.positive;
              len_in = vd.len_in;
              seqno_in = vd.seqno_in;
            } in
            let (q₂, e, s) =
              expand_queue_lem q₀ n fill v₀ (omega (arith, d.drops.capacity)) small
                (inl (omega (arith, left))) in
            let e' : expand_queue (record q₀ { slots = realloc_slots fill n q₀.slots }) n
                ≡ some q₂ =
              unfold grown in e in
            emptied d (record q₂ { max_len = n })
              (rw (
                flush_fit d,
                ne→== n q.max_len (omega arith),
                lt→ltb d.queue.max_len n (omega (arith, d.drops.capacity)),
                e',
              ))
              (s.same_len ∙ left) s.front_in (omega (arith, s.array)) s.seqno refl s.flag
        | no fewer ↦ elim (dec_lt n q.max_len) [
          | yes less ↦
              emptied d (record q₀ { slots = realloc_slots fill n q₀.slots; max_len = n })
                (rw (
                  flush_fit d,
                  ne→== n q.max_len (omega arith),
                  le→ltb d.queue.max_len n (omega (arith, d.drops.capacity)),
                ))
                left pos (omega (arith, length-realloc_slots fill n q₀.slots small)) refl refl refl
          | no other ↦
              let same : n ≡ q.max_len = omega arith in
              emptied d (record q₀ { max_len = n }) (rw (flush_fit d, eq→== n q.max_len same)) left
                pos (omega (arith, vd.storage, d.drops.capacity)) refl refl refl
        ]
      ]
