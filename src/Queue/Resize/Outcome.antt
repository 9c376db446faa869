-- ===== src/Queue/Resize/Outcome.antt =====
-- `queue_resize` as a whole.
use native.Mathlib.Nat.{mod-lt}
use hound.Base.{
  ℕ, ◌+◌, ◌-◌, ◌%◌, ◌≤◌, ◌<◌, ◌≡◌, ◌⊎◌, inl, inr, refl, ap, ◌∙◌, sym, subst, List, ◌++◌, arith,
  some, lt→ltb, le→ltb, eq→==, ne→==, length, drop, add_size, add_size_small, mod_size_pos, Option,
  false,
}
use hound.Err.{HoundErr}
use hound.Records.{Heap}
use hound.Records.Owned.{IsOwned}
use hound.Queue.{Queue, drain_until}
use hound.Queue.Window.{window, window_ext}
use hound.Queue.Valid.{IsValid, contents, max_cap, advance, Drops}
use hound.Queue.Drain.{drain_until_lem}
use hound.Queue.Resize.{
  contract_slots, contract_queue, expand_queue, realloc_slots, make_fit, change_block, queue_resize,
}
use hound.Queue.Resize.Moves.{length-realloc_slots, get_or-realloc_slots}
use hound.Queue.Resize.Contract.{Fits, Contractible, contract_slots_lem}
use hound.Queue.Resize.Expand.{Expandable, expand_queue_lem, grown}

-- What a resize to `n` entries does: the `k` oldest entries leave and lose the queue's reference, the
-- others stay in order, in a valid queue of the new capacity.
pub record Resized (q : Queue) (n k : ℕ) (held : List ℕ) (r : Option (HoundErr × Queue × Heap))
    : Type 0 where
  pub queue : Queue
  pub heap : Heap
  pub returns : r ≡ some (HoundErr.ok, queue, heap)
  pub valid : IsValid queue
  pub holds : contents queue ≡ drop k (contents q)
  pub seqno : queue.front_seqno ≡ add_size q.front_seqno k
  pub capacity : queue.max_len ≡ n
  pub flag : queue.interrupt ≡ q.interrupt
  pub owned : IsOwned (contents queue ++ held) heap

-- The queues that `queue_resize` is right about without a flush.
abbrev pub Resizable : Queue → ℕ → Type 0
Resizable q n =
    (n ≡ q.max_len)
    ⊎ ((n < q.max_len) × Contractible (advance q (q.len - n)) n)
    ⊎ ((q.max_len < n) × Expandable q)

module _ (q : Queue) (n : ℕ) (fill : ℕ → ℕ) (held : List ℕ) (h : Heap) (v : IsValid q) (pos : 0 < n)
    (small : n < max_cap) (own : IsOwned (contents q ++ held) h) where
  same_size : n ≡ q.max_len → Resized q n (q.len - n) held (queue_resize q (some fill) n false h)
  unfolding queue_resize make_fit
  same_size e =
      let none_dropped : 0 ≡ q.len - n = omega (arith, v.len_in) in
      record {
        queue = q;
        heap = h;
        returns =
            rw (le→ltb n q.max_len (omega arith), eq→== n q.max_len e)
              (ap (λ m. some (HoundErr.ok, record q { max_len = m }, h)) e);
        valid = v;
        holds = ap (λ k. drop k (contents q)) none_dropped;
        seqno =
            let e' : q.front_seqno ≡ add_size q.front_seqno 0 = omega (arith, v.seqno_in) in
            e' ∙ ap (add_size q.front_seqno) none_dropped;
        capacity = sym e;
        flag = refl;
        owned = own;
      }

  -- The queue in the smaller block: the cells below `n` are as they were.
  shrunk : Queue → Queue
  shrunk q' = record q' { slots = realloc_slots fill n q'.slots; max_len = n }

  shrunk-entries :
      (q' : Queue) → n ≤ length q'.slots → contents (shrunk q') ≡ window q'.slots n q'.front q'.len
  unfolding shrunk
  shrunk-entries q' room = window_ext _ _ n n q'.front q'.front q'.len λ k lt.
      get_or-realloc_slots fill n q'.slots small ((q'.front + k) % n) (mod-lt (q'.front + k) pos)
        (omega (arith, mod-lt (q'.front + k) pos))

  contract_queue_run :
      (q₁ q₂ : Queue) (h₁ : Heap)
      → n < q.max_len
      → drain_until q n h ≡ some (q₁, h₁)
      → IsValid q₁
      → contract_slots q₁ n ((q₁.front + q₁.len) % q₁.max_len) ≡ some q₂
      → q₂.max_len ≡ q.max_len
      → queue_resize q (some fill) n false h ≡ some (HoundErr.ok, shrunk q₂, h₁)
  unfolding queue_resize make_fit contract_queue change_block shrunk
  contract_queue_run q₁ q₂ h₁ lt e v₁ e₂ cap = rw (
    lt→ltb n q.max_len lt,
    e,
    add_size_small q₁.front q₁.len (omega (arith, v₁.front_in, v₁.len_in, v₁.small)),
    mod_size_pos (q₁.front + q₁.len) q₁.max_len v₁.positive,
    e₂,
    ne→== n q.max_len (omega arith),
    le→ltb q₂.max_len n (omega arith),
  )

  contracted :
      (q₁ q₂ : Queue) (h₁ : Heap)
      → n < q.max_len
      → drain_until q n h ≡ some (q₁, h₁)
      → Drops q (q.len - n) q₁
      → IsOwned (contents q₁ ++ held) h₁
      → contract_slots q₁ n ((q₁.front + q₁.len) % q₁.max_len) ≡ some q₂
      → Fits q₁ n q₂
      → Resized q n (q.len - n) held (queue_resize q (some fill) n false h)
  unfolding shrunk
  contracted q₁ q₂ h₁ lt e drops owned e₂ fits =
      let v₁ = drops.valid in
      let room : n ≤ length q₂.slots = omega (arith, fits.array, v₁.storage, drops.capacity) in
      let same : contents (shrunk q₂) ≡ contents q₁ = shrunk-entries q₂ room ∙ fits.entries in
      record {
        queue = shrunk q₂;
        heap = h₁;
        returns = contract_queue_run q₁ q₂ h₁ lt e v₁ e₂ (fits.capacity ∙ drops.capacity);
        valid = record {
          positive = pos;
          small = small;
          storage = omega (arith, length-realloc_slots fill n q₂.slots small);
          front_in = fits.front_in;
          len_in = omega (arith, fits.same_len, drops.left);
          seqno_in = omega (arith, fits.seqno, v₁.seqno_in);
        };
        holds = same ∙ drops.kept;
        seqno = fits.seqno ∙ drops.seqno;
        capacity = refl;
        flag = fits.flag ∙ drops.flag;
        owned = subst (λ xs. IsOwned (xs ++ held) h₁) (sym same) owned;
      }

  still-Contractible :
      (q₁ : Queue)
      → Drops q (q.len - n) q₁
      → Contractible (advance q (q.len - n)) n
      → Contractible q₁ n
  still-Contractible q₁ drops (inl g) = inl (omega (arith, drops.start, drops.left, drops.capacity))
  still-Contractible q₁ drops (inr g) = inr (omega (arith, drops.start, drops.left, drops.capacity))

  smaller :
      n < q.max_len
      → Contractible (advance q (q.len - n)) n
      → Resized q n (q.len - n) held (queue_resize q (some fill) n false h)
  smaller lt good =
      let d = drain_until_lem q n held h v own in
      let (q₂, e₂, fits) =
        contract_slots_lem d.queue n d.drops.valid pos (omega (arith, d.drops.capacity))
          (omega (arith, d.drops.left)) (still-Contractible d.queue d.drops good) in
      contracted d.queue q₂ d.heap lt d.returns d.drops d.owned e₂ fits

  expanded_run :
      (q₁ q₂ : Queue) (h₁ : Heap)
      → q.max_len < n
      → q₁.max_len ≡ q.max_len
      → make_fit q n false h ≡ some (q₁, h₁)
      → expand_queue (record q₁ { slots = realloc_slots fill n q₁.slots }) n ≡ some q₂
      → queue_resize q (some fill) n false h ≡ some (HoundErr.ok, record q₂ { max_len = n }, h₁)
  unfolding queue_resize change_block
  expanded_run q₁ q₂ h₁ lt cap e e₂ =
      rw (e, ne→== n q.max_len (omega arith), lt→ltb q₁.max_len n (omega arith), e₂)

  larger :
      q.max_len < n
      → Expandable q
      → Resized q n (q.len - n) held (queue_resize q (some fill) n false h)
  larger lt good =
      let (q₂, e, s) = expand_queue_lem q n fill v lt small good in
      let none_dropped : 0 ≡ q.len - n = omega (arith, v.len_in) in
      record {
        queue = record q₂ { max_len = n };
        heap = h;
        returns =
            expanded_run q q₂ h lt refl (unfold make_fit in rw (le→ltb n q.max_len (omega arith)))
              (unfold grown in e);
        valid = record {
          positive = pos;
          small = small;
          storage = omega (arith, s.array);
          front_in = s.front_in;
          len_in = omega (arith, s.same_len, v.len_in);
          seqno_in = omega (arith, s.seqno, v.seqno_in);
        };
        holds = s.entries ∙ ap (λ k. drop k (contents q)) none_dropped;
        seqno =
            let e' : q.front_seqno ≡ add_size q.front_seqno 0 = omega (arith, v.seqno_in) in
            s.seqno ∙ e' ∙ ap (add_size q.front_seqno) none_dropped;
        capacity = refl;
        flag = s.flag;
        owned = subst (λ xs. IsOwned (xs ++ held) h) (sym s.entries) own;
      }

  -- Without a flush, and where realloc succeeds, a resize to a positive capacity below 2 ^ 60 of a
  -- valid queue that owns its entries, in one of the layouts of `Resizable`, has no fault: the
  -- oldest entries beyond the new capacity leave and lose the queue's reference, all others stay in
  -- order with their sequence numbers, and the queue is valid.
  pub queue_resize_lem :
      Resizable q n → Resized q n (q.len - n) held (queue_resize q (some fill) n false h)
  queue_resize_lem (inl e) = same_size e
  queue_resize_lem (inr (inl (lt, good))) = smaller lt good
  queue_resize_lem (inr (inr (lt, good))) = larger lt good
