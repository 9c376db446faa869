-- ===== src/Queue/Valid.antt =====
-- The representation invariant of `struct queue`, its abstract contents, allocation and draining.
use hound.Base.{
  word_mod, ℕ, zero, suc, ◌+◌, ◌-◌, ◌%◌, ◌^◌, ◌≤◌, ◌<◌, ◌≡◌, refl, ap, ◌∙◌, sym, List, [], ◌++◌,
  arith, none, some, false, length, get_or, take, drop, mod_below, get_elem?-of_lt, add_size,
  add_size_small, mod_size_pos, >>=-eq-some, true, Bool, take-append_exact, drop-append_exact,
}
use native.Mathlib.Nat.{mod-lt, mod-add-mod, add-zero}
use hound.Records.{Heap, record_ref_dec, release}
use hound.Queue.{Queue, Block, cells, malloc_slots, fill_from, queue_alloc, drain_loop}
use hound.Queue.Window.{window, length-window, window-mod, window-split}

-- The bound that keeps `max_len * sizeof(*queue->data)` from wrapping.
abbrev pub max_cap : ℕ
max_cap = 2 ^ 60

pub record IsValid (q : Queue) : Type 0 where
  pub positive : 0 < q.max_len
  pub small : q.max_len < max_cap
  pub storage : q.max_len ≤ length q.slots
  pub front_in : q.front < q.max_len
  pub len_in : q.len ≤ q.max_len
  pub seqno_in : q.front_seqno < word_mod

-- The addresses in the queue, oldest first.
abbrev pub contents : Queue → List ℕ
contents q = window q.slots q.max_len q.front q.len

length-fill_from : (fill : ℕ → ℕ) (i n : ℕ) → length (fill_from fill i n) ≡ n
unfolding fill_from
length-fill_from fill i zero = refl
length-fill_from fill i (suc n) = ap suc (length-fill_from fill (i + 1) n)

pub length-malloc_slots : (fill : ℕ → ℕ) (n : ℕ) → n < max_cap → length (malloc_slots fill n) ≡ n
unfolding malloc_slots
length-malloc_slots fill n h = length-fill_from fill 0 (cells n) ∙ omega arith

-- A queue of positive length below 2 ^ 60 that `queue_alloc` returns is valid and empty, has that
-- capacity, and its first record will have the sequence number 0.
pub queue_alloc-IsValid :
    (malloc : Bool) (block : Block) (max_len : ℕ) (q : Queue)
    → 0 < max_len
    → max_len < max_cap
    → (queue_alloc malloc block max_len).1 ≡ some q
    → IsValid q × (contents q ≡ []) × (q.max_len ≡ max_len) × (q.front_seqno ≡ 0)
unfolding queue_alloc
queue_alloc-IsValid false block max_len q pos small e = cc
queue_alloc-IsValid true none max_len q pos small e = cc
queue_alloc-IsValid true (some fill) max_len q pos small e =
    ground (arith, length-malloc_slots fill max_len)

-- One round of the loop at a valid queue reads and steps inside the array.
drain_loop-suc :
    (n : ℕ) (q : Queue) (h h₁ : Heap)
    → IsValid q
    → record_ref_dec (get_or q.slots (q.front % q.max_len) 0) h ≡ some h₁
    → drain_loop (suc n) q h ≡ drain_loop n (record q { front = (q.front + 1) % q.max_len }) h₁
unfolding drain_loop
drain_loop-suc n q h h₁ v e =
    let e' : record_ref_dec (get_or q.slots q.front 0) h ≡ some h₁ =
      ap (λ i. record_ref_dec (get_or q.slots i 0) h) (sym (mod_below q.front q.max_len v.front_in))
      ∙ e in
    rw (
      get_elem?-of_lt q.slots q.front 0 (omega arith),
      e',
      add_size_small q.front 1 (omega arith),
      mod_size_pos (q.front + 1) q.max_len v.positive,
    )

front_step-IsValid :
    (q : Queue) (n : ℕ) → IsValid q → IsValid (record q { front = (q.front + n) % q.max_len })
front_step-IsValid q n v = record {
  positive = v.positive;
  small = v.small;
  storage = v.storage;
  front_in = mod-lt _ v.positive;
  len_in = v.len_in;
  seqno_in = v.seqno_in;
}

-- The loop drops one reference for each of the `n` oldest entries, and moves past them.
pub drain_loop_lem :
    (n : ℕ) (q : Queue) (h h' : Heap)
    → IsValid q
    → release (window q.slots q.max_len q.front n) h ≡ some h'
    → drain_loop n q h ≡ some (record q { front = (q.front + n) % q.max_len }, h')
unfolding release
drain_loop_lem zero q h h' v e =
    unfold drain_loop in rw (add-zero, mod_below q.front q.max_len v.front_in) (cc)
drain_loop_lem (suc n) q h h' v e =
    let (h₁, e₁, e₂) =
      >>=-eq-some (record_ref_dec (get_or q.slots (q.front % q.max_len) 0) h)
        (λ h₁. release (window q.slots q.max_len (q.front + 1) n) h₁) e in
    drain_loop-suc n q h h₁ v e₁
    ∙ drain_loop_lem n (record q { front = (q.front + 1) % q.max_len }) h₁ h'
        (front_step-IsValid q 1 v)
        (ap (λ w. release w h₁) (window-mod q.slots q.max_len (q.front + 1) n) ∙ e₂)
    ∙ ap (λ f. some (record q { front = f }, h'))
        (mod-add-mod (q.front + 1) q.max_len n ∙ ap (λ k. k % q.max_len) (omega arith))

-- The queue after the `n` oldest entries have gone.
abbrev pub advance : Queue → ℕ → Queue
advance q n = record q {
  len = q.len - n;
  front = (q.front + n) % q.max_len;
  front_seqno = add_size q.front_seqno n;
}

pub advance-IsValid : (q : Queue) (n : ℕ) → IsValid q → IsValid (advance q n)
advance-IsValid q n v = record {
  positive = v.positive;
  small = v.small;
  storage = v.storage;
  front_in = mod-lt _ v.positive;
  len_in = omega arith;
  seqno_in = omega arith;
}

pub contents-split :
    (q : Queue) (n : ℕ)
    → n ≤ q.len
    → contents q ≡ window q.slots q.max_len q.front n ++ contents (advance q n)
contents-split q n h =
    ap (window q.slots q.max_len q.front) (omega arith)
    ∙ window-split q.slots q.max_len q.front n (q.len - n)
    ∙ ap (λ w. window q.slots q.max_len q.front n ++ w)
        (sym (window-mod q.slots q.max_len (q.front + n) (q.len - n)))

pub contents-advance :
    (q : Queue) (n : ℕ) → n ≤ q.len → contents (advance q n) ≡ drop n (contents q)
contents-advance q n h = sym (
    ap (drop n) (contents-split q n h)
    ∙ drop-append_exact n (window q.slots q.max_len q.front n) (contents (advance q n))
        (length-window q.slots q.max_len q.front n))

pub window-take :
    (q : Queue) (n : ℕ) → n ≤ q.len → window q.slots q.max_len q.front n ≡ take n (contents q)
window-take q n h = sym (
    ap (take n) (contents-split q n h)
    ∙ take-append_exact n (window q.slots q.max_len q.front n) (contents (advance q n))
        (length-window q.slots q.max_len q.front n))

-- `q'` is `q` without its `n` oldest entries.
pub record Drops (q : Queue) (n : ℕ) (q' : Queue) : Type 0 where
  pub valid : IsValid q'
  pub kept : contents q' ≡ drop n (contents q)
  pub left : q'.len ≡ q.len - n
  pub start : q'.front ≡ (q.front + n) % q.max_len
  pub seqno : q'.front_seqno ≡ add_size q.front_seqno n
  pub capacity : q'.max_len ≡ q.max_len
  pub flag : q'.interrupt ≡ q.interrupt
  pub array : q'.slots ≡ q.slots

pub advance-Drops : (q : Queue) (n : ℕ) → IsValid q → n ≤ q.len → Drops q n (advance q n)
advance-Drops q n v h = record {
  valid = advance-IsValid q n v;
  kept = contents-advance q n h;
  left = refl;
  start = refl;
  seqno = refl;
  capacity = refl;
  flag = refl;
  array = refl;
}

pub zero-Drops : (q : Queue) → IsValid q → Drops q 0 q
zero-Drops q v = record {
  valid = v;
  kept = refl;
  left = omega arith;
  start = sym (mod_below q.front q.max_len v.front_in) ∙ ap (λ i. i % q.max_len) (omega arith);
  seqno = omega arith;
  capacity = refl;
  flag = refl;
  array = refl;
}
