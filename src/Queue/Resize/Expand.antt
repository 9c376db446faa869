-- ===== src/Queue/Resize/Expand.antt =====
-- `expand_queue`: where it keeps the entries.
use native.Mathlib.Decide.{dec_lt, dec_le}
use hound.Base.{
  ℕ, ◌+◌, ◌-◌, ◌%◌, ◌≤◌, ◌<◌, ◌≡◌, ◌⊎◌, inl, inr, refl, ap, ◌∙◌, sym, List, arith, some, lt→ltb,
  lt→leb, le→leb, length, get_or, sub_size, sub_size_small, add_size_small, mod_size_pos, mod_below,
  mod_wrapped,
}
use hound.Queue.{Queue}
use hound.Queue.Window.{window, window_ext}
use hound.Queue.Valid.{IsValid, contents, max_cap}
use hound.Queue.Resize.{move_cells, expand_queue, realloc_slots}
use hound.Queue.Resize.Moves.{
  length-move_cells, get_or-move_in, get_or-move_before, get_or-move_after, memmove_lem,
  memcpy_above, length-realloc_slots, get_or-realloc_slots,
}
use hound.Queue.Resize.Contract.{contiguous_lem, wrapped_lem}

-- `q'` is `q` laid out in an array of `n` cells, its entries in the same order.
pub record Spreads (q : Queue) (n : ℕ) (q' : Queue) : Type 0 where
  pub front_in : q'.front < n
  pub same_len : q'.len ≡ q.len
  pub array : length q'.slots ≡ n
  pub seqno : q'.front_seqno ≡ q.front_seqno
  pub flag : q'.interrupt ≡ q.interrupt
  pub entries : window q'.slots n q'.front q'.len ≡ contents q

-- The layouts that `expand_queue` is right about: the entries do not go round, or fill the array.
abbrev pub Expandable : Queue → Type 0
Expandable q = (q.front + q.len ≤ q.max_len) ⊎ (q.len ≡ q.max_len)

module _ (q : Queue) (n : ℕ) (fill : ℕ → ℕ) (v : IsValid q) (more : q.max_len < n)
    (small : n < max_cap) where
  unfoldable pub grown : List ℕ
  grown = realloc_slots fill n q.slots

  abbrev pub Expanded : Type 0
  Expanded = (q' : Queue) × (expand_queue (record q { slots = grown }) n ≡ some q') × Spreads q n q'

  grown-IsValid : IsValid (record q { slots = grown })
  unfolding grown
  grown-IsValid = record {
    positive = v.positive;
    small = v.small;
    storage = omega (arith, length-realloc_slots fill n q.slots small);
    front_in = v.front_in;
    len_in = v.len_in;
    seqno_in = v.seqno_in;
  }

  old_cell : (j : ℕ) → j < q.max_len → get_or grown j 0 ≡ get_or q.slots j 0
  unfolding grown
  old_cell j h =
      get_or-realloc_slots fill n q.slots small j (omega arith) (omega (arith, v.storage))

  length-grown : length grown ≡ n
  unfolding grown
  length-grown = length-realloc_slots fill n q.slots small

  expand_flat : q.front + q.len ≤ q.max_len → Expanded
  unfolding expand_queue
  expand_flat h = (
    record q { slots = grown },
    rw (lt→ltb q.len n (omega arith), contiguous_lem (record q { slots = grown }) grown-IsValid h),
    record {
      front_in = omega (arith, v.front_in);
      same_len = refl;
      array = length-grown;
      seqno = refl;
      flag = refl;
      entries = window_ext grown q.slots n q.max_len q.front q.front q.len λ k h'.
          ap (λ i. get_or grown i 0) (mod_below (q.front + k) n (omega arith))
          ∙ old_cell (q.front + k) (omega arith)
          ∙ ap (λ i. get_or q.slots i 0) (sym (mod_below (q.front + k) q.max_len (omega arith)));
    },
  )

  -- The wrapped part fits behind the old end.
  expand_unrolled : q.len ≡ q.max_len → 0 < q.front → q.max_len + q.front ≤ n → Expanded
  unfolding expand_queue
  expand_unrolled full f room =
      let to : q.len + q.front ≤ length grown = omega (arith, length-grown) in
      let from : 0 + q.front ≤ length grown = omega (arith, length-grown) in
      let slots = move_cells q.len 0 q.front grown in
      let back : (q.front + q.len) % q.max_len ≡ q.front =
        mod_wrapped (q.front + q.len) q.max_len (omega arith) (omega (arith, v.front_in))
        ∙ omega arith in
      (
        record q { slots = slots },
        rw
            (
              lt→ltb q.len n (omega arith),
              wrapped_lem (record q { slots = grown }) grown-IsValid (omega arith),
              add_size_small q.front q.len (omega (arith, v.front_in, v.small)),
              mod_size_pos (q.front + q.len) q.max_len v.positive,
              back,
            )
            (rw (
              le→leb q.front (sub_size n q.max_len) (omega arith),
              memcpy_above q.len 0 q.front grown to from (omega (arith, v.front_in, v.small))
                  (omega (arith, v.front_in)),
            )),
        record {
          front_in = omega (arith, v.front_in);
          same_len = refl;
          array = length-move_cells q.len 0 q.front grown to from ∙ length-grown;
          seqno = refl;
          flag = refl;
          entries = window_ext slots q.slots n q.max_len q.front q.front q.len λ k h'.
              ap (λ i. get_or slots i 0) (mod_below (q.front + k) n (omega arith))
              ∙ elim (dec_lt (q.front + k) q.max_len) [
                | yes low ↦
                    get_or-move_before q.len 0 q.front grown to from (q.front + k) (omega arith)
                    ∙ old_cell (q.front + k) low
                    ∙ ap (λ i. get_or q.slots i 0) (sym (mod_below (q.front + k) q.max_len low))
                | no high ↦
                    get_or-move_in q.len 0 q.front grown to from (q.front + k) (omega arith)
                      (omega arith)
                    ∙ old_cell (0 + (q.front + k - q.len)) (omega (arith, v.front_in))
                    ∙ ap (λ i. get_or q.slots i 0)
                        (omega arith
                          ∙ sym (
                              mod_wrapped (q.front + k) q.max_len (omega arith)
                                (omega (arith, v.front_in))))
              ];
        },
      )

  -- An entry that had gone round: it stands behind the old end, or has moved down by `diff`.
  shifted :
      (k : ℕ)
      → q.len ≡ q.max_len
      → n < q.max_len + q.front
      → k < q.len
      → q.max_len ≤ q.front + k
      → let diff = n - q.max_len in
        get_or
          (move_cells 0 diff (q.front - diff) (move_cells q.len 0 diff grown))
          ((q.front + k) % n)
          0
        ≡ get_or q.slots (q.front + k - q.max_len) 0
  shifted k full room h' high =
      let diff = n - q.max_len in
      let rest = q.front - diff in
      let to₁ : q.len + diff ≤ length grown = omega (arith, length-grown) in
      let from₁ : 0 + diff ≤ length grown = omega (arith, length-grown) in
      let mid = move_cells q.len 0 diff grown in
      let l : length mid ≡ n = length-move_cells q.len 0 diff grown to₁ from₁ ∙ length-grown in
      let to₂ : 0 + rest ≤ length mid = omega (arith, l, v.front_in) in
      let from₂ : diff + rest ≤ length mid = omega (arith, l, v.front_in) in
      let slots = move_cells 0 diff rest mid in
      elim (dec_lt (q.front + k) n) [
        | yes near ↦
            ap (λ i. get_or slots i 0) (mod_below (q.front + k) n near)
            ∙ get_or-move_after 0 diff rest mid to₂ from₂ (q.front + k) (omega (arith, v.front_in))
            ∙ get_or-move_in q.len 0 diff grown to₁ from₁ (q.front + k) (omega arith) (omega arith)
            ∙ old_cell (0 + (q.front + k - q.len)) (omega (arith, v.front_in))
            ∙ ap (λ i. get_or q.slots i 0) (omega arith)
        | no far ↦
            ap (λ i. get_or slots i 0)
              (mod_wrapped (q.front + k) n (omega arith) (omega (arith, v.front_in)))
            ∙ get_or-move_in 0 diff rest mid to₂ from₂ (q.front + k - n) (omega arith) (omega arith)
            ∙ get_or-move_before q.len 0 diff grown to₁ from₁ (diff + (q.front + k - n - 0))
                (omega (arith, v.front_in))
            ∙ old_cell (diff + (q.front + k - n - 0)) (omega (arith, v.front_in))
            ∙ ap (λ i. get_or q.slots i 0) (omega arith)
      ]

  -- It does not, and the rest of it moves down.
  expand_shifted : q.len ≡ q.max_len → n < q.max_len + q.front → Expanded
  unfolding expand_queue
  expand_shifted full room =
      let diff = n - q.max_len in
      let rest = q.front - diff in
      let to₁ : q.len + diff ≤ length grown = omega (arith, length-grown) in
      let from₁ : 0 + diff ≤ length grown = omega (arith, length-grown) in
      let mid = move_cells q.len 0 diff grown in
      let l : length mid ≡ n = length-move_cells q.len 0 diff grown to₁ from₁ ∙ length-grown in
      let to₂ : 0 + rest ≤ length mid = omega (arith, l, v.front_in) in
      let from₂ : diff + rest ≤ length mid = omega (arith, l, v.front_in) in
      let slots = move_cells 0 diff rest mid in
      let back : (q.front + q.len) % q.max_len ≡ q.front =
        mod_wrapped (q.front + q.len) q.max_len (omega arith) (omega (arith, v.front_in))
        ∙ omega arith in
      (
        record q { slots = slots },
        rw
            (
              lt→ltb q.len n (omega arith),
              wrapped_lem (record q { slots = grown }) grown-IsValid (omega arith),
              add_size_small q.front q.len (omega (arith, v.front_in, v.small)),
              mod_size_pos (q.front + q.len) q.max_len v.positive,
              back,
            )
            (rw (
              lt→leb q.front (sub_size n q.max_len) (omega arith),
              sub_size_small n q.max_len (omega arith) (omega arith),
              memcpy_above q.len 0 diff grown to₁ from₁ (omega arith) (omega (arith, v.front_in)),
              sub_size_small q.front diff (omega arith) (omega (arith, v.front_in, v.small)),
              memmove_lem 0 diff rest mid to₂ from₂ (omega (arith, v.front_in, v.small)),
            )),
        record {
          front_in = omega (arith, v.front_in);
          same_len = refl;
          array = length-move_cells 0 diff rest mid to₂ from₂ ∙ l;
          seqno = refl;
          flag = refl;
          entries = window_ext slots q.slots n q.max_len q.front q.front q.len λ k h'.
              elim (dec_lt (q.front + k) q.max_len) [
                | yes low ↦
                    ap (λ i. get_or slots i 0) (mod_below (q.front + k) n (omega arith))
                    ∙ get_or-move_after 0 diff rest mid to₂ from₂ (q.front + k) (omega arith)
                    ∙ get_or-move_before q.len 0 diff grown to₁ from₁ (q.front + k) (omega arith)
                    ∙ old_cell (q.front + k) low
                    ∙ ap (λ i. get_or q.slots i 0) (sym (mod_below (q.front + k) q.max_len low))
                | no high ↦
                    shifted k full room h' (omega arith)
                    ∙ ap (λ i. get_or q.slots i 0)
                        (sym (
                          mod_wrapped (q.front + k) q.max_len (omega arith)
                            (omega (arith, v.front_in))))
              ];
        },
      )

  -- After realloc to more cells, `expand_queue` keeps the entries of a queue whose entries do not go round
  -- or fill the array.
  pub expand_queue_lem : Expandable q → Expanded
  expand_queue_lem (inl flat) = expand_flat flat
  expand_queue_lem (inr full) = elim (dec_lt 0 q.front) [
    | no flat ↦ expand_flat (omega (arith, v.len_in))
    | yes f ↦ elim (dec_le (q.max_len + q.front) n) [
      | yes room ↦ expand_unrolled full f room
      | no room ↦ expand_shifted full (omega arith)
    ]
  ]
