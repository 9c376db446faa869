-- ===== src/Queue/Resize/Contract.antt =====
-- `contract_queue`: where it keeps the entries.
use native.Mathlib.Decide.{dec_lt, dec_le}
use hound.Base.{
  ℕ, ◌+◌, ◌-◌, ◌%◌, ◌≤◌, ◌<◌, ◌≡◌, ◌⊎◌, inl, inr, refl, ap, ◌∙◌, sym, arith, some, lt→ltb, lt→leb,
  le→ltb, le→leb, length, get_or, add_size_small, sub_size_small, mod_below, mod_wrapped, true,
  false,
}
use hound.Queue.{Queue}
use hound.Queue.Window.{window, window_ext}
use hound.Queue.Valid.{IsValid, contents}
use hound.Queue.Resize.{move_cells, is_contiguous, copy_to_start, shift_and_copy, contract_slots}
use hound.Queue.Resize.Moves.{
  length-move_cells, get_or-move_in, get_or-move_after, memmove_lem, memcpy_below,
}

-- `q'` is `q` laid out in the first `n` cells: the same entries in the same order.
pub record Fits (q : Queue) (n : ℕ) (q' : Queue) : Type 0 where
  pub front_in : q'.front < n
  pub same_len : q'.len ≡ q.len
  pub array : length q'.slots ≡ length q.slots
  pub seqno : q'.front_seqno ≡ q.front_seqno
  pub capacity : q'.max_len ≡ q.max_len
  pub flag : q'.interrupt ≡ q.interrupt
  pub entries : window q'.slots n q'.front q'.len ≡ contents q

-- The layouts that `contract_queue` is right about: the entries end before the last cell of the array,
-- or they go round and begin behind the new end.
abbrev pub Contractible : Queue → ℕ → Type 0
Contractible q n = (q.front + q.len < q.max_len) ⊎ ((q.max_len < q.front + q.len) × (n ≤ q.front))

pub contiguous_lem : (q : Queue) → IsValid q → q.front + q.len ≤ q.max_len → is_contiguous q ≡ true
unfolding is_contiguous
contiguous_lem q v h =
    rw (add_size_small q.front q.len (omega arith)) (le→leb (q.front + q.len) q.max_len h)

pub wrapped_lem : (q : Queue) → IsValid q → q.max_len < q.front + q.len → is_contiguous q ≡ false
unfolding is_contiguous
wrapped_lem q v h =
    rw (add_size_small q.front q.len (omega arith)) (lt→leb (q.front + q.len) q.max_len h)

module _ (q : Queue) (n : ℕ) (v : IsValid q) (pos : 0 < n) (lt : n < q.max_len)
    (le : q.len ≤ n) where
  -- Everything moves to the start.
  contract_moved :
      q.front + q.len < q.max_len
      → n ≤ q.front
      → (q' : Queue) × (contract_slots q n (q.front + q.len) ≡ some q') × Fits q n q'
  unfolding contract_slots copy_to_start
  contract_moved h f =
      let to : 0 + q.len ≤ length q.slots = omega arith in
      let from : q.front + q.len ≤ length q.slots = omega arith in
      (
        record q { front = 0; slots = move_cells 0 q.front q.len q.slots },
        rw
            (
              contiguous_lem q v (omega arith),
              le→leb n q.front f,
              sub_size_small (q.front + q.len) q.front (omega arith) (omega arith),
            )
            (let e : q.front + q.len - q.front ≡ q.len = omega arith in
              rw (e, memcpy_below 0 q.front q.len q.slots to from (omega arith) (omega arith))),
        record {
          front_in = pos;
          same_len = refl;
          array = length-move_cells 0 q.front q.len q.slots to from;
          seqno = refl;
          capacity = refl;
          flag = refl;
          entries = window_ext _ _ _ _ _ _ q.len λ k h'.
              ap (λ i. get_or (move_cells 0 q.front q.len q.slots) i 0)
                (mod_below (0 + k) n (omega arith))
              ∙ get_or-move_in 0 q.front q.len q.slots to from (0 + k) (omega arith) (omega arith)
              ∙ ap (λ i. get_or q.slots i 0)
                  (omega arith ∙ sym (mod_below (q.front + k) q.max_len (omega arith)));
        },
      )

  -- The end moves to the start, and the entries go round.
  contract_cut :
      q.front + q.len < q.max_len
      → q.front < n
      → n < q.front + q.len
      → (q' : Queue) × (contract_slots q n (q.front + q.len) ≡ some q') × Fits q n q'
  unfolding contract_slots copy_to_start
  contract_cut h f g =
      let count = q.front + q.len - n in
      let to : 0 + count ≤ length q.slots = omega arith in
      let from : n + count ≤ length q.slots = omega arith in
      let slots = move_cells 0 n count q.slots in
      let target = λ (k : ℕ). (q.front + k) % n in
      (
        record q { slots = slots },
        rw (
          contiguous_lem q v (omega arith),
          lt→leb n q.front f,
          lt→ltb n (q.front + q.len) g,
          sub_size_small (q.front + q.len) n (omega arith) (omega arith),
          memcpy_below 0 n count q.slots to from (omega arith) (omega arith),
        ),
        record {
          front_in = f;
          same_len = refl;
          array = length-move_cells 0 n count q.slots to from;
          seqno = refl;
          capacity = refl;
          flag = refl;
          entries = window_ext slots q.slots n q.max_len q.front q.front q.len λ k h'.
              elim (dec_lt (q.front + k) n) [
                | yes low ↦
                    ap (λ i. get_or slots i 0) (mod_below (q.front + k) n low)
                    ∙ get_or-move_after 0 n count q.slots to from (q.front + k) (omega arith)
                    ∙ ap (λ i. get_or q.slots i 0)
                        (sym (mod_below (q.front + k) q.max_len (omega arith)))
                | no high ↦
                    ap (λ i. get_or slots i 0)
                      (mod_wrapped (q.front + k) n (omega arith) (omega arith))
                    ∙ get_or-move_in 0 n count q.slots to from (q.front + k - n) (omega arith)
                        (omega arith)
                    ∙ ap (λ i. get_or q.slots i 0)
                        (omega arith ∙ sym (mod_below (q.front + k) q.max_len (omega arith)))
              ];
        },
      )

  -- Nothing falls off the end.
  contract_kept :
      q.front + q.len < q.max_len
      → q.front < n
      → q.front + q.len ≤ n
      → (q' : Queue) × (contract_slots q n (q.front + q.len) ≡ some q') × Fits q n q'
  unfolding contract_slots
  contract_kept h f g = (
    q,
    rw (contiguous_lem q v (omega arith), lt→leb n q.front f, le→ltb n (q.front + q.len) g),
    record {
      front_in = f;
      same_len = refl;
      array = refl;
      seqno = refl;
      capacity = refl;
      flag = refl;
      entries = window_ext q.slots q.slots n q.max_len q.front q.front q.len λ k h'.
          ap (λ i. get_or q.slots i 0)
            (mod_below (q.front + k) n (omega arith)
              ∙ sym (mod_below (q.front + k) q.max_len (omega arith)));
    },
  )

  -- The entries go round: those at the start move up, those at the end move before them.
  contract_joined :
      q.max_len < q.front + q.len
      → n ≤ q.front
      → (q' : Queue) × (contract_slots q n (q.front + q.len - q.max_len) ≡ some q') × Fits q n q'
  unfolding contract_slots shift_and_copy copy_to_start
  contract_joined h f =
      let count = q.max_len - q.front in
      let back = q.front + q.len - q.max_len in
      let to₁ : count + back ≤ length q.slots = omega arith in
      let from₁ : 0 + back ≤ length q.slots = omega arith in
      let mid = move_cells count 0 back q.slots in
      let l : length mid ≡ length q.slots = length-move_cells count 0 back q.slots to₁ from₁ in
      let to₂ : 0 + count ≤ length mid = omega arith in
      let from₂ : q.front + count ≤ length mid = omega arith in
      let slots = move_cells 0 q.front count mid in
      (
        record q { front = 0; slots = slots },
        rw (
          wrapped_lem q v h,
          le→leb n q.front f,
          sub_size_small q.max_len q.front (omega arith) (omega arith),
          memmove_lem count 0 back q.slots to₁ from₁ (omega arith),
          memcpy_below 0 q.front count mid to₂ from₂ (omega arith) (omega arith),
        ),
        record {
          front_in = pos;
          same_len = refl;
          array = length-move_cells 0 q.front count mid to₂ from₂ ∙ l;
          seqno = refl;
          capacity = refl;
          flag = refl;
          entries = window_ext slots q.slots n q.max_len 0 q.front q.len λ k h'.
              ap (λ i. get_or slots i 0) (mod_below (0 + k) n (omega arith))
              ∙ elim (dec_lt k count) [
                | yes low ↦
                    get_or-move_in 0 q.front count mid to₂ from₂ (0 + k) (omega arith) (omega arith)
                    ∙ get_or-move_after count 0 back q.slots to₁ from₁ (q.front + (0 + k - 0))
                        (omega arith)
                    ∙ ap (λ i. get_or q.slots i 0)
                        (omega arith ∙ sym (mod_below (q.front + k) q.max_len (omega arith)))
                | no high ↦
                    get_or-move_after 0 q.front count mid to₂ from₂ (0 + k) (omega arith)
                    ∙ get_or-move_in count 0 back q.slots to₁ from₁ (0 + k) (omega arith)
                        (omega arith)
                    ∙ ap (λ i. get_or q.slots i 0)
                        (omega arith
                          ∙ sym (mod_wrapped (q.front + k) q.max_len (omega arith) (omega arith)))
              ];
        },
      )

  -- On those layouts the entries survive, and the result fits the first `n` cells.
  pub contract_slots_lem :
      Contractible q n
      → (q' : Queue) × (contract_slots q n ((q.front + q.len) % q.max_len) ≡ some q') × Fits q n q'
  contract_slots_lem (inr (h, f)) =
      rw (mod_wrapped (q.front + q.len) q.max_len (omega arith) (omega arith)) (contract_joined h f)
  contract_slots_lem (inl h) =
      rw (mod_below (q.front + q.len) q.max_len h) (elim (dec_le n q.front) [
        | yes f ↦ contract_moved h f
        | no f ↦ elim (dec_lt n (q.front + q.len)) [
          | yes g ↦ contract_cut h (omega arith) g
          | no g ↦ contract_kept h (omega arith) (omega arith)
        ]
      ])
