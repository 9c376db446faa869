-- ===== src/Queue/Pop.antt =====
-- `pop_helper`, `pop_records` and `queue_pop_records_nowait`.
use native.Mathlib.Nat.{mod_self}
use native.Mathlib.Decide.{dec_lt}
use hound.Base.{
  ℕ, ◌+◌, ◌-◌, ◌%◌, ◌≤◌, ◌<◌, ◌≡◌, ap, ◌∙◌, sym, List, ◌++◌, arith, some, take, lt→ltb, le→ltb,
  le→leb, length, add_size_small, sub_size, sub_size_small, mod_below, mod_wrapped, min,
}
use hound.Queue.{Queue, cells, copy_out, pop_helper, pop_records}
use hound.Queue.Window.{window, window-split, window-mod, take-drop-window}
use hound.Queue.Valid.{IsValid, contents, advance, window-take, max_cap}

copy_out_lem :
    (room : ℕ) (xs : List ℕ) (c src n : ℕ)
    → n ≤ room
    → src + n ≤ c
    → c ≤ length xs
    → c < max_cap
    → copy_out room xs src n ≡ some (window xs c src n)
unfolding copy_out
copy_out_lem room xs c src n h k l small =
    let e : cells n ≡ n = omega arith in
    rw (e, le→leb n room h, le→leb (src + n) (length xs) (omega arith))
      (ap some (take-drop-window xs c src n k (omega arith)))

-- Popping `n` entries that are there into a buffer with room for them: they come out oldest first.
pub pop_helper_lem :
    (room : ℕ) (q : Queue) (n : ℕ)
    → IsValid q
    → n ≤ q.len
    → n ≤ room
    → pop_helper room q n
      ≡ some
          (record { buf = take n (contents q); first_seqno = q.front_seqno; queue = advance q n })
unfolding pop_helper
pop_helper_lem room q n v le fits = elim (dec_lt n (q.max_len - q.front)) [
  | yes lt ↦ rw (
    le→leb n q.max_len (omega (arith, v.len_in)),
    lt→ltb n (sub_size q.max_len q.front) (omega (arith, v.small, v.front_in)),
    copy_out_lem room q.slots q.max_len q.front n fits (omega arith) v.storage v.small,
    add_size_small q.front n (omega (arith, v.small, v.front_in, v.len_in)),
    sub_size_small q.len n le (omega (arith, v.small, v.len_in)),
    window-take q n le,
    mod_below (q.front + n) q.max_len (omega arith),
  )
  | no ge ↦
      let right = q.max_len - q.front in
      let whole : window q.slots q.max_len q.front right ++ window q.slots q.max_len 0 (n - right)
          ≡ take n (contents q) =
        ap (λ w. window q.slots q.max_len q.front right ++ w)
          (ap (λ i. window q.slots q.max_len i (n - right)) {y = (q.front + right) % q.max_len}
              (sym (
                ap (λ i. i % q.max_len) {y = q.max_len} (omega (arith, v.front_in))
                ∙ mod_self q.max_len))
            ∙ window-mod q.slots q.max_len (q.front + right) (n - right))
        ∙ sym (window-split q.slots q.max_len q.front right (n - right))
        ∙ ap (window q.slots q.max_len q.front) (omega arith)
        ∙ window-take q n le in
      rw
        (
          le→leb n q.max_len (omega (arith, v.len_in)),
          le→ltb n (sub_size q.max_len q.front) (omega (arith, v.small, v.front_in)),
          sub_size_small q.max_len q.front (omega (arith, v.front_in)) (omega (arith, v.small)),
          copy_out_lem room q.slots q.max_len q.front right (omega arith)
              (omega (arith, v.front_in)) v.storage v.small,
          sub_size_small n right (omega arith) (omega (arith, v.small, v.len_in)),
          copy_out_lem (room - right) q.slots q.max_len 0 (n - right) (omega arith)
              (omega (arith, v.len_in)) v.storage v.small,
          sub_size_small q.len n le (omega (arith, v.small, v.len_in)),
          whole,
          mod_wrapped (q.front + n) q.max_len (omega arith) (omega (arith, v.front_in, v.len_in)),
        )
        (ap
          (λ f. some (record {
            buf = take n (contents q);
            first_seqno = q.front_seqno;
            queue = record (advance q n) { front = f };
          }))
          (omega arith))
]

-- On a valid queue, with a buffer that has room for them, `pop_records` has no fault: it takes the
-- `min records len` oldest entries out, in order, and hands back their number and the sequence
-- number of the first.
pub pop_records_lem :
    (room : ℕ) (q : Queue) (records : ℕ)
    → IsValid q
    → min records q.len ≤ room
    → let n = min records q.len in
      pop_records room q records
      ≡ some (
        n,
        record { buf = take n (contents q); first_seqno = q.front_seqno; queue = advance q n },
      )
unfolding pop_records
pop_records_lem room q records v fits = elim (dec_lt records q.len) [
  | yes lt ↦
      let e : min records q.len ≡ records = omega arith in
      rw (e, lt→ltb records q.len lt, pop_helper_lem room q records v (omega arith) (omega arith))
  | no ge ↦
      let e : min records q.len ≡ q.len = omega arith in
      rw (
        e,
        le→ltb records q.len (omega arith),
        pop_helper_lem room q q.len v (omega arith) (omega arith),
      )
]
