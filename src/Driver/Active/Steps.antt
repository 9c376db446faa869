-- ===== src/Driver/Active/Steps.antt =====
-- One round of the loops of `ref_data_list` and `unref_data_list` on the references that the active
-- data hold.
use hound.Base.{
  ℕ, ◌+◌, ◌-◌, ◌<◌, ◌≡◌, ap, ◌∙◌, sym, subst, true, List, length, length-set, get_or,
  get_or-set_self, get_elem?-of_lt, set, arith, some, word_mod, add_size, add_size_small,
}
use hound.Driver.Calls.{DataRq, Data, Calls, IsVec}
use hound.Driver.Active.{same, store_refcount}
use hound.Base.{sum_by, sum_by-Permᴰ}
use hound.Driver.Active.Counts.{
  Holds, bit, entry, share, idle, count_le, changed_share, changed_entry, changed_idle,
}

-- The list with `n` references at an entry.
abbrev pub with_count : List Data → ℕ → Data → ℕ → List Data
with_count ds m d n = set ds m (record (get_or ds m d) { refcount = n })

module _ {ds : List Data} {refs : DataRq → ℕ} (holds : Holds ds refs) (rq : DataRq) (m : ℕ)
    (d : Data) (lt : m < length ds) (hit : same (get_or ds m d).rq rq ≡ true) where
  pub store_found :
      (f : ℕ → ℕ) → store_refcount ds m f ≡ some (with_count ds m d (f (get_or ds m d).refcount))
  unfolding store_refcount
  store_found f = rw (get_elem?-of_lt ds m d lt)

  -- `++data->refcount`.
  pub more-Holds :
      refs rq + 1 < word_mod
      → Holds
          (with_count ds m d (add_size (get_or ds m d).refcount 1))
          (λ k. refs k + bit (same rq k))
  more-Holds small =
      let n = (get_or ds m d).refcount in
      let e : add_size n 1 ≡ n + 1 =
        add_size_small n 1 (omega (arith, count_le holds rq m d lt hit)) in
      subst (λ v. Holds (with_count ds m d v) (λ k. refs k + bit (same rq k))) (sym e)
        (record {
          shares = λ k. ground (arith, changed_share holds rq m d lt hit k (n + 1));
          alone = λ k. omega (arith, changed_entry holds rq m d lt hit k (n + 1), holds.alone k);
          busy = changed_idle holds rq m d lt hit (n + 1) ∙ ground arith;
        })

  -- `--data->refcount` where references are left.
  pub fewer-Holds :
      (v : ℕ)
      → v + 1 ≡ (get_or ds m d).refcount
      → 0 < v
      → Holds (with_count ds m d v) (λ k. refs k - bit (same rq k))
  fewer-Holds v e pos = record {
    shares = λ k. ground (arith, changed_share holds rq m d lt hit k v, e);
    alone = λ k. omega (arith, changed_entry holds rq m d lt hit k v, holds.alone k);
    busy = changed_idle holds rq m d lt hit v ∙ ground arith;
  }

  module _ {W : Type 0} {c : Calls W} (vec : IsVec c) where
    -- A sum over the list without the entry.
    sum_by-quickdel :
        (f : Data → ℕ) (v : ℕ)
        → sum_by f (with_count ds m d v)
          ≡ f (record (get_or ds m d) { refcount = v })
            + sum_by f (c.quickdel (with_count ds m d v) m)
    sum_by-quickdel f v =
        let new = record (get_or ds m d) { refcount = v } in
        let small : m < length (with_count ds m d v) = omega (arith, length-set ds m new) in
        sum_by-Permᴰ f (vec.deletes (with_count ds m d v) m d small)
        ∙ ap (λ x. f x + sum_by f (c.quickdel (with_count ds m d v) m))
            (get_or-set_self ds m new d lt)

    -- `xv_quickdel` of an entry that has lost its last reference.
    pub last-Holds :
        (get_or ds m d).refcount ≡ 1
        → Holds (c.quickdel (with_count ds m d 0) m) (λ k. refs k - bit (same rq k))
    last-Holds e = record {
      shares = λ k.
          ground (arith, changed_share holds rq m d lt hit k 0, e, sum_by-quickdel (share k) 0);
      alone = λ k. omega (
        arith,
        changed_entry holds rq m d lt hit k 0,
        holds.alone k,
        sum_by-quickdel (entry k) 0,
      );
      busy = omega (arith, changed_idle holds rq m d lt hit 0, sum_by-quickdel idle 0);
    }
