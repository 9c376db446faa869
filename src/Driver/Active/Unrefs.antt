-- ===== src/Driver/Active/Unrefs.antt =====
-- `unref_data_list` takes references from those that the active data hold.
use hound.Base.{
  ℕ, ◌-◌, ◌≤◌, ◌<◌, ◌≡◌, refl, ap, ◌∙◌, Bool, true, false, ◌==◌, List, [], ◌∷◌, length, length-set,
  get_or, get_or-set_self, get_elem?, get_elem?-of_lt, arith, some, Option, word_mod, sub_size,
  sub_size_small, Bool-cases, ==→eq, inl, inr,
}
use hound.Driver.Calls.{DataRq, Data, Calls, IsVec}
use hound.Driver.Active.{same, store_refcount, get_active_data_index, unref_loop}
use hound.Base.{sum_by}
use hound.Driver.Active.Counts.{
  Holds, Holds-cong, bit, entry, share, times, changed_entry, same_self, count_pos, count_le,
}
use hound.Driver.Active.Steps.{with_count, store_found, fewer-Holds, last-Holds}
use hound.Driver.Active.Loops.{find, spare}

-- Without an entry there are no references.
no_share : (rq : DataRq) (ds : List Data) → sum_by (entry rq) ds ≡ 0 → sum_by (share rq) ds ≡ 0
no_share rq [] e = refl
no_share rq (d ∷ ds) e = ground (arith, no_share rq ds)

module _ {W : Type 0} (c : Calls W) (vec : IsVec c) where
  -- What a run of `unref_data_list` leaves.
  pub record Unrefs (ds : List Data) (refs : DataRq → ℕ) (rqs : List DataRq) (was : Bool)
      (r : Option (Bool × List Data)) : Type 0 where
    pub changed : Bool
    pub list : List Data
    pub returns : r ≡ some (changed, list)
    pub held : Holds list (λ k. refs k - times k rqs)
    pub stays : was ≡ true → changed ≡ true
    pub told : changed ≡ false → (k : DataRq) → sum_by (entry k) list ≡ sum_by (entry k) ds

  unref_kept :
      (rqs : List DataRq) (rq : DataRq) (ds ds' : List Data) (was : Bool) (m : ℕ) (item : Data)
      → get_active_data_index ds rq ≡ (true, m)
      → store_refcount ds m (λ v. sub_size v 1) ≡ some ds'
      → get_elem? ds' m ≡ some item
      → (item.refcount == 0) ≡ false
      → unref_loop c (rq ∷ rqs) ds was ≡ unref_loop c rqs ds' was
  unfolding unref_loop
  unref_kept rqs rq ds ds' was m item e st it more = rw (unref_loop, e, st, it, more)

  unref_last :
      (rqs : List DataRq) (rq : DataRq) (ds ds' : List Data) (was : Bool) (m : ℕ) (item : Data)
      → get_active_data_index ds rq ≡ (true, m)
      → store_refcount ds m (λ v. sub_size v 1) ≡ some ds'
      → get_elem? ds' m ≡ some item
      → (item.refcount == 0) ≡ true
      → unref_loop c (rq ∷ rqs) ds was ≡ unref_loop c rqs (c.quickdel ds' m) true
  unfolding unref_loop
  unref_last rqs rq ds ds' was m item e st it more = rw (unref_loop, e, st, it, more)

  unref_hit :
      (rqs : List DataRq) (rq : DataRq) (ds : List Data) (refs : DataRq → ℕ) (was : Bool) (m n : ℕ)
      → Holds ds refs
      → m < length ds
      → same (get_or ds m (spare rq)).rq rq ≡ true
      → unref_loop c (rq ∷ rqs) ds was ≡ unref_loop c rqs (with_count ds m (spare rq) n) was
      → Unrefs
          (with_count ds m (spare rq) n)
          (λ k. refs k - bit (same rq k))
          rqs
          was
          (unref_loop c rqs (with_count ds m (spare rq) n) was)
      → Unrefs ds refs (rq ∷ rqs) was (unref_loop c (rq ∷ rqs) ds was)
  unref_hit rqs rq ds refs was m n holds lt hit e rest = record {
    changed = rest.changed;
    list = rest.list;
    returns = e ∙ rest.returns;
    held = Holds-cong rest.held (λ k. omega arith);
    stays = rest.stays;
    told = λ quiet k. rest.told quiet k ∙ changed_entry holds rq m (spare rq) lt hit k n;
  }

  unref_gone :
      (rqs : List DataRq) (rq : DataRq) (ds ds' : List Data) (refs : DataRq → ℕ) (was : Bool)
      → unref_loop c (rq ∷ rqs) ds was ≡ unref_loop c rqs ds' true
      → Unrefs ds' (λ k. refs k - bit (same rq k)) rqs true (unref_loop c rqs ds' true)
      → Unrefs ds refs (rq ∷ rqs) was (unref_loop c (rq ∷ rqs) ds was)
  unref_gone rqs rq ds ds' refs was e rest = record {
    changed = rest.changed;
    list = rest.list;
    returns = e ∙ rest.returns;
    held = Holds-cong rest.held (λ k. omega arith);
    stays = λ a. rest.stays refl;
    told = λ quiet k. cc (rest.stays refl, quiet);
  }

  -- The entry is in the list after the store.
  stored_item :
      (rq : DataRq) (ds : List Data) (m n : ℕ)
      → m < length ds
      → get_elem? (with_count ds m (spare rq) n) m
        ≡ some (record (get_or ds m (spare rq)) { refcount = n })
  stored_item rq ds m n lt =
      let new : Data = record (get_or ds m (spare rq)) { refcount = n } in
      get_elem?-of_lt (with_count ds m (spare rq) n) m (spare rq)
        (omega (arith, length-set ds m new))
      ∙ ap some (get_or-set_self ds m new (spare rq) lt)

  pub unref_loop_lem :
      (rqs : List DataRq) (ds : List Data) (refs : DataRq → ℕ) (was : Bool)
      → Holds ds refs
      → ((k : DataRq) → refs k < word_mod)
      → ((k : DataRq) → times k rqs ≤ refs k)
      → Unrefs ds refs rqs was (unref_loop c rqs ds was)
  unfolding unref_loop
  unref_loop_lem [] ds refs was holds small there = record {
    changed = was;
    list = ds;
    returns = refl;
    held = Holds-cong holds (λ k. omega arith);
    stays = λ a. a;
    told = λ a k. refl;
  }
  unref_loop_lem (rq ∷ rqs) ds refs was holds small there = elim (find ds rq) [
    | inl (m, (at_m, lt, hit)) ↦
        let d = get_or ds m (spare rq) in
        let pos = count_pos holds rq m (spare rq) lt hit in
        let e : sub_size d.refcount 1 ≡ d.refcount - 1 =
          sub_size_small d.refcount 1 (omega (arith, pos))
            (omega (arith, count_le holds rq m (spare rq) lt hit, small rq)) in
        let st : store_refcount ds m (λ v. sub_size v 1)
            ≡ some (with_count ds m (spare rq) (d.refcount - 1)) =
          store_found holds rq m (spare rq) lt hit (λ v. sub_size v 1)
          ∙ ap (λ n. some (with_count ds m (spare rq) n)) e in
        elim (Bool-cases (d.refcount - 1 == 0)) [
          | inl last ↦
              let none_left : d.refcount - 1 ≡ 0 = ==→eq (d.refcount - 1) 0 last in
              let gone = c.quickdel (with_count ds m (spare rq) 0) m in
              unref_gone rqs rq ds gone refs was
                (unref_last rqs rq ds (with_count ds m (spare rq) 0) was m
                  (record d { refcount = 0 }) at_m
                  (st ∙ ap (λ n. some (with_count ds m (spare rq) n)) none_left)
                  (stored_item rq ds m 0 lt) refl)
                (unref_loop_lem rqs gone (λ k. refs k - bit (same rq k)) true
                  (last-Holds holds rq m (spare rq) lt hit vec (omega (arith, pos, none_left)))
                  (λ k. omega (arith, small k)) (λ k. ground (arith, there k)))
          | inr left ↦
              unref_hit rqs rq ds refs was m (d.refcount - 1) holds lt hit
                (unref_kept rqs rq ds (with_count ds m (spare rq) (d.refcount - 1)) was m
                  (record d { refcount = d.refcount - 1 }) at_m st
                  (stored_item rq ds m (d.refcount - 1) lt) left)
                (unref_loop_lem rqs (with_count ds m (spare rq) (d.refcount - 1))
                  (λ k. refs k - bit (same rq k)) was
                  (fewer-Holds holds rq m (spare rq) lt hit (d.refcount - 1) (omega (arith, pos))
                    (ground arith))
                  (λ k. omega (arith, small k)) (λ k. ground (arith, there k)))
        ]
    | inr (j, at_j, none_yet) ↦
        absurd (ground (arith, there rq, same_self rq, holds.shares rq, no_share rq ds none_yet))
  ]
