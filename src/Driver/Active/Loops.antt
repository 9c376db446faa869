-- ===== src/Driver/Active/Loops.antt =====
-- `ref_data_list` adds to the references that the active data hold.
use hound.Base.{
  ℕ, ◌+◌, ◌<◌, ◌≡◌, refl, ap, ◌∙◌, subst, Bool, true, false, if◌then◌else◌, List, [], ◌∷◌, ◌++◌,
  length, get_or, arith, some, none, Option, word_mod, add_size, Bool-cases, inl, inr, ◌⊎◌,
}
use hound.Err.{HoundErr}
use hound.Driver.Calls.{Result, good, is_ok, DataRq, Data, Calls, IsVec}
use hound.Driver.Active.{
  same, store_refcount, get_active_data_index, get_active_data, push_drv_data, ref_loop,
}
use hound.Base.{sum_by}
use hound.Driver.Active.Counts.{
  Holds, Holds-cong, bit, entry, times, index_from_found, index_from_missing, append-Holds,
  changed_entry, same_self,
}
use hound.Driver.Active.Steps.{with_count, store_found, more-Holds}

-- Any value, for reads that are in bounds.
abbrev pub spare : DataRq → Data
spare rq = record { refcount = 0; rq = rq }

abbrev pub Hit : List Data → DataRq → ℕ → Type 0
Hit ds rq m =
    (get_active_data_index ds rq ≡ (true, m))
    × (m < length ds)
    × (same (get_or ds m (spare rq)).rq rq ≡ true)

find_value :
    (ds : List Data) (rq : DataRq) (b : Bool) (j : ℕ)
    → get_active_data_index ds rq ≡ (b, j)
    → ((m : ℕ) × Hit ds rq m)
      ⊎ ((get_active_data_index ds rq ≡ (false, j)) × (sum_by (entry rq) ds ≡ 0))
unfolding get_active_data_index
find_value ds rq true j e =
    let (m, at_m, lt, hit) = index_from_found ds rq 0 j (spare rq) e in
    inl (m, (subst (λ x. get_active_data_index ds rq ≡ (true, x)) (at_m ∙ omega arith) e, lt, hit))
find_value ds rq false j e = inr (e, index_from_missing ds rq 0 j e)

pub find :
    (ds : List Data) (rq : DataRq)
    → ((m : ℕ) × Hit ds rq m)
      ⊎ ((j : ℕ) × (get_active_data_index ds rq ≡ (false, j)) × (sum_by (entry rq) ds ≡ 0))
find ds rq =
    elim (find_value ds rq (get_active_data_index ds rq).0 (get_active_data_index ds rq).1 refl) [
      | inl m ↦ inl m
      | inr p ↦ inr ((get_active_data_index ds rq).1, p.0, p.1)
    ]

get_active_data-found :
    (ds : List Data) (rq : DataRq) (m : ℕ)
    → get_active_data_index ds rq ≡ (true, m)
    → get_active_data ds rq ≡ some m
unfolding get_active_data
get_active_data-found ds rq m e = ap (λ p. if p.0 then some p.1 else none) e

get_active_data-missing :
    (ds : List Data) (rq : DataRq) (j : ℕ)
    → get_active_data_index ds rq ≡ (false, j)
    → get_active_data ds rq ≡ none
unfolding get_active_data
get_active_data-missing ds rq j e = ap (λ p. if p.0 then some p.1 else none) e

module _ {W : Type 0} (c : Calls W) (vec : IsVec c) where
  -- What a run of `ref_data_list` leaves.
  pub record Refs (ds : List Data) (refs : DataRq → ℕ) (rqs : List DataRq) (was : Bool)
      (r : Option (Result × Bool × List Data × W)) : Type 0 where
    pub error : Result
    pub changed : Bool
    pub list : List Data
    pub world : W
    pub returns : r ≡ some (error, changed, list, world)
    pub held : is_ok error ≡ true → Holds list (λ k. refs k + times k rqs)
    pub fails :
        is_ok error ≡ false → (xs : List Data) × (x : Data) × (v : W) × ((c.pushp xs x v).0 ≡ false)
    pub stays : was ≡ true → changed ≡ true
    pub told :
        is_ok error ≡ true
        → changed ≡ false
        → (k : DataRq) → sum_by (entry k) list ≡ sum_by (entry k) ds

  ref_found :
      (rqs : List DataRq) (rq : DataRq) (ds ds' : List Data) (was : Bool) (w : W) (m : ℕ)
      → get_active_data ds rq ≡ some m
      → store_refcount ds m (λ v. add_size v 1) ≡ some ds'
      → ref_loop c (rq ∷ rqs) ds was w ≡ ref_loop c rqs ds' was w
  unfolding ref_loop
  ref_found rqs rq ds ds' was w m e st = rw (ref_loop, e, st)

  ref_grown :
      (rqs : List DataRq) (rq : DataRq) (ds : List Data) (was : Bool) (w : W)
      → get_active_data ds rq ≡ none
      → (c.pushp ds (record { refcount = 1; rq = rq }) w).0 ≡ true
      → ref_loop c (rq ∷ rqs) ds was w
        ≡ ref_loop c rqs
            (ds ++ (record { refcount = 1; rq = rq } ∷ []))
            true
            (c.pushp ds (record { refcount = 1; rq = rq }) w).2
  unfolding ref_loop push_drv_data
  ref_grown rqs rq ds was w e room =
      let new : Data = record { refcount = 1; rq = rq } in
      subst (λ xs. ref_loop c (rq ∷ rqs) ds was w ≡ ref_loop c rqs xs true (c.pushp ds new w).2)
        (vec.push_appends ds new w room) (rw (ref_loop, e, room))

  ref_oom :
      (rqs : List DataRq) (rq : DataRq) (ds : List Data) (was : Bool) (w : W)
      → get_active_data ds rq ≡ none
      → (c.pushp ds (record { refcount = 1; rq = rq }) w).0 ≡ false
      → ref_loop c (rq ∷ rqs) ds was w ≡ (
          let (room, ds', w') = c.pushp ds (record { refcount = 1; rq = rq }) w in
          some (Result.library HoundErr.oom, was, ds', w'))
  unfolding ref_loop push_drv_data
  ref_oom rqs rq ds was w e room = rw (ref_loop, e, room)

  ref_hit :
      (rqs : List DataRq) (rq : DataRq) (ds : List Data) (refs : DataRq → ℕ) (was : Bool) (w : W)
      (m : ℕ)
      → Holds ds refs
      → (m < length ds)
      → (hit : same (get_or ds m (spare rq)).rq rq ≡ true) → (n : ℕ)
      → ref_loop c (rq ∷ rqs) ds was w ≡ ref_loop c rqs (with_count ds m (spare rq) n) was w
      → Refs
          (with_count ds m (spare rq) n)
          (λ k. refs k + bit (same rq k))
          rqs
          was
          (ref_loop c rqs (with_count ds m (spare rq) n) was w)
      → Refs ds refs (rq ∷ rqs) was (ref_loop c (rq ∷ rqs) ds was w)
  ref_hit rqs rq ds refs was w m holds lt hit n e rest = record {
    error = rest.error;
    changed = rest.changed;
    list = rest.list;
    world = rest.world;
    returns = e ∙ rest.returns;
    held = λ fine. Holds-cong (rest.held fine) (λ k. omega arith);
    fails = rest.fails;
    stays = rest.stays;
    told = λ fine quiet k. rest.told fine quiet k ∙ changed_entry holds rq m (spare rq) lt hit k n;
  }

  ref_push :
      (rqs : List DataRq) (rq : DataRq) (ds ds' : List Data) (refs : DataRq → ℕ) (was : Bool)
      (w w' : W)
      → ref_loop c (rq ∷ rqs) ds was w ≡ ref_loop c rqs ds' true w'
      → Refs ds' (λ k. refs k + bit (same rq k)) rqs true (ref_loop c rqs ds' true w')
      → Refs ds refs (rq ∷ rqs) was (ref_loop c (rq ∷ rqs) ds was w)
  ref_push rqs rq ds ds' refs was w w' e rest = record {
    error = rest.error;
    changed = rest.changed;
    list = rest.list;
    world = rest.world;
    returns = e ∙ rest.returns;
    held = λ fine. Holds-cong (rest.held fine) (λ k. omega arith);
    fails = rest.fails;
    stays = λ a. rest.stays refl;
    told = λ fine quiet k. cc (rest.stays refl, quiet);
  }

  pub ref_loop_lem :
      (rqs : List DataRq) (ds : List Data) (refs : DataRq → ℕ) (was : Bool) (w : W)
      → Holds ds refs
      → ((k : DataRq) → refs k + times k rqs < word_mod)
      → Refs ds refs rqs was (ref_loop c rqs ds was w)
  unfolding ref_loop
  ref_loop_lem [] ds refs was w holds small = record {
    error = good;
    changed = was;
    list = ds;
    world = w;
    returns = refl;
    held = λ a. Holds-cong holds (λ k. omega arith);
    fails = λ a. cc;
    stays = λ a. a;
    told = λ a b k. refl;
  }
  ref_loop_lem (rq ∷ rqs) ds refs was w holds small = elim (find ds rq) [
    | inl (m, (at_m, lt, hit)) ↦
        let n = add_size (get_or ds m (spare rq)).refcount 1 in
        let one : refs rq + 1 < word_mod = ground (arith, small rq, same_self rq) in
        ref_hit rqs rq ds refs was w m holds lt hit n
          (ref_found rqs rq ds (with_count ds m (spare rq) n) was w m
            (get_active_data-found ds rq m at_m)
            (store_found holds rq m (spare rq) lt hit (λ v. add_size v 1)))
          (ref_loop_lem rqs (with_count ds m (spare rq) n) (λ k. refs k + bit (same rq k)) was w
            (more-Holds holds rq m (spare rq) lt hit one) (λ k. omega (arith, small k)))
    | inr (j, at_j, none_yet) ↦
        let new : Data = record { refcount = 1; rq = rq } in
        let e = get_active_data-missing ds rq j at_j in
        elim (Bool-cases (c.pushp ds new w).0) [
          | inl room ↦
              ref_push rqs rq ds (ds ++ (new ∷ [])) refs was w (c.pushp ds new w).2
                (ref_grown rqs rq ds was w e room)
                (ref_loop_lem rqs (ds ++ (new ∷ [])) (λ k. refs k + bit (same rq k)) true
                  (c.pushp ds new w).2 (append-Holds holds rq none_yet)
                  (λ k. omega (arith, small k)))
          | inr out ↦ record {
            error = Result.library HoundErr.oom;
            changed = was;
            list = (c.pushp ds new w).1;
            world = (c.pushp ds new w).2;
            returns = ref_oom rqs rq ds was w e out;
            held = λ a. cc;
            fails = λ a. (ds, new, w, out);
            stays = λ a. a;
            told = λ a. cc;
          }
        ]
  ]
