-- ===== src/Driver/Refs/Modify.antt =====
-- What `driver_modify` does to the references of a driver.
use hound.Base.{
  ℕ, ◌+◌, ◌-◌, ◌<◌, ◌≤◌, ◌≡◌, refl, true, false, ◌||◌, ◌==◌, if◌then◌else◌, List, arith, length,
  lt→ltb, some, Option, word_mod, Bool-cases, inl, inr,
}
use hound.Driver.Calls.{Result, good, is_ok, DataRq, Data, Calls, IsVec}
use hound.Driver.Active.{set_driver_data}
use hound.Driver.Active.Counts.{Holds, Holds-cong, times}
use hound.Driver.Refs.{Driver, driver_modify, undo_modify, tell_change}
use hound.Driver.Refs.Ref.{ref_data_list_lem, unref_data_list_lem}

module _ {W : Type 0} (c : Calls W) (vec : IsVec c)
    (memory : (ds : List Data) (d : Data) (v : W) → (c.pushp ds d v).0 ≡ true) where
  -- What a run of `driver_modify` leaves of a driver with `n` references.
  pub record Modified (n : ℕ) (refs : DataRq → ℕ) (old_rqs new_rqs : List DataRq)
      (r : Option (Result × Driver × W)) : Type 0 where
    pub error : Result
    pub driver : Driver
    pub world : W
    pub returns : r ≡ some (error, driver, world)
    pub count : driver.refcount ≡ n
    pub done :
        is_ok error ≡ true
        → Holds driver.active_data (λ k. refs k + times k new_rqs - times k old_rqs)
    pub undone : is_ok error ≡ false → Holds driver.active_data refs

  module _ (drv : Driver) (refs : DataRq → ℕ) (old_rqs new_rqs : List DataRq)
      (holds : Holds drv.active_data (λ k. refs k + times k new_rqs - times k old_rqs))
      (there : (k : DataRq) → times k old_rqs ≤ refs k)
      (small : (k : DataRq) → refs k + times k new_rqs < word_mod) where
    undo_modify_lem :
        (err : Result) (w : W)
        → is_ok err ≡ false
        → Modified drv.refcount refs old_rqs new_rqs (undo_modify c err drv old_rqs new_rqs w)
    unfolding undo_modify
    undo_modify_lem err w bad =
        let r =
          ref_data_list_lem c vec drv.active_data (λ k. refs k + times k new_rqs - times k old_rqs)
            old_rqs w holds (λ k. omega (arith, there k, small k)) in
        elim (Bool-cases (is_ok r.error)) [
          | inr out ↦ let (ds, d, v, e) = r.fails out in cc (memory ds d v, e)
          | inl fine ↦
              let back : Holds r.list (λ k. refs k + times k new_rqs) =
                Holds-cong (r.held fine) (λ k. omega (arith, there k)) in
              let u =
                unref_data_list_lem c vec r.list (λ k. refs k + times k new_rqs) new_rqs back small
                  (λ k. omega arith) in
              record {
                error = err;
                driver = record drv { active_data = u.list };
                world = r.world;
                returns = rw (r.returns, u.returns) refl;
                count = refl;
                done = λ ok. cc (bad, ok);
                undone = λ k. Holds-cong u.held (λ k. omega arith);
              }
        ]

    tell_change_lem :
        (queue : ℕ) (w : W)
        → Modified drv.refcount refs old_rqs new_rqs (tell_change c drv queue old_rqs new_rqs w)
    unfolding tell_change
    tell_change_lem queue w =
        let (err, w₁) : Result × W =
          if drv.refcount == 0
          then (good, w)
          else c.io_modify_queue drv.fd old_rqs new_rqs queue w in
        let (err', w₂) = set_driver_data c drv.active_data w₁ in
        let (e, w₃) = c.io_modify_queue drv.fd new_rqs old_rqs queue w₂ in
        elim (Bool-cases (is_ok err)) [
          | inr bad ↦ rw (bad) (undo_modify_lem err w₁ bad)
          | inl told ↦ elim (Bool-cases (is_ok err')) [
            | inr bad ↦ rw (told, bad) (undo_modify_lem err' w₃ bad)
            | inl set ↦ record {
              error = good;
              driver = drv;
              world = w₂;
              returns = rw (told, set) refl;
              count = refl;
              done = λ k. holds;
              undone = λ k. cc;
            }
          ]
        ]

  -- `driver_modify` of references that the driver has has no fault, for lists that are not empty and
  -- counts below 2 ^ 64. Where it succeeds, the active data have the new references in place of the old
  -- ones; where the driver or the I/O layer refuses, they are as before. The references of the driver
  -- itself stay. The memory does not run out.
  pub driver_modify_lem :
      (drv : Driver) (queue : ℕ) (refs : DataRq → ℕ) (old_rqs new_rqs : List DataRq) (w : W)
      → Holds drv.active_data refs
      → ((k : DataRq) → times k old_rqs ≤ refs k)
      → ((k : DataRq) → refs k + times k new_rqs < word_mod)
      → 0 < length old_rqs
      → 0 < length new_rqs
      → Modified drv.refcount refs old_rqs new_rqs (driver_modify c drv queue old_rqs new_rqs w)
  unfolding driver_modify
  driver_modify_lem drv queue refs old_rqs new_rqs w holds there small some_old some_new =
      let r = ref_data_list_lem c vec drv.active_data refs new_rqs w holds small in
      elim (Bool-cases (is_ok r.error)) [
        | inr out ↦ let (ds, d, v, e) = r.fails out in cc (memory ds d v, e)
        | inl fine ↦
            let u =
              unref_data_list_lem c vec r.list (λ k. refs k + times k new_rqs) old_rqs (r.held fine)
                small (λ k. omega (arith, there k)) in
            let drv' : Driver = record drv { active_data = u.list } in
            elim (Bool-cases (r.changed || u.changed)) [
              | inl changed ↦
                  rw
                    (
                      lt→ltb 0 (length old_rqs) some_old,
                      lt→ltb 0 (length new_rqs) some_new,
                      r.returns,
                      fine,
                      u.returns,
                      changed,
                    )
                    (tell_change_lem drv' refs old_rqs new_rqs u.held there small queue r.world)
              | inr quiet ↦ record {
                error = good;
                driver = drv';
                world = r.world;
                returns =
                    rw
                      (
                        lt→ltb 0 (length old_rqs) some_old,
                        lt→ltb 0 (length new_rqs) some_new,
                        r.returns,
                        fine,
                        u.returns,
                        quiet,
                      )
                      refl;
                count = refl;
                done = λ k. u.held;
                undone = λ k. cc;
              }
            ]
      ]
