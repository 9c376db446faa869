-- ===== src/Driver/Refs/Unref.antt =====
-- What `driver_unref` does to the references of a driver.
use hound.Base.{
  ℕ, ◌+◌, ◌-◌, ◌<◌, ◌≤◌, ◌≡◌, refl, ◌∙◌, Bool, true, false, ◌==◌, List, arith, some, Option,
  word_mod, add_size, sub_size, add_size_small, sub_size_small, Bool-cases, inl, inr,
}
use hound.Driver.Calls.{Result, good, is_ok, DataRq, Data, Calls, IsVec}
use hound.Driver.Active.Counts.{Holds, Holds-cong, times}
use hound.Driver.Refs.{
  Driver, driver_unref, undo_unref, set_changed, stop_driver, remove_queue, fd_invalid,
}
use hound.Driver.Refs.Ref.{ref_data_list_lem, unref_data_list_lem}

module _ {W : Type 0} (c : Calls W) (vec : IsVec c) where
  -- What a run of `driver_unref` leaves of a driver with `n` references.
  pub record Unreferenced (n : ℕ) (refs : DataRq → ℕ) (rqs : List DataRq)
      (r : Option (Result × Driver × W)) : Type 0 where
    pub error : Result
    pub driver : Driver
    pub world : W
    pub returns : r ≡ some (error, driver, world)
    pub done :
        is_ok error ≡ true
        → Holds driver.active_data (λ k. refs k - times k rqs) × (driver.refcount ≡ n - 1)
    pub undone : is_ok error ≡ false → Holds driver.active_data refs × (driver.refcount ≡ n)

  module _ (drv : Driver) (n : ℕ) (refs : DataRq → ℕ) (rqs : List DataRq)
      (holds : Holds drv.active_data (λ k. refs k - times k rqs))
      (there : (k : DataRq) → times k rqs ≤ refs k) (small : (k : DataRq) → refs k < word_mod)
      (left : drv.refcount + 1 ≡ n) (room : n < word_mod)
      (memory : (ds : List Data) (d : Data) (v : W) → (c.pushp ds d v).0 ≡ true) where
    undo_unref_lem :
        (err : Result) (w : W)
        → is_ok err ≡ false
        → Unreferenced n refs rqs (undo_unref c err drv rqs w)
    unfolding undo_unref
    undo_unref_lem err w bad =
        let r =
          ref_data_list_lem c vec drv.active_data (λ k. refs k - times k rqs) rqs w holds
            (λ k. omega (arith, there k, small k)) in
        elim (Bool-cases (is_ok r.error)) [
          | inr out ↦ let (ds, d, v, e) = r.fails out in cc (memory ds d v, e)
          | inl fine ↦ record {
            error = err;
            driver = record drv { refcount = add_size drv.refcount 1; active_data = r.list };
            world = r.world;
            returns = rw (r.returns) refl;
            done = λ ok. cc (bad, ok);
            undone = λ k. (
              Holds-cong (r.held fine) (λ k. omega (arith, there k)),
              add_size_small drv.refcount 1 (omega (arith, left, room)) ∙ left,
            );
          }
        ]

    stop_driver_lem : (queue : ℕ) (w : W) → Unreferenced n refs rqs (stop_driver c drv queue rqs w)
    unfolding stop_driver
    stop_driver_lem queue w =
        let (err, w₂) = c.op_stop (c.io_remove_fd drv.fd w) in
        let (e, w₃) = c.io_add_fd drv.fd rqs queue w₂ in
        elim (Bool-cases (is_ok err)) [
          | inl down ↦ record {
            error = good;
            driver = record drv { fd = fd_invalid };
            world = w₂;
            returns = rw (down) refl;
            done = λ k. (holds, omega (arith, left));
            undone = λ k. cc;
          }
          | inr bad ↦ rw (bad) (undo_unref_lem err w₃ bad)
        ]

    remove_queue_lem :
        (queue : ℕ) (changed : Bool) (w : W)
        → Unreferenced n refs rqs (remove_queue c drv queue rqs changed w)
    unfolding remove_queue
    remove_queue_lem queue changed w =
        let (err, w₂) =
          set_changed c changed drv.active_data (c.io_remove_queue drv.fd rqs queue w) in
        let (e, w₃) = c.io_add_queue drv.fd rqs queue w₂ in
        elim (Bool-cases (is_ok err)) [
          | inl set ↦ record {
            error = good;
            driver = drv;
            world = w₂;
            returns = rw (set) refl;
            done = λ k. (holds, omega (arith, left));
            undone = λ k. cc;
          }
          | inr bad ↦ rw (bad) (undo_unref_lem err w₃ bad)
        ]

  -- `driver_unref` of references that the driver has has no fault. Where it succeeds the driver has one
  -- reference fewer and its active data lose those of the list; where the driver refuses, both are as
  -- before. The memory does not run out.
  pub driver_unref_lem :
      (drv : Driver) (queue : ℕ) (refs : DataRq → ℕ) (rqs : List DataRq) (w : W)
      → Holds drv.active_data refs
      → ((k : DataRq) → times k rqs ≤ refs k)
      → ((k : DataRq) → refs k < word_mod)
      → 0 < drv.refcount
      → drv.refcount < word_mod
      → ((ds : List Data) (d : Data) (v : W) → (c.pushp ds d v).0 ≡ true)
      → Unreferenced drv.refcount refs rqs (driver_unref c drv queue rqs w)
  unfolding driver_unref
  driver_unref_lem drv queue refs rqs w holds there small pos room memory =
      let u = unref_data_list_lem c vec drv.active_data refs rqs holds small there in
      let drv₁ : Driver = record drv { refcount = sub_size drv.refcount 1; active_data = u.list } in
      let left : drv₁.refcount + 1 ≡ drv.refcount =
        omega (arith, sub_size_small drv.refcount 1 pos room) in
      elim (Bool-cases (drv₁.refcount == 0)) [
        | inl last ↦
            rw (u.returns, last)
              (stop_driver_lem drv₁ drv.refcount refs rqs u.held there small left room memory queue
                w)
        | inr more ↦
            rw (u.returns, more)
              (remove_queue_lem drv₁ drv.refcount refs rqs u.held there small left room memory queue
                u.changed w)
      ]
