-- ===== src/Driver/Refs/Ref.antt =====
-- What `driver_ref` does to the references of a driver.
use hound.Base.{
  if◌then◌else◌, ℕ, ◌+◌, ◌<◌, ◌≤◌, ◌≡◌, refl, ap, ◌∙◌, sym, subst, Bool, true, false, ◌==◌, List,
  arith, some, Option, word_mod, add_size, sub_size, add_size_small, Bool-cases, inl, inr,
}
use hound.Driver.Calls.{Result, good, is_ok, DataRq, Data, Calls, IsVec}
use hound.Driver.Active.{ref_data_list, unref_data_list}
use hound.Driver.Active.Counts.{Holds, Holds-cong, times}
use hound.Driver.Active.Loops.{Refs, ref_loop_lem}
use hound.Driver.Active.Unrefs.{Unrefs, unref_loop_lem}
use hound.Driver.Refs.{Driver, driver_ref, undo_ref, set_changed, start_driver, add_queue, activate}

module _ {W : Type 0} (c : Calls W) (vec : IsVec c) where
  -- `ref_data_list` has no fault where the counts stay below 2 ^ 64, and fails only where a push
  -- fails. Where it succeeds, the active data have each request of the list as one more reference,
  -- and `changed` is false only where the requests with an entry are the same as before.
  pub ref_data_list_lem :
      (ds : List Data) (refs : DataRq → ℕ) (rqs : List DataRq) (w : W)
      → Holds ds refs
      → ((k : DataRq) → refs k + times k rqs < word_mod)
      → Refs c vec ds refs rqs false (ref_data_list c ds rqs w)
  unfolding ref_data_list
  ref_data_list_lem ds refs rqs w holds small = ref_loop_lem c vec rqs ds refs false w holds small

  -- `unref_data_list` of requests that all have their references has no fault. It takes those
  -- references and no others, and `changed` is false only where the requests with an entry are the same as
  -- before.
  pub unref_data_list_lem :
      (ds : List Data) (refs : DataRq → ℕ) (rqs : List DataRq)
      → Holds ds refs
      → ((k : DataRq) → refs k < word_mod)
      → ((k : DataRq) → times k rqs ≤ refs k)
      → Unrefs c vec ds refs rqs false (unref_data_list c ds rqs)
  unfolding unref_data_list
  unref_data_list_lem ds refs rqs holds small there =
      unref_loop_lem c vec rqs ds refs false holds small there

  -- What a run of `driver_ref` leaves.
  pub record Referenced (drv : Driver) (refs : DataRq → ℕ) (rqs : List DataRq)
      (r : Option (Result × Driver × W)) : Type 0 where
    pub error : Result
    pub driver : Driver
    pub world : W
    pub returns : r ≡ some (error, driver, world)
    pub done :
        is_ok error ≡ true
        → Holds driver.active_data (λ k. refs k + times k rqs)
          × (driver.refcount ≡ drv.refcount + 1)
    pub undone :
        is_ok error ≡ false → Holds driver.active_data refs × (driver.refcount ≡ drv.refcount)

  start_driver_keeps :
      (drv : Driver) (queue : ℕ) (rqs : List DataRq) (w : W)
      → ((start_driver c drv queue rqs w).1.refcount ≡ drv.refcount)
        × ((start_driver c drv queue rqs w).1.active_data ≡ drv.active_data)
  unfolding start_driver
  start_driver_keeps drv queue rqs w =
      let (e, fd, w₁) = c.op_start w in
      elim (Bool-cases (is_ok (c.op_start w).0)) [
        | inr bad ↦ rw (bad) (refl, refl)
        | inl started ↦ elim (Bool-cases (is_ok (c.io_add_fd fd rqs queue w₁).0)) [
          | inl added ↦ rw (started, added) (refl, refl)
          | inr bad ↦ rw (started, bad) (refl, refl)
        ]
      ]

  activate_keeps :
      (drv : Driver) (queue : ℕ) (rqs : List DataRq) (w : W)
      → ((activate c drv queue rqs w).1.refcount ≡ drv.refcount)
        × ((activate c drv queue rqs w).1.active_data ≡ drv.active_data)
  unfolding activate add_queue
  activate_keeps drv queue rqs w = elim (Bool-cases (drv.refcount == 1)) [
    | inl first ↦ rw (first) (start_driver_keeps drv queue rqs w)
    | inr more ↦ rw (more) (refl, refl)
  ]

  undo_ref_lem :
      (err : Result) (drv : Driver) (refs : DataRq → ℕ) (rqs : List DataRq) (changed : Bool) (w : W)
      → Holds drv.active_data (λ k. refs k + times k rqs)
      → ((k : DataRq) → refs k + times k rqs < word_mod)
      → (ds : List Data) × (w' : W) × (undo_ref c err drv rqs changed w
          ≡ some (err, record drv { active_data = ds }, w'))
        × Holds ds refs
  unfolding undo_ref
  undo_ref_lem err drv refs rqs changed w holds small =
      let u =
        unref_data_list_lem drv.active_data (λ k. refs k + times k rqs) rqs holds small
          (λ k. omega arith) in
      (
        u.list,
        (set_changed c changed u.list w).1,
        rw (u.returns) refl,
        Holds-cong u.held (λ k. omega arith),
      )

  module _ (drv : Driver) (refs : DataRq → ℕ) (rqs : List DataRq)
      (small : (k : DataRq) → refs k + times k rqs < word_mod) where
    -- The steps after the driver has the data, with the reference count raised by one.
    activated :
        (queue : ℕ) (drv₂ : Driver) (changed : Bool) (w : W)
        → Holds drv₂.active_data (λ k. refs k + times k rqs)
        → drv₂.refcount ≡ drv.refcount + 1
        → drv.refcount + 1 < word_mod
        → let a = activate c drv₂ queue rqs w in
          Referenced drv refs rqs (
            if is_ok a.0
            then some (good, a.1, a.2)
            else undo_ref c a.0 (record a.1 { refcount = sub_size a.1.refcount 1 }) rqs changed a.2)
    activated queue drv₂ changed w h more room =
        let a = activate c drv₂ queue rqs w in
        let keeps = activate_keeps drv₂ queue rqs w in
        let h' : Holds a.1.active_data (λ k. refs k + times k rqs) =
          subst (λ xs. Holds xs (λ k. refs k + times k rqs)) (sym keeps.1) h in
        let drv₃ : Driver = record a.1 { refcount = sub_size a.1.refcount 1 } in
        elim (Bool-cases (is_ok a.0)) [
          | inl up ↦ record {
            error = good;
            driver = a.1;
            world = a.2;
            returns = rw (up) refl;
            done = λ k. (h', keeps.0 ∙ more);
            undone = λ k. cc;
          }
          | inr bad ↦
              let (ds, w', e, back) = undo_ref_lem a.0 drv₃ refs rqs changed a.2 h' small in
              record {
                error = a.0;
                driver = record drv₃ { active_data = ds };
                world = w';
                returns = rw (bad) e;
                done = λ ok. cc (bad, ok);
                undone = λ k. (back, ap (λ n. sub_size n 1) (keeps.0 ∙ more) ∙ omega arith);
              }
        ]

  -- `driver_ref` has no fault where the counts stay below 2 ^ 64. Where it succeeds the driver has
  -- one more reference, and its active data those of the list as well; where the driver or the I/O
  -- layer refuses, both are as before. The memory for the active data does not run out.
  pub driver_ref_lem :
      (drv : Driver) (queue : ℕ) (refs : DataRq → ℕ) (rqs : List DataRq) (w : W)
      → Holds drv.active_data refs
      → ((k : DataRq) → refs k + times k rqs < word_mod)
      → drv.refcount + 1 < word_mod
      → ((ds : List Data) (d : Data) (v : W) → (c.pushp ds d v).0 ≡ true)
      → Referenced drv refs rqs (driver_ref c drv queue rqs w)
  unfolding driver_ref
  driver_ref_lem drv queue refs rqs w holds small room memory =
      let r = ref_data_list_lem drv.active_data refs rqs w holds small in
      let drv₁ : Driver = record drv { active_data = r.list } in
      let s = set_changed c r.changed r.list r.world in
      let drv₂ : Driver = record drv₁ { refcount = add_size drv.refcount 1 } in
      elim (Bool-cases (is_ok r.error)) [
        | inr out ↦ let (ds, d, v, e) = r.fails out in cc (memory ds d v, e)
        | inl fine ↦ elim (Bool-cases (is_ok s.0)) [
          | inl set ↦
              rw (r.returns, fine, set)
                (activated drv refs rqs small queue drv₂ r.changed s.1 (r.held fine)
                  (add_size_small drv.refcount 1 room) room)
          | inr bad ↦
              let (ds, w', e, back) =
                undo_ref_lem s.0 drv₁ refs rqs r.changed s.1 (r.held fine) small in
              record {
                error = s.0;
                driver = record drv₁ { active_data = ds };
                world = w';
                returns = rw (r.returns, fine, bad) e;
                done = λ ok. cc (bad, ok);
                undone = λ k. (back, refl);
              }
        ]
      ]
