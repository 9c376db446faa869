-- ===== src/Driver/Refs.antt =====
-- `driver_ref`, `driver_unref`, `driver_modify` and `driver_next` of src/core/driver.c. Each holds the
-- driver's mutex from its first to its last call, so it is one step.
pub mod Ref
pub mod Unref
pub mod Modify
use hound.Base.{
  ℕ, zero, suc, Option, none, some, Bool, true, false, ◌||◌, ◌==◌, if◌then◌else◌, List, length, ltb,
  assert, ◌>>=◌, ◌>>◌, add_size, sub_size,
}
use hound.Err.{ℤ, negsuc}
use hound.Driver.Calls.{Result, good, is_ok, DataRq, Data, Calls}
use hound.Driver.Active.{ref_data_list, unref_data_list, set_driver_data}

-- The fields of `struct driver` that these functions change.
pub record Driver : Type 0 where
  pub refcount : ℕ
  pub fd : ℤ
  pub active_data : List Data

abbrev pub fd_invalid : ℤ
fd_invalid = negsuc 0

module _ {W : Type 0} (c : Calls W) where
  -- `if (changed) { err = set_driver_data(drv); }`.
  unfoldable pub set_changed : Bool → List Data → W → Result × W
  unfolding set_driver_data
  set_changed changed ds w = if changed then set_driver_data c ds w else (good, w)

  -- The labels of `driver_ref` from `error_driver_setdata` on.
  unfoldable pub undo_ref : Result → Driver → List DataRq → Bool → W → Option (Result × Driver × W)
  undo_ref err drv rqs changed w = do
    (again, ds) ← unref_data_list c drv.active_data rqs
    let (e, w') = set_changed changed ds w
    some (err, record drv { active_data = ds }, w')

  -- The first reference starts the driver; `*fd` may be written whether it starts or not.
  unfoldable pub start_driver : Driver → ℕ → List DataRq → W → Result × Driver × W
  start_driver drv queue rqs w =
      let (err, fd, w₁) = c.op_start w in
      let drv' = record drv { fd = fd } in
      let (err', w₂) = c.io_add_fd fd rqs queue w₁ in
      let (e, w₃) = c.op_stop w₂ in
      if is_ok err
      then (if is_ok err' then (good, drv', w₂) else (err', drv', w₃))
      else (err, drv', w₁)

  unfoldable pub add_queue : Driver → ℕ → List DataRq → W → Result × Driver × W
  add_queue drv queue rqs w =
      let (err, w') = c.io_add_queue drv.fd rqs queue w in
      (if is_ok err then good else err, drv, w')

  -- The start of the driver, or the queue of one that runs.
  unfoldable pub activate : Driver → ℕ → List DataRq → W → Result × Driver × W
  activate drv queue rqs w =
      if drv.refcount == 1 then start_driver drv queue rqs w else add_queue drv queue rqs w

  unfoldable pub driver_ref : Driver → ℕ → List DataRq → W → Option (Result × Driver × W)
  driver_ref drv queue rqs w = do
    (err, changed, ds, w₁) ← ref_data_list c drv.active_data rqs w
    let drv₁ = record drv { active_data = ds }
    let (err₁, w₂) = set_changed changed ds w₁
    let failed = undo_ref err₁ drv₁ rqs changed w₂
    let drv₂ = record drv₁ { refcount = add_size drv₁.refcount 1 }
    let (err₂, drv₃, w₃) = activate drv₂ queue rqs w₂
    let undone = undo_ref err₂ (record drv₃ { refcount = sub_size drv₃.refcount 1 }) rqs changed w₃
    if is_ok err
        then (if is_ok err₁ then (if is_ok err₂ then some (good, drv₃, w₃) else undone) else failed)
        else some (err, drv₁, w₁)

  -- The label `error_driver_op` of `driver_unref`.
  unfoldable pub undo_unref : Result → Driver → List DataRq → W → Option (Result × Driver × W)
  undo_unref err drv rqs w = do
    (e, changed, ds, w') ← ref_data_list c drv.active_data rqs w
    some (err, record drv { refcount = add_size drv.refcount 1; active_data = ds }, w')

  -- The last reference stops the driver.
  unfoldable pub stop_driver : Driver → ℕ → List DataRq → W → Option (Result × Driver × W)
  stop_driver drv queue rqs w =
      let w₁ = c.io_remove_fd drv.fd w in
      let (err, w₂) = c.op_stop w₁ in
      let (e, w₃) = c.io_add_fd drv.fd rqs queue w₂ in
      let undone = undo_unref err drv rqs w₃ in
      if is_ok err then some (good, record drv { fd = fd_invalid }, w₂) else undone

  unfoldable pub remove_queue : Driver → ℕ → List DataRq → Bool → W → Option (Result × Driver × W)
  remove_queue drv queue rqs changed w =
      let w₁ = c.io_remove_queue drv.fd rqs queue w in
      let (err, w₂) = set_changed changed drv.active_data w₁ in
      let (e, w₃) = c.io_add_queue drv.fd rqs queue w₂ in
      let undone = undo_unref err drv rqs w₃ in if is_ok err then some (good, drv, w₂) else undone

  unfoldable pub driver_unref : Driver → ℕ → List DataRq → W → Option (Result × Driver × W)
  driver_unref drv queue rqs w = do
    (changed, ds) ← unref_data_list c drv.active_data rqs
    let drv₁ = record drv { refcount = sub_size drv.refcount 1; active_data = ds }
    let stopped = stop_driver drv₁ queue rqs w
    let left = remove_queue drv₁ queue rqs changed w
    if drv₁.refcount == 0 then stopped else left

  -- The labels of `driver_modify` from `error_modify_queue` on.
  unfoldable pub undo_modify :
      Result → Driver → List DataRq → List DataRq → W → Option (Result × Driver × W)
  undo_modify err drv old_rqs new_rqs w = do
    (e, again, ds, w') ← ref_data_list c drv.active_data old_rqs w
    (gone, ds') ← unref_data_list c ds new_rqs
    some (err, record drv { active_data = ds' }, w')

  -- The calls of `driver_modify` where the data have changed.
  unfoldable pub tell_change :
      Driver → ℕ → List DataRq → List DataRq → W → Option (Result × Driver × W)
  tell_change drv queue old_rqs new_rqs w =
      let (err, w₁) =
        if drv.refcount == 0 then (good, w) else c.io_modify_queue drv.fd old_rqs new_rqs queue w in
      let unmodified = undo_modify err drv old_rqs new_rqs w₁ in
      let (err', w₂) = set_driver_data c drv.active_data w₁ in
      let (e, w₃) = c.io_modify_queue drv.fd new_rqs old_rqs queue w₂ in
      let unset = undo_modify err' drv old_rqs new_rqs w₃ in
      if is_ok err then (if is_ok err' then some (good, drv, w₂) else unset) else unmodified

  unfoldable pub driver_modify :
      Driver → ℕ → List DataRq → List DataRq → W → Option (Result × Driver × W)
  driver_modify drv queue old_rqs new_rqs w = do
    assert (ltb 0 (length old_rqs))
    assert (ltb 0 (length new_rqs))
    (err, added, ds, w₁) ← ref_data_list c drv.active_data new_rqs w
    if is_ok err
        then (do
          (removed, ds') ← unref_data_list c ds old_rqs
          let drv' = record drv { active_data = ds' }
          let told = tell_change drv' queue old_rqs new_rqs w₁
          if added || removed then told else some (good, drv', w₁))
        else some (err, record drv { active_data = ds }, w₁)

  -- The loop of `driver_next`.
  unfoldable pub driver_next : ℕ → ℕ → W → Result × W
  driver_next id zero w = (good, w)
  driver_next id (suc n) w =
      let (err, w') = c.op_next id w in
      let rest = driver_next id n w' in if is_ok err then rest else (err, w')
