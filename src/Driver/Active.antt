-- ===== src/Driver/Active.antt =====
-- The active data of a driver: `get_active_data_index`, `get_active_data`, `push_drv_data`,
-- `ref_data_list`, `unref_data_list`, `make_active_data_vec` and `set_driver_data` of src/core/driver.c.
pub mod Counts
pub mod Steps
pub mod Loops
pub mod Unrefs
use hound.Base.{
  ℕ, ◌+◌, Option, none, some, Bool, true, false, ◌&&◌, ◌||◌, ◌==◌, if◌then◌else◌, List, [], ◌∷◌,
  map, length, get_elem?, set, assert, ◌>>=◌, ◌>>◌, add_size, sub_size,
}
use hound.Err.{HoundErr}
use hound.Driver.Calls.{Result, good, is_ok, DataRq, Data, Calls}

-- `SIZE_MAX`.
abbrev pub size_max : ℕ
size_max = 18446744073709551615

abbrev pub same : DataRq → DataRq → Bool
same a b = (a.id == b.id) && (a.period_ns == b.period_ns)

-- The loop of `get_active_data_index` from the index `i` on: `*found`, and the index.
unfoldable pub index_from : List Data → DataRq → ℕ → Bool × ℕ
index_from [] rq i = (false, size_max)
index_from (d ∷ ds) rq i =
    let rest = index_from ds rq (i + 1) in if same d.rq rq then (true, i) else rest

unfoldable pub get_active_data_index : List Data → DataRq → Bool × ℕ
get_active_data_index ds rq = index_from ds rq 0

-- `get_active_data`, with the index for the address: `none` is NULL.
unfoldable pub get_active_data : List Data → DataRq → Option ℕ
get_active_data ds rq =
    let (found, index) = get_active_data_index ds rq in if found then some index else none

-- `data->refcount = n`, where `data` is the address of the element at an index.
unfoldable pub store_refcount : List Data → ℕ → (ℕ → ℕ) → Option (List Data)
store_refcount ds i f = do
  d ← get_elem? ds i
  some (set ds i (record d { refcount = f d.refcount }))

module _ {W : Type 0} (c : Calls W) where
  unfoldable pub push_drv_data : List Data → DataRq → W → Result × List Data × W
  push_drv_data ds rq w =
      let (room, ds', w') = c.pushp ds (record { refcount = 1; rq = rq }) w in
      (if room then good else Result.library HoundErr.oom, ds', w')

  -- The loop of `ref_data_list`: the error, `changed`, and the active data.
  unfoldable pub ref_loop :
      List DataRq → List Data → Bool → W → Option (Result × Bool × List Data × W)
  ref_loop [] ds changed w = some (good, changed, ds, w)
  ref_loop (rq ∷ rqs) ds changed w = elim (get_active_data ds rq) [
    | some i ↦ do ds' ← store_refcount ds i (λ n. add_size n 1); ref_loop rqs ds' changed w
    | none ↦
        let (e, ds', w') = push_drv_data ds rq w in
        let rest = ref_loop rqs ds' true w' in if is_ok e then rest else some (e, changed, ds', w')
  ]

  unfoldable pub ref_data_list :
      List Data → List DataRq → W → Option (Result × Bool × List Data × W)
  ref_data_list ds rqs w = ref_loop rqs ds false w

  unfoldable pub unref_loop : List DataRq → List Data → Bool → Option (Bool × List Data)
  unref_loop [] ds changed = some (changed, ds)
  unref_loop (rq ∷ rqs) ds changed = do
    let (found, index) = get_active_data_index ds rq
    assert found
    ds' ← store_refcount ds index (λ n. sub_size n 1)
    item ← get_elem? ds' index
    let gone = unref_loop rqs (c.quickdel ds' index) true
    let left = unref_loop rqs ds' changed
    if item.refcount == 0 then gone else left

  unfoldable pub unref_data_list : List Data → List DataRq → Option (Bool × List Data)
  unref_data_list ds rqs = unref_loop rqs ds false

  -- `make_active_data_vec`. The pushes into the space reserved do not fail.
  unfoldable pub make_active_data_vec : List Data → W → Result × List DataRq × W
  make_active_data_vec ds w =
      let (room, w') = c.reserve (length ds) w in
      if room then (good, map (λ d. d.rq) ds, w') else (Result.library HoundErr.oom, [], w')

  unfoldable pub set_driver_data : List Data → W → Result × W
  set_driver_data ds w =
      let (e, rqs, w') = make_active_data_vec ds w in
      if is_ok e then c.op_setdata rqs w' else (e, w')
