-- ===== src/Ctx/Maps.antt =====
-- `make_driver_data_maps` of src/core/ctx.c: the requests of a context by driver. A hash table of xlib is
-- a function from the addresses of the drivers, which stand by their IDs.
pub mod Split
use hound.Base.{ℕ, Option, none, some, Bool, true, false, ◌==◌, if◌then◌else◌, List, [], ◌∷◌, ◌>>=◌}
use hound.Err.{HoundErr}
use hound.Driver.Calls.{Result, good, is_ok, DataRq}
use hound.Driver.Descs.{DriverInfo, driver_get}
use hound.Io.Calls.{Vecs}

-- `DRIVER_DATA_MAP` and `ON_DEMAND_MAP`.
pub record DataMaps : Type 0 where
  pub drv_data : ℕ → Option (List DataRq)
  pub on_demand : ℕ → Option (List ℕ)

-- The vector of a driver, new and empty where the map has none, and a map with another one.
abbrev pub vec_at : {A : Type 0} → (ℕ → Option (List A)) → ℕ → List A
vec_at m drv = elim (m drv) [ none ↦ [] | some xs ↦ xs ]

abbrev pub put_vec : {A : Type 0} → (ℕ → Option (List A)) → ℕ → List A → ℕ → Option (List A)
put_vec m drv xs d = if drv == d then some xs else m d

-- The state of the loop; `complete` is false where it has left for its error label.
pub record Mapping (W : Type 0) : Type 0 where
  pub complete : Bool
  pub err : Result
  pub maps : DataMaps
  pub world : W

-- `put` tells whether `xh_init` or `xh_put` has memory.
module _ {W : Type 0} (v : Vecs W) (put : W → Bool × W) (data_map : ℕ → Option DriverInfo) where
  -- The ID of a request on demand.
  unfoldable pub add_on_demand : ℕ → ℕ → Mapping W → Mapping W
  add_on_demand drv id m =
      let (put_ok, w₁) = put m.world in
      let (push_ok, ids, w₂) = v.pushp (vec_at m.maps.on_demand drv) id w₁ in
      let maps : DataMaps = record m.maps { on_demand = put_vec m.maps.on_demand drv ids } in
      if put_ok
      then record m { complete = push_ok; maps = maps; world = w₂ }
      else record m { complete = false; err = Result.library HoundErr.oom; world = w₁ }

  -- One request. A push that fails leaves `err` as `driver_get` has set it.
  unfoldable pub add_rq : ℕ → DataRq → Mapping W → Mapping W
  unfolding add_on_demand
  add_rq drv rq m =
      let (put_ok, w₁) = put m.world in
      let (push_ok, rqs, w₂) = v.pushp (vec_at m.maps.drv_data drv) rq w₁ in
      let maps : DataMaps = record m.maps { drv_data = put_vec m.maps.drv_data drv rqs } in
      let pushed : Mapping W = record { complete = push_ok; err = good; maps = maps; world = w₂ } in
      let timed = if rq.period_ns == 0 then add_on_demand drv rq.id pushed else pushed in
      if put_ok
      then (if push_ok then timed else pushed)
      else record m { complete = false; err = Result.library HoundErr.oom; world = w₁ }

  unfoldable pub maps_loop : List DataRq → Mapping W → Mapping W
  unfolding driver_get add_rq
  maps_loop [] m = m
  maps_loop (rq ∷ rqs) m =
      let (err, found) = driver_get data_map rq.id in
      elim found [
        | none ↦ record m { complete = false; err = err }
        | some drv ↦
            let added = add_rq drv.id rq m in
            let rest = maps_loop rqs added in if added.complete then rest else added
      ]

  -- The result, the maps that are stored, and the state. Where there is memory for the first table only,
  -- the error label walks a table that is NULL.
  unfoldable pub make_driver_data_maps : List DataRq → W → Option (Result × Option DataMaps × W)
  unfolding maps_loop
  make_driver_data_maps rqs w =
      let (drv_ok, w₁) = put w in
      let (demand_ok, w₂) = put w₁ in
      let empty : DataMaps = record { drv_data = λ d. none; on_demand = λ d. none } in
      let m = maps_loop rqs (record { complete = true; err = good; maps = empty; world = w₂ }) in
      if drv_ok
      then (if demand_ok
          then some (m.err, if m.complete then some m.maps else none, m.world)
          else none)
      else some (Result.library HoundErr.oom, none, w₁)
