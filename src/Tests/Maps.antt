-- ===== src/Tests/Maps.antt =====
-- The requests of a context split by driver.
use hound.Base.{ℕ, ◌≡◌, refl, Option, none, some, true, ◌==◌, if◌then◌else◌, List, [], ◌∷◌}
use hound.Driver.Calls.{good, DataRq}
use hound.Driver.Descs.{DriverInfo, default_pull}
use hound.Ctx.Maps.{DataMaps, make_driver_data_maps}
use hound.Ctx.Maps.Split.{entry_of, requests_of, demands, make_driver_data_maps_lem}
use hound.Tests.Lines.{vecs, vecs-IsVecs, memory}

abbrev driver : ℕ → DriverInfo
driver id = record { id = id; device_name = 0; descs = []; poll = default_pull }

-- Driver 1 has the data 10 and driver 2 all others.
abbrev drivers : ℕ → Option DriverInfo
drivers id = if id == 10 then some (driver 1) else some (driver 2)

abbrev rqs : List DataRq
rqs =
    record { id = 10; period_ns = 5 }
    ∷ record { id = 11; period_ns = 0 }
    ∷ record { id = 10; period_ns = 0 }
    ∷ []

maps_example :
    (maps : DataMaps) × (w : Unit {0}) × (make_driver_data_maps vecs (λ w. (true, w)) drivers rqs tt
      ≡ some (good, some maps, w))
    × ((d : ℕ) → maps.drv_data d ≡ entry_of none (requests_of drivers d rqs))
    × ((d : ℕ) → maps.on_demand d ≡ entry_of none (demands (requests_of drivers d rqs)))
maps_example =
    make_driver_data_maps_lem vecs vecs-IsVecs memory (λ w. (true, w)) (λ w. refl) drivers rqs tt
      ((driver 1, refl), ((driver 2, refl), ((driver 1, refl), tt)))

split_by_driver :
    (requests_of drivers 1 rqs
      ≡ record { id = 10; period_ns = 5 } ∷ record { id = 10; period_ns = 0 } ∷ [])
    × (demands (requests_of drivers 1 rqs) ≡ 10 ∷ [])
    × (requests_of drivers 3 rqs ≡ [])
split_by_driver = (refl, refl, refl)
