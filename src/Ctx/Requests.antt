-- ===== src/Ctx/Requests.antt =====
-- The requests of a context: `validate_rq` of src/core/ctx.c.
pub mod Periods
pub mod Sane
use hound.Base.{
  ℕ, Option, none, some, Bool, true, false, not, ◌&&◌, ◌||◌, ◌==◌, if◌then◌else◌, ltb, List, [],
  ◌∷◌, ◌++◌, take,
}
use hound.Err.{HoundErr}
use hound.Driver.Calls.{Result, good, DataRq}
use hound.Driver.Descs.{DriverInfo, driver_get, driver_period_supported, driver_is_push_mode}

-- `HOUND_MAX_DATA_REQ`.
abbrev pub max_data_req : ℕ
max_data_req = 1000

-- `struct hound_rq`: `cb` tells whether the callback is not NULL, `items` is the array `rq_list.data` of
-- `len` elements, or NULL.
pub record Rq : Type 0 where
  pub queue_len : ℕ
  pub cb : Bool
  pub len : ℕ
  pub items : Option (List DataRq)

-- The inner loop: does an earlier request clash?
unfoldable pub has_duplicate : List DataRq → DataRq → Bool → Bool
has_duplicate [] rq push = false
has_duplicate (d ∷ ds) rq push =
    let rest = has_duplicate ds rq push in
    if (rq.id == d.id) && ((rq.period_ns == d.period_ns) || push) then true else rest

-- The outer loop, with the requests seen so far.
unfoldable pub check_rqs : (ℕ → Option DriverInfo) → List DataRq → List DataRq → Result
unfolding driver_get
check_rqs data_map seen [] = good
check_rqs data_map seen (rq ∷ rqs) =
    let rest = check_rqs data_map (seen ++ (rq ∷ [])) rqs in
    elim (driver_get data_map rq.id).1 [
      | none ↦ (driver_get data_map rq.id).0
      | some drv ↦
          if not (driver_period_supported drv rq.id rq.period_ns)
          then Result.library HoundErr.period_unsupported
          else if has_duplicate seen rq (driver_is_push_mode drv)
          then Result.library HoundErr.duplicate_data_requested
          else rest
    ]

unfoldable pub validate_rq : (ℕ → Option DriverInfo) → Rq → Result
validate_rq data_map rq =
    if rq.queue_len == 0
    then Result.library HoundErr.empty_queue
    else if rq.len == 0
    then Result.library HoundErr.no_data_requested
    else if ltb max_data_req rq.len
    then Result.library HoundErr.too_much_data_requested
    else elim rq.items [
      | none ↦ Result.library HoundErr.null_val
      | some items ↦
          if not rq.cb
          then Result.library HoundErr.missing_callback
          else check_rqs data_map [] (take rq.len items)
    ]
