-- ===== src/Tests/Drivers.antt =====
-- Drivers and contexts, with a vector that deletes in order and calls that succeed.
use hound.Base.{
  ℕ, ◌≡◌, ◌↔◌, refl, true, false, ◌==◌, if◌then◌else◌, [], ◌∷◌, leb, Option, some, none, arith,
}
use hound.Driver.Calls.{good, is_ok, DataRq}
use hound.Driver.Active.{ref_data_list, unref_data_list}
use hound.Driver.Active.Loops.{Refs}
use hound.Driver.Active.Unrefs.{Unrefs}
use hound.Driver.Refs.{driver_ref, driver_unref, driver_modify}
use hound.Driver.Refs.Ref.{Referenced, driver_ref_lem, ref_data_list_lem, unref_data_list_lem}
use hound.Driver.Refs.Unref.{Unreferenced, driver_unref_lem}
use hound.Driver.Refs.Modify.{Modified, driver_modify_lem}
use hound.Driver.Descs.{DriverInfo, PollOp, driver_get_datadescs, driver_get_datadescs_lem}
use hound.Ctx.Requests.{Rq, validate_rq}
use hound.Ctx.Requests.Sane.{IsSane, validate_rq-IsSane}
use hound.Tests.Operations.{
  calls, calls-IsVec, speed, stopped, no_refs, stopped-Holds, running, one_ref, one_ref_small,
  running-Holds,
}

driver_ref_example :
    Referenced calls calls-IsVec stopped no_refs
      (speed ∷ [])
      (driver_ref calls stopped 1 (speed ∷ []) 0)
driver_ref_example =
    driver_ref_lem calls calls-IsVec stopped 1 no_refs (speed ∷ []) 0 stopped-Holds
      (λ k. ground arith) (omega arith) (λ ds d v. refl)

driver_unref_example :
    Unreferenced calls calls-IsVec 1 one_ref
      (speed ∷ [])
      (driver_unref calls running 1 (speed ∷ []) 0)
driver_unref_example =
    driver_unref_lem calls calls-IsVec running 1 one_ref (speed ∷ []) 0 running-Holds
      (λ k. omega arith) one_ref_small (omega arith) (omega arith) (λ ds d v. refl)

ref_list_example :
    Refs calls calls-IsVec [] no_refs (speed ∷ []) false (ref_data_list calls [] (speed ∷ []) 0)
ref_list_example =
    ref_data_list_lem calls calls-IsVec [] no_refs (speed ∷ []) 0 stopped-Holds (λ k. ground arith)

unref_list_example :
    Unrefs calls calls-IsVec running.active_data one_ref
      (speed ∷ [])
      false
      (unref_data_list calls running.active_data (speed ∷ []))
unref_list_example =
    unref_data_list_lem calls calls-IsVec running.active_data one_ref (speed ∷ []) running-Holds
      one_ref_small (λ k. omega arith)

abbrev gauge : DriverInfo
gauge = record {
  id = 0;
  device_name = 1;
  descs = record { data_id = 7; dev_id = 0; avail_periods = 50 ∷ 100 ∷ [] } ∷ [];
  poll = PollOp.default_push;
}

abbrev gauges : ℕ → Option DriverInfo
gauges id = if id == 7 then some gauge else none

abbrev speed_rq : Rq
speed_rq = record { queue_len = 10; cb = true; len = 1; items = some (speed ∷ []) }

validate_example : (is_ok (validate_rq gauges speed_rq) ≡ true) ↔ IsSane gauges speed_rq
validate_example = validate_rq-IsSane gauges speed_rq

descs_example : driver_get_datadescs (λ n. leb n 48) (gauge ∷ []) ≡ some (good, 1, some gauge.descs)
descs_example = driver_get_datadescs_lem (λ n. leb n 48) (gauge ∷ []) (omega arith)

abbrev fast : DataRq
fast = record { id = 7; period_ns = 50 }

driver_modify_example :
    Modified calls calls-IsVec
      (λ ds d v. refl)
      1
      one_ref
      (speed ∷ [])
      (fast ∷ [])
      (driver_modify calls running 1 (speed ∷ []) (fast ∷ []) 0)
driver_modify_example =
    driver_modify_lem calls calls-IsVec (λ ds d v. refl) running 1 one_ref (speed ∷ []) (fast ∷ [])
      0 running-Holds (λ k. omega arith) (λ k. ground arith) (omega arith) (omega arith)
