-- ===== src/Tests/Contexts.antt =====
-- Contexts over drivers whose operations succeed.
use hound.Base.{ℕ, refl, true, false, ◌==◌, if◌then◌else◌, [], ◌∷◌, arith, Bool-cases, inl, inr}
use hound.Driver.Calls.{Calls, DataRq}
use hound.Driver.Active.Counts.{Holds-cong}
use hound.Ctx.Read.{HoundCtx}
use hound.Ctx.Life.{Fleet, ctx_start, ctx_stop}
use hound.Ctx.Life.Booked.{Entries, At}
use hound.Ctx.Life.Walks.{Holding}
use hound.Ctx.Life.Start.{Started, Stopped, ctx_start_lem, ctx_stop_lem}
use hound.Tests.Data.{wrapped}
use hound.Tests.Operations.{
  calls, calls-IsVec, speed, stopped, stopped-Holds, running, running-Holds,
}

abbrev all_calls : ℕ → Calls ℕ
all_calls x = calls

abbrev map : Entries
map = (4, speed ∷ []) ∷ []

abbrev ctx : HoundCtx
ctx = record {
  active = false;
  readers = 0;
  queue = wrapped;
  queue_ptr = 9;
  drv_data_map = map;
  on_demand_data_map = [];
}

abbrev active_ctx : HoundCtx
active_ctx = record ctx { active = true }

-- All drivers are stopped; driver 4 runs.
abbrev parked : Fleet ℕ
parked = record { drivers = λ x. stopped; rest = 0 }

abbrev moving : Fleet ℕ
moving = record { drivers = λ x. if 4 == x then running else stopped; rest = 0 }

abbrev no_fleet_refs : ℕ → DataRq → ℕ
no_fleet_refs x k = 0

abbrev no_counts : ℕ → ℕ
no_counts x = 0

parked-At : At parked no_fleet_refs no_counts
parked-At = record { holds = λ x. stopped-Holds; counts = λ x. refl }

moving-Holding : Holding moving no_fleet_refs no_counts map
moving-Holding = record {
  at = record {
    holds = λ x. elim (Bool-cases (4 == x)) [
      | inl here ↦ rw (here) (Holds-cong running-Holds (λ k. omega arith))
      | inr other ↦ rw (other) (Holds-cong stopped-Holds (λ k. omega arith))
    ];
    counts =
        λ x. elim (Bool-cases (4 == x)) [ inl here ↦ rw (here) refl | inr other ↦ rw (other) refl ];
  };
}

start_example : Started all_calls ctx no_fleet_refs no_counts (ctx_start all_calls ctx parked)
start_example =
    ctx_start_lem all_calls (λ x. calls-IsVec) (λ x ds d v. refl) ctx parked no_fleet_refs no_counts
      parked-At (λ x k. ground arith) (λ x. ground arith)

stop_example :
    Stopped all_calls active_ctx no_fleet_refs no_counts (ctx_stop all_calls active_ctx moving)
stop_example =
    ctx_stop_lem all_calls (λ x. calls-IsVec) (λ x ds d v. refl) active_ctx moving no_fleet_refs
      no_counts refl moving-Holding (λ x k. ground arith) (λ x. ground arith)
