-- ===== src/Ctx/Requests/Sane.antt =====
-- The requests that `validate_rq` accepts.
use hound.Base.{
  ℕ, zero, suc, ◌≤◌, ◌<◌, ◌≡◌, ◌≢◌, ◌↔◌, refl, Option, none, some, Bool, true, false, List, [], ◌∷◌,
  ◌++◌, take, get_elem?, arith, Bool-cases, inl, inr, subst, ap, some_inj,
}
use hound.Driver.Calls.{good, is_ok, DataRq}
use hound.Driver.Descs.{
  default_push, DriverInfo, driver_get, driver_period_supported, driver_is_push_mode,
}
use hound.Ctx.Requests.Periods.{
  Supports, driver_period_supported-Supports, Supports-driver_period_supported,
  driver_is_push_mode_lem, not_push_mode,
}
use hound.Ctx.Requests.{Rq, has_duplicate, check_rqs, validate_rq, max_data_req}

-- A request that goes with the earlier ones: of the same data it has another period, and its driver is
-- not in push mode.
abbrev pub IsApart : DriverInfo → List DataRq → DataRq → Type 0
IsApart drv seen rq =
    (j : ℕ) (d : DataRq)
    → get_elem? seen j ≡ some d
    → rq.id ≡ d.id
    → (rq.period_ns ≢ d.period_ns) × (drv.poll ≢ default_push)

pub data AreSane (data_map : ℕ → Option DriverInfo) : List DataRq → List DataRq → Type 0 where
  none_left : (seen : List DataRq) → AreSane data_map seen []
  one_more :
      (seen rqs : List DataRq) (rq : DataRq) (drv : DriverInfo)
      → data_map rq.id ≡ some drv
      → Supports drv rq.id rq.period_ns
      → IsApart drv seen rq
      → AreSane data_map (seen ++ (rq ∷ [])) rqs
      → AreSane data_map seen (rq ∷ rqs)

-- The inner loop passes just the requests that do not clash with the first of those seen.
first_apart :
    (x : DataRq) (seen : List DataRq) (rq : DataRq) (push : Bool)
    → has_duplicate (x ∷ seen) rq push ≡ false
    → (rq.id ≡ x.id → (rq.period_ns ≢ x.period_ns) × (push ≡ false))
      × (has_duplicate seen rq push ≡ false)
unfolding has_duplicate
first_apart x seen rq push e = ground arith

has_duplicate-IsApart :
    (drv : DriverInfo) (seen : List DataRq) (rq : DataRq)
    → has_duplicate seen rq (driver_is_push_mode drv) ≡ false
    → IsApart drv seen rq
has_duplicate-IsApart drv [] rq e j d at_j alike = cc
has_duplicate-IsApart drv (x ∷ seen) rq e zero d at_j alike =
    let first = (first_apart x seen rq (driver_is_push_mode drv) e).0 in
    let x_d : x ≡ d = some_inj at_j in
    let (other, pull) =
      subst (λ y. rq.id ≡ y.id → (rq.period_ns ≢ y.period_ns) × (driver_is_push_mode drv ≡ false))
        x_d first alike in
    (other, driver_is_push_mode_lem drv pull)
has_duplicate-IsApart drv (x ∷ seen) rq e (suc j) d at_j alike =
    has_duplicate-IsApart drv seen rq (first_apart x seen rq (driver_is_push_mode drv) e).1 j d at_j
      alike

IsApart-has_duplicate :
    (drv : DriverInfo) (seen : List DataRq) (rq : DataRq)
    → IsApart drv seen rq
    → has_duplicate seen rq (driver_is_push_mode drv) ≡ false
unfolding has_duplicate
IsApart-has_duplicate drv [] rq apart = refl
IsApart-has_duplicate drv (x ∷ seen) rq apart =
    let first : rq.id ≡ x.id → (rq.period_ns ≢ x.period_ns) × (driver_is_push_mode drv ≡ false) =
      λ alike. ((apart 0 x refl alike).0, not_push_mode drv (apart 0 x refl alike).1) in
    ground (arith, first, IsApart-has_duplicate drv seen rq (λ j. apart (suc j)))

-- One round of the outer loop.
check_round :
    (data_map : ℕ → Option DriverInfo) (seen rqs : List DataRq) (rq : DataRq)
    (r : Option DriverInfo)
    → data_map rq.id ≡ r
    → (is_ok (check_rqs data_map (seen ++ (rq ∷ [])) rqs) ≡ true
        → AreSane data_map (seen ++ (rq ∷ [])) rqs)
    → is_ok (check_rqs data_map seen (rq ∷ rqs)) ≡ true
    → AreSane data_map seen (rq ∷ rqs)
unfolding check_rqs driver_get
check_round data_map seen rqs rq none at_id rest e =
    let z : false ≡ true = rw (check_rqs, at_id, driver_get, at_id) at e in cc
check_round data_map seen rqs rq (some drv) at_id rest e =
    elim (Bool-cases (driver_period_supported drv rq.id rq.period_ns)) [
      | inr bad ↦ let z : false ≡ true = rw (check_rqs, at_id, bad) at e in cc
      | inl fine ↦ elim (Bool-cases (has_duplicate seen rq (driver_is_push_mode drv))) [
        | inl clash ↦ let z : false ≡ true = rw (check_rqs, at_id, fine, clash) at e in cc
        | inr apart ↦
            one_more seen rqs rq drv at_id
              (driver_period_supported-Supports drv rq.id rq.period_ns fine)
              (has_duplicate-IsApart drv seen rq apart)
              (rest (rw (check_rqs, at_id, fine, apart) at e))
      ]
    ]

check_rqs-AreSane :
    (data_map : ℕ → Option DriverInfo) (seen rqs : List DataRq)
    → is_ok (check_rqs data_map seen rqs) ≡ true
    → AreSane data_map seen rqs
check_rqs-AreSane data_map seen [] e = none_left seen
check_rqs-AreSane data_map seen (rq ∷ rqs) e =
    check_round data_map seen rqs rq (data_map rq.id) refl
      (check_rqs-AreSane data_map (seen ++ (rq ∷ [])) rqs) e

AreSane-check_rqs :
    (data_map : ℕ → Option DriverInfo) {seen rqs : List DataRq}
    → AreSane data_map seen rqs
    → check_rqs data_map seen rqs ≡ good
unfolding check_rqs driver_get
AreSane-check_rqs data_map (none_left seen) = refl
AreSane-check_rqs data_map (one_more seen rqs rq drv at_id fine apart rest) =
    rw
      (
        check_rqs,
        at_id,
        Supports-driver_period_supported drv rq.id rq.period_ns fine,
        IsApart-has_duplicate drv seen rq apart,
      )
      (AreSane-check_rqs data_map rest)

-- What an accepted request is.
pub record IsSane (data_map : ℕ → Option DriverInfo) (rq : Rq) : Type 0 where
  pub queue_room : 0 < rq.queue_len
  pub some_data : 0 < rq.len
  pub not_too_much : rq.len ≤ max_data_req
  pub callback : rq.cb ≡ true
  pub array : List DataRq
  pub not_null : rq.items ≡ some array
  pub sane : AreSane data_map [] (take rq.len array)

accepted :
    (data_map : ℕ → Option DriverInfo) (rq : Rq) (items : Option (List DataRq))
    → rq.items ≡ items
    → is_ok (validate_rq data_map rq) ≡ true
    → IsSane data_map rq
unfolding validate_rq
accepted data_map rq none no_array e = absurd (ground arith)
accepted data_map rq (some array) not_null e =
    let facts : (0 < rq.queue_len)
        × (0 < rq.len)
        × (rq.len ≤ max_data_req)
        × (rq.cb ≡ true)
        × (is_ok (check_rqs data_map [] (take rq.len array)) ≡ true) =
      ground arith in
    record {
      queue_room = facts.0;
      some_data = facts.1;
      not_too_much = facts.2;
      callback = facts.3;
      array = array;
      not_null = not_null;
      sane = check_rqs-AreSane data_map [] (take rq.len array) facts.4;
    }

IsSane-validate_rq :
    (data_map : ℕ → Option DriverInfo) (rq : Rq)
    → IsSane data_map rq
    → validate_rq data_map rq ≡ good
unfolding validate_rq
IsSane-validate_rq data_map rq sane = ground (
  arith,
  sane.queue_room,
  sane.some_data,
  sane.not_too_much,
  sane.callback,
  sane.not_null,
  AreSane-check_rqs data_map sane.sane,
)

-- `validate_rq` accepts just the requests with a queue, a callback and from one to 1000 items in an
-- array, each of data that a driver has, where the driver's first descriptor of these data lists the
-- period of the item or no periods at all; of the same data, two items have different periods, and then
-- the `poll` operation of the driver of the later one is not the default one of the push mode.
pub validate_rq-IsSane :
    (data_map : ℕ → Option DriverInfo) (rq : Rq)
    → (is_ok (validate_rq data_map rq) ≡ true) ↔ IsSane data_map rq
validate_rq-IsSane data_map rq = (
  λ e. accepted data_map rq rq.items refl e,
  λ sane. ap is_ok (IsSane-validate_rq data_map rq sane),
)
