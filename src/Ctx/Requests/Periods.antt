-- ===== src/Ctx/Requests/Periods.antt =====
-- What a driver supports, told by its descriptors and its `poll` operation, and that
-- `driver_period_supported` and `driver_is_push_mode` of src/core/driver.c find out just that.
use hound.Base.{
  ℕ, zero, suc, ◌≡◌, ◌≢◌, refl, ap, some, true, false, List, [], ◌∷◌, get_elem?, ◌==◌, ==→eq, ==→ne,
  some_inj, Bool-cases, Option-cases, ◌⊎◌, inl, inr, arith, subst,
}
use hound.Driver.Descs.{
  DataDesc, PollOp, default_pull, default_push, other_poll, DriverInfo, find_desc, has_period,
  driver_period_supported, driver_is_push_mode,
}

-- The descriptor is the first one of the data ID.
pub data IsFirst (id : ℕ) (desc : DataDesc) : List DataDesc → Type 0 where
  first_here : (descs : List DataDesc) → desc.data_id ≡ id → IsFirst id desc (desc ∷ descs)
  first_later :
      (d : DataDesc) (descs : List DataDesc)
      → d.data_id ≢ id
      → IsFirst id desc descs
      → IsFirst id desc (d ∷ descs)

abbrev pub IsAmong : ℕ → List ℕ → Type 0
IsAmong period periods = (k : ℕ) × (get_elem? periods k ≡ some period)

-- The driver has a descriptor of the data ID, and the first one lists no periods or lists the one.
pub record Supports (drv : DriverInfo) (id period : ℕ) : Type 0 where
  pub desc : DataDesc
  pub first : IsFirst id desc drv.descs
  pub listed : (desc.avail_periods ≡ []) ⊎ IsAmong period desc.avail_periods

find_desc-IsFirst :
    (descs : List DataDesc) (id : ℕ) (desc : DataDesc)
    → find_desc descs id ≡ some desc
    → IsFirst id desc descs
unfolding find_desc
find_desc-IsFirst [] id desc e = cc
find_desc-IsFirst (d ∷ descs) id desc e = elim (Bool-cases (d.data_id == id)) [
  | inl same ↦
      let found : some d ≡ some desc = rw (find_desc, same) at e in
      let d_desc : d ≡ desc = some_inj found in
      subst (λ x. IsFirst id x (d ∷ descs)) d_desc (first_here descs (==→eq d.data_id id same))
  | inr other ↦
      first_later d descs (==→ne d.data_id id other)
        (find_desc-IsFirst descs id desc (rw (find_desc, other) at e))
]

apart_test : (a b : ℕ) → a ≢ b → (a == b) ≡ false
apart_test a b ne = ground arith

IsFirst-find_desc :
    (id : ℕ) (desc : DataDesc) {descs : List DataDesc}
    → IsFirst id desc descs
    → find_desc descs id ≡ some desc
unfolding find_desc
IsFirst-find_desc id desc (first_here descs e) = ground arith
IsFirst-find_desc id desc (first_later d descs ne first) =
    rw (apart_test d.data_id id ne) (IsFirst-find_desc id desc first)

has_period-IsAmong : (ps : List ℕ) (period : ℕ) → has_period ps period ≡ true → IsAmong period ps
unfolding has_period
has_period-IsAmong [] period e = cc
has_period-IsAmong (p ∷ ps) period e = elim (Bool-cases (p == period)) [
  | inl same ↦ (0, ap some (==→eq p period same))
  | inr other ↦
      let (k, at_k) = has_period-IsAmong ps period (rw (has_period, other) at e) in (suc k, at_k)
]

IsAmong-has_period :
    (ps : List ℕ) (period k : ℕ) → get_elem? ps k ≡ some period → has_period ps period ≡ true
unfolding has_period
IsAmong-has_period [] period k e = cc
IsAmong-has_period (p ∷ ps) period zero e = let same : p ≡ period = some_inj e in ground arith
IsAmong-has_period (p ∷ ps) period (suc k) e = ground (arith, IsAmong-has_period ps period k e)

-- The test of the periods of the first descriptor.
listed_test :
    (all ps : List ℕ) (period : ℕ)
    → all ≡ ps
    → (elim ps [ [] ↦ true | p ∷ rest ↦ has_period all period ]) ≡ true
    → (all ≡ []) ⊎ IsAmong period all
listed_test all [] period same e = inl same
listed_test all (p ∷ rest) period same e = inr (has_period-IsAmong all period e)

listed_passes :
    (all ps : List ℕ) (period : ℕ)
    → all ≡ ps
    → ((all ≡ []) ⊎ IsAmong period all)
    → (elim ps [ [] ↦ true | p ∷ rest ↦ has_period all period ]) ≡ true
listed_passes all [] period same l = refl
listed_passes all (p ∷ rest) period same (inl e) = cc
listed_passes all (p ∷ rest) period same (inr (k, at_k)) = IsAmong-has_period all period k at_k

pub driver_period_supported-Supports :
    (drv : DriverInfo) (id period : ℕ)
    → driver_period_supported drv id period ≡ true
    → Supports drv id period
unfolding driver_period_supported
driver_period_supported-Supports drv id period e = elim (Option-cases (find_desc drv.descs id)) [
  | inl missing ↦ let z : false ≡ true = rw (driver_period_supported, missing) at e in cc
  | inr (desc, found) ↦ record {
    desc = desc;
    first = find_desc-IsFirst drv.descs id desc found;
    listed =
        listed_test desc.avail_periods desc.avail_periods period refl
          (rw (driver_period_supported, found) at e);
  }
]

pub Supports-driver_period_supported :
    (drv : DriverInfo) (id period : ℕ)
    → Supports drv id period
    → driver_period_supported drv id period ≡ true
unfolding driver_period_supported
Supports-driver_period_supported drv id period s =
    rw (driver_period_supported, IsFirst-find_desc id s.desc s.first)
      (listed_passes s.desc.avail_periods s.desc.avail_periods period refl s.listed)

poll_is_push :
    (p : PollOp) → (elim p [ default_push ↦ true | _ ↦ false ]) ≡ false → p ≢ default_push
poll_is_push default_pull e same = cc
poll_is_push default_push e same = cc
poll_is_push other_poll e same = cc

poll_not_push :
    (p : PollOp) → p ≢ default_push → (elim p [ default_push ↦ true | _ ↦ false ]) ≡ false
poll_not_push default_pull ne = refl
poll_not_push default_push ne = absurd (ne refl)
poll_not_push other_poll ne = refl

pub driver_is_push_mode_lem :
    (drv : DriverInfo) → driver_is_push_mode drv ≡ false → drv.poll ≢ default_push
unfolding driver_is_push_mode
driver_is_push_mode_lem drv e = poll_is_push drv.poll e

pub not_push_mode : (drv : DriverInfo) → drv.poll ≢ default_push → driver_is_push_mode drv ≡ false
unfolding driver_is_push_mode
not_push_mode drv ne = poll_not_push drv.poll ne
