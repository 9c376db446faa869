-- ===== src/Driver/Descs.antt =====
-- What src/core/driver.c knows of its drivers: the sizes of types, `driver_get`, the modes, the names
-- and the descriptors. The hash tables of xlib are the list of their entries, in the order of a walk.
use hound.Base.{
  ℕ, ◌+◌, ◌≡◌, ◌∙◌, Option, none, some, Bool, true, false, ◌==◌, if◌then◌else◌, List, [], ◌∷◌, ◌++◌,
  length, length-append, arith, add_size, mul_size, mod_below, word_mod, ◌<◌, ◌≤◌, ◌*◌, leb, le→leb,
  assert, ◌>>=◌, ◌>>◌, refl, add_size_small, subst, sym, Bool-cases, inl, inr, ==→eq,
}
use hound.Err.{HoundErr}
use hound.Driver.Calls.{Result, good}

-- `hound_type`.
pub data HoundType : Type 0 where
  type_bool type_bytes type_double type_float type_int16 type_int32 type_int64 type_int8 type_uint16
        type_uint32 type_uint64 type_uint8 :
      HoundType

unfoldable pub get_type_size : HoundType → ℕ
get_type_size type_bool = 1
get_type_size type_float = 4
get_type_size type_double = 8
get_type_size type_int8 = 1
get_type_size type_uint8 = 1
get_type_size type_int16 = 2
get_type_size type_uint16 = 2
get_type_size type_int32 = 4
get_type_size type_uint32 = 4
get_type_size type_int64 = 8
get_type_size type_uint64 = 8
get_type_size type_bytes = 0

-- `struct hound_datadesc`, without the name and the formats; `avail_periods` with its `period_count`.
pub record DataDesc : Type 0 where
  pub data_id : ℕ
  pub dev_id : ℕ
  pub avail_periods : List ℕ

-- The `poll` operation of a driver.
pub data PollOp : Type 0 where
  default_pull default_push other_poll : PollOp

-- The fields of `struct driver` that do not change while it is registered.
pub record DriverInfo : Type 0 where
  pub id : ℕ
  pub device_name : ℕ
  pub descs : List DataDesc
  pub poll : PollOp

unfoldable pub driver_is_pull_mode : DriverInfo → Bool
driver_is_pull_mode drv = elim drv.poll [ default_pull ↦ true | _ ↦ false ]

unfoldable pub driver_is_push_mode : DriverInfo → Bool
driver_is_push_mode drv = elim drv.poll [ default_push ↦ true | _ ↦ false ]

-- `driver_get`: `s_data_map` at a data ID.
unfoldable pub driver_get : (ℕ → Option DriverInfo) → ℕ → Result × Option DriverInfo
driver_get data_map id = elim (data_map id) [
  | none ↦ (Result.library HoundErr.data_id_does_not_exist, none)
  | some drv ↦ (good, some drv)
]

-- The two loops of `driver_period_supported`.
unfoldable pub find_desc : List DataDesc → ℕ → Option DataDesc
find_desc [] id = none
find_desc (desc ∷ descs) id =
    let rest = find_desc descs id in if desc.data_id == id then some desc else rest

unfoldable pub has_period : List ℕ → ℕ → Bool
has_period [] period = false
has_period (p ∷ ps) period = let rest = has_period ps period in if p == period then true else rest

unfoldable pub driver_period_supported : DriverInfo → ℕ → ℕ → Bool
driver_period_supported drv id period = elim (find_desc drv.descs id) [
  | none ↦ false
  | some desc ↦ elim desc.avail_periods [
    | [] ↦ true
    | p ∷ ps ↦ has_period desc.avail_periods period
  ]
]

-- `driver_get_dev_name`, over the drivers in `s_device_map`.
unfoldable pub driver_get_dev_name : List DriverInfo → ℕ → Result × Option ℕ
driver_get_dev_name [] id = (Result.library HoundErr.dev_does_not_exist, none)
driver_get_dev_name (drv ∷ drvs) id =
    let rest = driver_get_dev_name drvs id in
    if id == drv.id then (good, some drv.device_name) else rest

-- `sizeof(struct hound_datadesc)`, with pointers of 8 bytes.
abbrev pub desc_bytes : ℕ
desc_bytes = 48

-- The loop that adds up the sizes, and the one that copies, from the place `pos` on of a block of
-- `room` bytes: a `memcpy` that leaves the block is a fault.
unfoldable pub descs_size : List DriverInfo → ℕ → ℕ
descs_size [] size = size
descs_size (drv ∷ drvs) size = descs_size drvs (add_size size (length drv.descs))

unfoldable pub copy_descs : ℕ → ℕ → List DriverInfo → Option (List DataDesc)
copy_descs room pos [] = some []
copy_descs room pos (drv ∷ drvs) = do
  assert (leb (pos * desc_bytes + mul_size (length drv.descs) desc_bytes) room)
  rest ← copy_descs room (pos + length drv.descs) drvs
  some (drv.descs ++ rest)

-- `driver_get_datadescs`: the error, `*len`, and `*descs` (`none` is NULL). `malloc` tells for each number
-- of bytes whether the allocation succeeds.
unfoldable pub driver_get_datadescs :
    (ℕ → Bool) → List DriverInfo → Option (Result × ℕ × Option (List DataDesc))
driver_get_datadescs malloc drvs =
    let size = descs_size drvs 0 in
    let block = mul_size size desc_bytes in
    let copied = copy_descs block 0 drvs in
    if size == 0
    then some (good, size, none)
    else if malloc block
    then (do descs ← copied; some (good, size, some descs))
    else some (Result.library HoundErr.oom, size, none)

-- The descriptors of all drivers.
abbrev pub all_descs : List DriverInfo → List DataDesc
all_descs [] = []
all_descs (drv ∷ drvs) = drv.descs ++ all_descs drvs

descs_size_sum :
    (drvs : List DriverInfo) (n : ℕ)
    → n + length (all_descs drvs) < word_mod
    → descs_size drvs n ≡ n + length (all_descs drvs)
unfolding descs_size
descs_size_sum [] n small = omega arith
descs_size_sum (drv ∷ drvs) n small =
    let l = length-append drv.descs (all_descs drvs) in
    let e : add_size n (length drv.descs) ≡ n + length drv.descs =
      add_size_small n (length drv.descs) (omega (arith, l, small)) in
    subst (λ v. descs_size drvs v ≡ n + length (drv.descs ++ all_descs drvs)) (sym e)
      (descs_size_sum drvs (n + length drv.descs) (omega (arith, l, small)) ∙ omega (arith, l))

copy_descs_all :
    (drvs : List DriverInfo) (room pos : ℕ)
    → room < word_mod
    → (pos + length (all_descs drvs)) * desc_bytes ≤ room
    → copy_descs room pos drvs ≡ some (all_descs drvs)
unfolding copy_descs
copy_descs_all [] room pos small fits = refl
copy_descs_all (drv ∷ drvs) room pos small fits =
    let l = length-append drv.descs (all_descs drvs) in
    let here : leb (pos * desc_bytes + mul_size (length drv.descs) desc_bytes) room ≡ true =
      le→leb _ _ (omega (arith, l, small, fits)) in
    rw
      (
        copy_descs,
        here,
        copy_descs_all drvs room (pos + length drv.descs) small (omega (arith, l, fits)),
      )
      refl

-- Where the descriptors of all drivers take fewer than 2 ^ 64 bytes, `driver_get_datadescs` has no
-- fault: no copy leaves the block that it has asked for. `*len` is their number; where there are none
-- or the allocation of the block, which is just of their size, fails, `*descs` is NULL, and else it holds
-- them all, in order of the drivers.
pub driver_get_datadescs_lem :
    (malloc : ℕ → Bool) (drvs : List DriverInfo)
    → length (all_descs drvs) * desc_bytes < word_mod
    → driver_get_datadescs malloc drvs
      ≡ some (
          if length (all_descs drvs) == 0
          then (good, 0, none)
          else if malloc (length (all_descs drvs) * desc_bytes)
          then (good, length (all_descs drvs), some (all_descs drvs))
          else (Result.library HoundErr.oom, length (all_descs drvs), none))
unfolding driver_get_datadescs
driver_get_datadescs_lem malloc drvs small =
    let n = length (all_descs drvs) in
    let e : descs_size drvs 0 ≡ n = descs_size_sum drvs 0 (omega (arith, small)) ∙ omega arith in
    let b : mul_size n desc_bytes ≡ n * desc_bytes = mod_below (n * desc_bytes) word_mod small in
    let c = copy_descs_all drvs (n * desc_bytes) 0 small (omega arith) in
    elim (Bool-cases (n == 0)) [
      | inl zero_len ↦ rw (driver_get_datadescs, e, zero_len, ==→eq n 0 zero_len) refl
      | inr more ↦ elim (Bool-cases (malloc (n * desc_bytes))) [
        | inl got ↦ rw (driver_get_datadescs, e, b, c, more, got) refl
        | inr full ↦ rw (driver_get_datadescs, e, b, c, more, full) refl
      ]
    ]
