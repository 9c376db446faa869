-- ===== src/Err.antt =====
-- `hound_err` of include/hound/hound.h, and src/core/error.c.
pub mod Codes
use Prim.Native.String.{String}
use hound.Base.{ℕ, zero, suc, Option, none, some, List, [], ◌∷◌, ◌==◌, if◌then◌else◌, Bool, false}

pub data HoundErr : Type 0 where
  ok null_val oom driver_already_registered driver_not_registered driver_in_use missing_device_ids
        conflicting_drivers no_data_requested data_id_does_not_exist ctx_active ctx_not_active
        empty_queue missing_callback period_unsupported io_error queue_too_small invalid_string
        driver_unsupported driver_fail invalid_val intr dev_does_not_exist too_much_data_requested
        duplicate_data_requested driver_already_present ctx_stopped no_descs_enabled path_too_long :
      HoundErr

-- The `int` that the enumeration stands for; `negsuc n` is -(n + 1).
pub data ℤ : Type 0 where
  pos : ℕ → ℤ
  negsuc : ℕ → ℤ

unfoldable pub code : HoundErr → ℤ
code ok = pos 0
code null_val = negsuc 0
code oom = negsuc 1
code driver_already_registered = negsuc 2
code driver_not_registered = negsuc 3
code driver_in_use = negsuc 4
code missing_device_ids = negsuc 5
code conflicting_drivers = negsuc 6
code no_data_requested = negsuc 7
code data_id_does_not_exist = negsuc 8
code ctx_active = negsuc 9
code ctx_not_active = negsuc 10
code empty_queue = negsuc 11
code missing_callback = negsuc 12
code period_unsupported = negsuc 13
code io_error = negsuc 14
code queue_too_small = negsuc 15
code invalid_string = negsuc 16
code driver_unsupported = negsuc 17
code driver_fail = negsuc 18
code invalid_val = negsuc 19
code intr = negsuc 20
code dev_does_not_exist = negsuc 21
code too_much_data_requested = negsuc 22
code duplicate_data_requested = negsuc 23
code driver_already_present = negsuc 24
code ctx_stopped = negsuc 25
code no_descs_enabled = negsuc 26
code path_too_long = negsuc 27

unfoldable pub message : HoundErr → String
message ok = "OK"
message null_val = "NULL value specified"
message oom = "out of memory!"
message driver_already_registered = "driver is already registered"
message driver_not_registered = "driver is not registered"
message driver_in_use = "driver is in-use"
message missing_device_ids = "driver specifies NULL device IDs"
message conflicting_drivers = "two drivers registered for the same data ID"
message no_data_requested = "context does not request any data"
message data_id_does_not_exist = "context requests data ID not registered with a driver"
message ctx_active = "context is active"
message ctx_not_active = "context has not been started"
message empty_queue = "context requests a data queue of length 0"
message missing_callback = "context does not specify a data callback"
message period_unsupported = "context requests a period not supported by the backing driver"
message io_error = "I/O error (EIO)"
message queue_too_small = "blocking read requested for more samples than the max queue size"
message invalid_string = "string is not null-terminated, or is too long"
message driver_unsupported = "the driver does not support this request"
message driver_fail = "the driver failed to complete the requested operation"
message invalid_val = "value specified is invalid"
message intr = "operation was interrupted"
message dev_does_not_exist = "the given device ID does not exist"
message too_much_data_requested = "the caller requested too many data IDs in a context"
message duplicate_data_requested = "the caller requested the same data ID twice in the same context"
message driver_already_present = "driver is already initialized at the given path"
message ctx_stopped = "context has stopped during a blocking read"
message no_descs_enabled = "driver didn't enabled any data descriptors"
message path_too_long = "path is longer than PATH_MAX"

abbrev pub eq_int : ℤ → ℤ → Bool
eq_int (pos a) (pos b) = a == b
eq_int (negsuc a) (negsuc b) = a == b
eq_int _ _ = false

-- The labels of the `switch`, in order.
abbrev pub labels : List HoundErr
labels =
    ok ∷ null_val ∷ oom ∷ driver_already_registered ∷ driver_not_registered ∷ driver_in_use
    ∷ missing_device_ids ∷ conflicting_drivers ∷ no_data_requested ∷ data_id_does_not_exist
    ∷ ctx_active ∷ ctx_not_active ∷ empty_queue ∷ missing_callback ∷ period_unsupported ∷ io_error
    ∷ queue_too_small ∷ invalid_string ∷ driver_unsupported ∷ driver_fail ∷ invalid_val ∷ intr
    ∷ dev_does_not_exist ∷ too_much_data_requested ∷ duplicate_data_requested
    ∷ driver_already_present ∷ ctx_stopped ∷ no_descs_enabled ∷ path_too_long ∷ []

-- The `switch`: the text behind the label that the value equals, and NULL where there is none.
unfoldable pub select : ℤ → List HoundErr → Option String
select v [] = none
select v (e ∷ es) = if eq_int (code e) v then some (message e) else select v es

-- `error_strerror`. `strerror` of the C library is an argument.
unfoldable pub error_strerror : (ℕ → String) → ℤ → Option String
error_strerror strerror (pos zero) = select (pos 0) labels
error_strerror strerror (pos (suc n)) = some (strerror (suc n))
error_strerror strerror (negsuc n) = select (negsuc n) labels
