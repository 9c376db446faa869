-- ===== src/Err/Codes.antt =====
-- The error codes and their texts.
use Prim.Native.String.{String}
use text.Mathlib.Text.{◌==◌ as str_eq}
use hound.Base.{ℕ, ◌≡◌, ◌≤◌, refl, ap, Option, none, some, arith, List, [], ◌∷◌, if◌then◌else◌}
use hound.Err.{HoundErr, negsuc, code, message, select, labels, error_strerror}
use hound.Err.HoundErr.{
  ok, null_val, oom, driver_already_registered, driver_not_registered, driver_in_use,
  missing_device_ids, conflicting_drivers, no_data_requested, data_id_does_not_exist, ctx_active,
  ctx_not_active, empty_queue, missing_callback, period_unsupported, io_error, queue_too_small,
  invalid_string, driver_unsupported, driver_fail, invalid_val, intr, dev_does_not_exist,
  too_much_data_requested, duplicate_data_requested, driver_already_present, ctx_stopped,
  no_descs_enabled, path_too_long,
}

-- The label with a given text.
find_text : String → List HoundErr → Option HoundErr
find_text s [] = none
find_text s (e ∷ es) = if str_eq (message e) s then some e else find_text s es

find_text-message : (e : HoundErr) → find_text (message e) labels ≡ some e
unfolding find_text message
find_text-message ok = refl
find_text-message null_val = refl
find_text-message oom = refl
find_text-message driver_already_registered = refl
find_text-message driver_not_registered = refl
find_text-message driver_in_use = refl
find_text-message missing_device_ids = refl
find_text-message conflicting_drivers = refl
find_text-message no_data_requested = refl
find_text-message data_id_does_not_exist = refl
find_text-message ctx_active = refl
find_text-message ctx_not_active = refl
find_text-message empty_queue = refl
find_text-message missing_callback = refl
find_text-message period_unsupported = refl
find_text-message io_error = refl
find_text-message queue_too_small = refl
find_text-message invalid_string = refl
find_text-message driver_unsupported = refl
find_text-message driver_fail = refl
find_text-message invalid_val = refl
find_text-message intr = refl
find_text-message dev_does_not_exist = refl
find_text-message too_much_data_requested = refl
find_text-message duplicate_data_requested = refl
find_text-message driver_already_present = refl
find_text-message ctx_stopped = refl
find_text-message no_descs_enabled = refl
find_text-message path_too_long = refl

-- Every code of the enumeration has its text, whatever the C library's `strerror` does.
pub error_strerror-code :
    (strerror : ℕ → String) (e : HoundErr) → error_strerror strerror (code e) ≡ some (message e)
unfolding error_strerror select code
error_strerror-code strerror ok = refl
error_strerror-code strerror null_val = refl
error_strerror-code strerror oom = refl
error_strerror-code strerror driver_already_registered = refl
error_strerror-code strerror driver_not_registered = refl
error_strerror-code strerror driver_in_use = refl
error_strerror-code strerror missing_device_ids = refl
error_strerror-code strerror conflicting_drivers = refl
error_strerror-code strerror no_data_requested = refl
error_strerror-code strerror data_id_does_not_exist = refl
error_strerror-code strerror ctx_active = refl
error_strerror-code strerror ctx_not_active = refl
error_strerror-code strerror empty_queue = refl
error_strerror-code strerror missing_callback = refl
error_strerror-code strerror period_unsupported = refl
error_strerror-code strerror io_error = refl
error_strerror-code strerror queue_too_small = refl
error_strerror-code strerror invalid_string = refl
error_strerror-code strerror driver_unsupported = refl
error_strerror-code strerror driver_fail = refl
error_strerror-code strerror invalid_val = refl
error_strerror-code strerror intr = refl
error_strerror-code strerror dev_does_not_exist = refl
error_strerror-code strerror too_much_data_requested = refl
error_strerror-code strerror duplicate_data_requested = refl
error_strerror-code strerror driver_already_present = refl
error_strerror-code strerror ctx_stopped = refl
error_strerror-code strerror no_descs_enabled = refl
error_strerror-code strerror path_too_long = refl

-- A negative value below the last code has no text.
pub error_strerror_unknown :
    (strerror : ℕ → String) (n : ℕ) → 28 ≤ n → error_strerror strerror (negsuc n) ≡ none
unfolding error_strerror select code
error_strerror_unknown strerror n h = ground arith

-- Two codes of the enumeration with the same text are the same code, whatever the C library's
-- `strerror` does.
pub error_strerror_injective :
    (strerror : ℕ → String) (e f : HoundErr)
    → error_strerror strerror (code e) ≡ error_strerror strerror (code f)
    → e ≡ f
error_strerror_injective strerror e f same =
    let texts : message e ≡ message f =
      cc (error_strerror-code strerror e, error_strerror-code strerror f) in
    cc (find_text-message e, find_text-message f, ap (λ s. find_text s labels) texts)
