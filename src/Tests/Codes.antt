-- ===== src/Tests/Codes.antt =====
-- Error texts.
use Prim.Native.String.{String}
use hound.Base.{ℕ, ◌≡◌, refl}
use hound.Err.{HoundErr}
use hound.Err.Codes.{error_strerror_injective}

abbrev no_text : ℕ → String
no_text n = ""

injective_example : HoundErr.intr ≡ HoundErr.intr
injective_example = error_strerror_injective no_text HoundErr.intr HoundErr.intr refl
