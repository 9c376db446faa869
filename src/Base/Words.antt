-- ===== src/Base/Words.antt =====
-- The arithmetic of `size_t` and the other 64-bit unsigned types: it wraps at 2 ^ 64.
use Prim.Native.Nat.{ℕ, ◌+◌, ◌-◌, ◌*◌, ◌%◌, ◌^◌, ◌≤◌, ◌<◌}
use mathlib.Core.Path.{◌≡◌, ◌∙◌}
use native.Mathlib.Nat.{mod-eq_of_lt, mod-eq-sub-mod}
use native.Mathlib.Omega.{arith}

abbrev pub word_mod : ℕ
word_mod = 2 ^ 64

abbrev pub add_size : ℕ → ℕ → ℕ
add_size a b = (a + b) % word_mod

abbrev pub sub_size : ℕ → ℕ → ℕ
sub_size a b = (a + word_mod - b) % word_mod

abbrev pub mul_size : ℕ → ℕ → ℕ
mul_size a b = (a * b) % word_mod

-- A sum of two numbers below the modulus wraps at most once.
pub mod_below : (a m : ℕ) → a < m → a % m ≡ a
mod_below a m h = mod-eq_of_lt h

pub mod_wrapped : (a m : ℕ) → m ≤ a → a < m + m → a % m ≡ a - m
mod_wrapped a m h k = mod-eq-sub-mod {n = a} {m = m} h ∙ mod-eq_of_lt (omega arith)

pub add_size_small : (a b : ℕ) → a + b < word_mod → add_size a b ≡ a + b
add_size_small a b h = mod_below (a + b) word_mod h

pub sub_size_small : (a b : ℕ) → b ≤ a → a < word_mod → sub_size a b ≡ a - b
sub_size_small a b h k = omega arith
