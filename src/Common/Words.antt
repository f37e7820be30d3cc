-- ===== src/Common/Words.antt =====
-- The unsigned arithmetic of uint32_t and of uint64_t (size_t), with its wrap-around.
use Prim.Native.Nat.{ℕ, ◌+◌, ◌-◌, ◌%◌, ◌^◌, ◌≤◌, ◌<◌}
use mathlib.Core.Path.{◌≡◌}
use native.Mathlib.Omega.{arith}

abbrev pub add32 : ℕ → ℕ → ℕ
add32 a b = (a + b) % 2 ^ 32

abbrev pub sub32 : ℕ → ℕ → ℕ
sub32 a b = (a + 2 ^ 32 - b) % 2 ^ 32

abbrev pub add64 : ℕ → ℕ → ℕ
add64 a b = (a + b) % 2 ^ 64

abbrev pub sub64 : ℕ → ℕ → ℕ
sub64 a b = (a + 2 ^ 64 - b) % 2 ^ 64

pub add32_small : (a b : ℕ) → a + b < 2 ^ 32 → add32 a b ≡ a + b
add32_small a b h = omega arith

pub sub32_small : (a b : ℕ) → a < 2 ^ 32 → b ≤ a → sub32 a b ≡ a - b
sub32_small a b h k = omega arith

pub add64_small : (a b : ℕ) → a + b < 2 ^ 64 → add64 a b ≡ a + b
add64_small a b h = omega arith

pub sub64_small : (a b : ℕ) → a < 2 ^ 64 → b ≤ a → sub64 a b ≡ a - b
sub64_small a b h k = omega arith
