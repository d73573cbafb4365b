-- ===== src/Prelude/Words.antt =====
-- `u32` arithmetic as a release build computes it: sums and differences wrap modulo 2 ^ 32.
-- `saturating_sub` is the truncated `-` of the natural numbers.
use Prim.Native.Nat.{ℕ, ◌+◌, ◌-◌, ◌%◌, ◌≤◌, ◌<◌, min}
use mathlib.Core.Path.{◌≡◌}
use native.Mathlib.Omega.{arith}

abbrev pub u32_mod : ℕ
u32_mod = 4294967296

unfoldable pub add32 : ℕ → ℕ → ℕ
add32 a b = (a + b) % 4294967296

unfoldable pub sub32 : ℕ → ℕ → ℕ
sub32 a b = (a + 4294967296 - b) % 4294967296

-- `saturating_add`, which stops at the largest word.
abbrev pub saturating_add : ℕ → ℕ → ℕ
saturating_add a b = min (a + b) 4294967295

pub add32-eq : (a b : ℕ) → a + b < u32_mod → add32 a b ≡ a + b
unfolding add32
add32-eq a b h = omega arith

pub sub32-eq : (a b : ℕ) → b ≤ a → a < u32_mod → sub32 a b ≡ a - b
unfolding sub32
sub32-eq a b h k = omega arith
