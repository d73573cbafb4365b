-- ===== src/Prelude/Int.antt =====
-- The signed integers of the source, `i64`, over the native numbers.
use Prim.Native.Nat.{ℕ, zero, suc, ◌+◌, ◌-◌, ◌*◌}
use mathlib.Core.Bool.{Bool, true, false, ◌&&◌}
use mathlib.Core.Path.{◌≡◌, ap}
use native.Mathlib.Omega.{arith}
use bluffking.Prelude.Tests.{◌==◌, leb, ltb, if◌then◌else◌, ==_self}

pub data ℤ : Type 0 where
  pos : ℕ → ℤ
  -- `negsuc n` is -(n + 1)
  negsuc : ℕ → ℤ

-- `-x`, for which the source's callers have checked the range
abbrev pub negate : ℤ → ℤ
negate (pos zero) = pos zero
negate (pos (suc n)) = negsuc n
negate (negsuc n) = pos (suc n)

-- `x + y` and `x * n`, for which the source's ranges leave room
abbrev pub plus : ℤ → ℤ → ℤ
plus (pos m) (pos n) = pos (m + n)
plus (pos m) (negsuc n) = if ltb n m then pos (m - suc n) else negsuc (n - m)
plus (negsuc m) (pos n) = if ltb m n then pos (n - suc m) else negsuc (m - n)
plus (negsuc m) (negsuc n) = negsuc (m + n + 1)

abbrev pub times : ℤ → ℕ → ℤ
times (pos m) n = pos (m * n)
times (negsuc m) n = negate (pos (suc m * n))

-- `(low..=high).contains(&x)`, for bounds that are not negative
abbrev pub within : ℕ → ℕ → ℤ → Bool
within low high (pos n) = leb low n && leb n high
within low high (negsuc n) = false

abbrev pub same_int : ℤ → ℤ → Bool
same_int (pos m) (pos n) = m == n
same_int (negsuc m) (negsuc n) = m == n
same_int _ _ = false

pub same_int-eq : (x y : ℤ) → same_int x y ≡ true → x ≡ y
same_int-eq (pos m) (pos n) e = ap pos (ground arith)
same_int-eq (pos m) (negsuc n) e = cc
same_int-eq (negsuc m) (pos n) e = cc
same_int-eq (negsuc m) (negsuc n) e = ap negsuc (ground arith)

pub same_int_self : (x : ℤ) → same_int x x ≡ true
same_int_self (pos m) = ==_self m
same_int_self (negsuc m) = ==_self m
