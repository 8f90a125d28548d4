-- ===== src/Base/Int.antt =====
-- Integers over the native numbers, for differences of instants.
use Prim.Native.Nat.{ℕ, suc, ◌-◌, ◌/◌, ◌%◌}
use mathlib.Core.Bool.{Bool, true, false}
use d_reader_backend.Base.Tests.{leb, if◌then◌else◌}

-- `negsuc n` is -(n + 1)
pub data ℤ : Type 0 where
  pos : ℕ → ℤ
  negsuc : ℕ → ℤ

-- a - b
abbrev pub sub_ℕ : ℕ → ℕ → ℤ
sub_ℕ a b = if leb b a then pos (a - b) else negsuc (b - a - 1)

-- `Math.floor(a / n)`
abbrev pub floor_div : ℤ → ℕ → ℤ
floor_div (pos a) n = pos (a / n)
floor_div (negsuc a) n = negsuc (a / n)

-- `a % n`, which has the sign of `a`
abbrev pub rem : ℤ → ℕ → ℤ
rem (pos a) n = pos (a % n)
rem (negsuc a) n = if leb (suc a % n) 0 then pos 0 else negsuc (suc a % n - 1)

-- `a > n`
abbrev pub exceeds : ℤ → ℕ → Bool
exceeds (pos a) n = leb (suc n) a
exceeds (negsuc a) n = false

-- `n > z`
abbrev pub above : ℕ → ℤ → Bool
above n (pos a) = leb (suc a) n
above n (negsuc a) = true
