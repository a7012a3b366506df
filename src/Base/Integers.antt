-- ===== src/Base/Integers.antt =====
-- Integers over the native ℕ, for differences that may be negative.
use Prim.Native.Nat.{ℕ, suc, ◌-◌}
use enterprise_management.Base.Tests.{if◌then◌else◌, leb}

-- `negsuc n` is - (n + 1).
pub data ℤ : Type 0 where
  pos negsuc : ℕ → ℤ

-- a - b
abbrev pub sub_ℕ : ℕ → ℕ → ℤ
sub_ℕ a b = if leb b a then pos (a - b) else negsuc (b - suc a)
