-- ===== src/Base/Int.antt =====
-- `int32_t` as its bit pattern below 2^32, and the integer that a pattern stands for.
use Prim.Native.Nat.{ℕ, ◌-◌, ◌^◌}
use mathlib.Core.Bool.{Bool, true, false}
use kvm_hypervisor.Base.Tests.{ltb, leb, if◌then◌else◌}

-- `negsuc n` is -(n + 1).
pub data ℤ : Type 0 where
  pos : ℕ → ℤ
  negsuc : ℕ → ℤ

abbrev pub Int32 : Type 0
Int32 = ℕ

abbrev pub minus_one : Int32
minus_one = 2 ^ 32 - 1

abbrev pub is_negative : Int32 → Bool
is_negative w = leb (2 ^ 31) w

abbrev pub signed32 : Int32 → ℤ
signed32 w = if ltb w (2 ^ 31) then pos w else negsuc (2 ^ 32 - w - 1)

abbrev pub is_neg : ℤ → Bool
is_neg (pos n) = false
is_neg (negsuc n) = true

-- The value of an integer that is not negative.
abbrev pub magnitude : ℤ → ℕ
magnitude (pos n) = n
magnitude (negsuc n) = 0
