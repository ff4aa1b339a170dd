-- ===== src/Prelude/Words.antt =====
-- The widths of the contract's machine integers, and the arithmetic that saturates.
use Prim.Native.Nat.{ℕ, ◌+◌, ◌-◌, ◌*◌, ◌^◌, min}
use sorowill_contracts.Prelude.Tests.{leb, if◌then◌else◌}
use sorowill_contracts.Prelude.Int.{ℤ, pos, negsuc, ◌+ℤ◌}

-- `u32::MAX`, `u64::MAX`, `i128::MAX`
abbrev pub u32_max : ℕ
u32_max = 2 ^ 32 - 1

abbrev pub u64_max : ℕ
u64_max = 2 ^ 64 - 1

abbrev pub i128_max : ℕ
i128_max = 2 ^ 127 - 1

unfoldable pub saturating_add_u32 : ℕ → ℕ → ℕ
saturating_add_u32 a b = min (a + b) u32_max

unfoldable pub saturating_add_u64 : ℕ → ℕ → ℕ
saturating_add_u64 a b = min (a + b) u64_max

unfoldable pub saturating_mul_u64 : ℕ → ℕ → ℕ
saturating_mul_u64 a b = min (a * b) u64_max

-- The nearest i128: `i128::MIN` is `negsuc i128_max`.
abbrev pub clamp_i128 : ℤ → ℤ
clamp_i128 (pos n) = if leb n i128_max then pos n else pos i128_max
clamp_i128 (negsuc n) = if leb n i128_max then negsuc n else negsuc i128_max

unfoldable pub saturating_add_i128 : ℤ → ℤ → ℤ
saturating_add_i128 a b = clamp_i128 (a +ℤ b)
