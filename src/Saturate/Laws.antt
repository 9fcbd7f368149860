-- ===== src/Saturate/Laws.antt =====
-- The saturating operations of ntfe/helper.cpp are the operations on numbers, cut off at the
-- ends of the 32-bit range.
use ntfw.Common.{ℕ, ◌+◌, ◌-◌, ◌*◌, ◌<◌, ◌^◌, ◌≡◌, min, arith}
use ntfw.Common.{sub32, u32}
use ntfw.Common.Bits.{bit_and_mask, bit_and-zero, bit_or-zero, bit_or_ones}
use ntfw.Saturate.{satsub32, satadd32, satmul32}

abbrev pub max32 : ℕ
max32 = 2 ^ 32 - 1

-- `satsub32` stops at zero.
pub satsub32_lem : (a b : ℕ) → a < 2 ^ 32 → b < 2 ^ 32 → satsub32 a b ≡ a - b
unfolding satsub32
satsub32_lem a b ha hb = ground (arith, bit_and_mask 32 (sub32 a b), bit_and-zero (sub32 a b))

-- `satadd32` stops at the largest word.
pub satadd32_lem : (a b : ℕ) → a < 2 ^ 32 → b < 2 ^ 32 → satadd32 a b ≡ min (a + b) max32
unfolding satadd32
satadd32_lem a b ha hb = ground (arith, bit_or_ones 32 (u32 (a + b)), bit_or-zero (u32 (a + b)))

mul_bound : (a b : ℕ) → a < 2 ^ 32 → b < 2 ^ 32 → a * b < 2 ^ 64
mul_bound a b ha hb = grind arith

-- `satmul32` stops at the largest word.
pub satmul32_lem : (a b : ℕ) → a < 2 ^ 32 → b < 2 ^ 32 → satmul32 a b ≡ min (a * b) max32
unfolding satmul32
satmul32_lem a b ha hb =
    ground (arith, mul_bound a b, bit_or_ones 32 (u32 (a * b)), bit_or-zero (u32 (a * b)))

pub satsub32-lt : (a b : ℕ) → a < 2 ^ 32 → b < 2 ^ 32 → satsub32 a b < 2 ^ 32
satsub32-lt a b ha hb = omega (arith, satsub32_lem a b ha hb)
