-- ===== src/Saturate.antt =====
-- ntfe/helper.cpp: the saturating arithmetic on 32-bit words.
pub mod Laws
use ntfw.Common.{ℕ, ◌+◌, ◌*◌, bit_and, bit_or, leb, ltb, ◌==◌, not, u32, u64, sub32, ◌>>>◌}
use ntfw.Common.{neg_bool32}

pub satsub32 : ℕ → ℕ → ℕ
satsub32 a b = let r = sub32 a b in bit_and r (neg_bool32 (leb r a))

pub satadd32 : ℕ → ℕ → ℕ
satadd32 a b = let r = u32 (a + b) in bit_or r (neg_bool32 (ltb r a))

-- `-!!u32(r >> 32)` is all ones when the high half of the product is not zero.
pub satmul32 : ℕ → ℕ → ℕ
satmul32 a b = let r = u64 (a * b) in bit_or (u32 r) (neg_bool32 (not (u32 (r >>> 32) == 0)))
