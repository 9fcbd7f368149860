-- ===== src/Common/Word.antt =====
-- Machine words: casts, wrapping arithmetic, shifts and the byte order of the network.
use Prim.Native.Nat.{ℕ, ◌+◌, ◌-◌, ◌*◌, ◌/◌, ◌%◌, ◌^◌}
use mathlib.Core.Bool.{Bool}
use ntfw.Common.Tests.{if◌then◌else◌}

abbrev pub u8 : ℕ → ℕ
u8 n = n % 2 ^ 8

abbrev pub u16 : ℕ → ℕ
u16 n = n % 2 ^ 16

abbrev pub u32 : ℕ → ℕ
u32 n = n % 2 ^ 32

abbrev pub u64 : ℕ → ℕ
u64 n = n % 2 ^ 64

infixl 75 ◌<<<◌ ◌>>>◌
abbrev pub ◌<<<◌ : ℕ → ℕ → ℕ
x <<< k = x * 2 ^ k

abbrev pub ◌>>>◌ : ℕ → ℕ → ℕ
x >>> k = x / 2 ^ k

-- Subtraction of 32-bit words (`-` on ℕ stops at 0).
abbrev pub sub32 : ℕ → ℕ → ℕ
sub32 a b = (a + 2 ^ 32 - b) % 2 ^ 32

abbrev pub not32 : ℕ → ℕ
not32 a = 2 ^ 32 - 1 - a

-- `-b` of a C truth value `b`, as a 32-bit word: all ones, or zero.
abbrev pub neg_bool32 : Bool → ℕ
neg_bool32 b = if b then 0xffff_ffff else 0

abbrev pub low_mask : ℕ → ℕ
low_mask k = 2 ^ k - 1

-- `_byteswap_ushort`, as a sum of the two bytes.
abbrev pub bswap16 : ℕ → ℕ
bswap16 x = x % 256 * 256 + x / 256 % 256
