-- ===== src/Flow/Encoding.antt =====
-- What the encoding of ethertypes keeps apart, and the two views of a signature.
use ntfw.Common.{ℕ, ◌+◌, ◌*◌, ◌/◌, ◌%◌, ◌^◌, ◌<◌, ◌≤◌, ◌≡◌, ◌≢◌, ◌↔◌, arith}
use ntfw.Common.{bit_or, bswap16}
use ntfw.Common.Bits.{bit_or_step, bit_or-zero, bit_and_mask}
use ntfw.Flow.{Flowsig, sig_data, mask_sig, ether_le16_to_fs, ether_be16_to_fs}
use ntfw.Flow.{rule_hashfn}

-- Below an even mask the lowest digit is kept.
or_even : (x b : ℕ) → bit_or x (2 * b) ≡ bit_or (x / 2) b * 2 + x % 2
or_even x b = ground (arith, bit_or_step x (2 * b))

or_one : (x : ℕ) → bit_or x 1 ≡ x / 2 * 2 + 1
or_one x = omega (arith, bit_or_step x 1, bit_or-zero (x / 2))

or_0x10 : (x : ℕ) → bit_or x 0x10 ≡ x / 32 * 32 + x % 16 + 16
or_0x10 x = omega (
  arith,
  or_even x 8,
  or_even (x / 2) 4,
  or_even (x / 2 / 2) 2,
  or_even (x / 2 / 2 / 2) 1,
  or_one (x / 2 / 2 / 2 / 2),
)

-- `x | 0x80` on the low byte sets bit 7 and keeps the seven bits below.
or_0x80 : (x : ℕ) → bit_or x 0x80 % 256 ≡ x % 128 + 128
or_0x80 x =
    omega (arith, or_even x 64, or_even (x / 2) 32, or_even (x / 2 / 2) 16, or_0x10 (x / 2 / 2 / 2))

pub ether_be16_to_fs_lem : (e : ℕ) → e < 2 ^ 16 → ether_be16_to_fs e ≡ e / 128 % 128 + 128
unfolding ether_be16_to_fs
ether_be16_to_fs_lem e h = omega (arith, or_0x80 (e % 2 ^ 16 / 2 ^ 7))

-- The signature of a rule and that of a received frame use one encoding: for an ethertype in
-- host order and the same ethertype as it is read from the frame, the two macros agree.
pub ether_le16-eq-be16 : (e : ℕ) → e < 2 ^ 16 → ether_le16_to_fs e ≡ ether_be16_to_fs (bswap16 e)
unfolding ether_le16_to_fs ether_be16_to_fs
ether_le16-eq-be16 e h =
    omega (arith, or_0x80 (bswap16 e / 2 ^ 7), or_0x80 (bswap16 e % 2 ^ 16 / 2 ^ 7))

pub ether_le16_to_fs_lem :
    (e : ℕ) → e < 2 ^ 16 → ether_le16_to_fs e ≡ e / 256 / 128 + e % 64 * 2 + 128
ether_le16_to_fs_lem e h =
    omega (arith, ether_le16-eq-be16 e h, ether_be16_to_fs_lem (bswap16 e) (omega arith))

-- Two ethertypes have one encoding exactly when they agree in their top bit and in their six
-- low bits: all other bits are lost.
pub ether_fs_alias_iff :
    (d e : ℕ)
    → d < 2 ^ 16
    → e < 2 ^ 16
    → (ether_le16_to_fs d ≡ ether_le16_to_fs e)
      ↔ ((d / 2 ^ 15 ≡ e / 2 ^ 15) × (d % 2 ^ 6 ≡ e % 2 ^ 6))
ether_fs_alias_iff d e hd he = (
  λ h. omega (arith, ether_le16_to_fs_lem d hd, ether_le16_to_fs_lem e he),
  λ h. omega (arith, ether_le16_to_fs_lem d hd, ether_le16_to_fs_lem e he),
)

-- The fields of a signature fit their widths.
pub record IsSig (fs : Flowsig) : Type 0 where
  pub ether_fits : fs.ether < 2 ^ 8
  pub proto_fits : fs.proto < 2 ^ 8
  pub dport_fits : fs.dport < 2 ^ 16

pub sig_data-lt : {fs : Flowsig} → IsSig fs → sig_data fs < 2 ^ 32
unfolding sig_data
sig_data-lt v = omega arith

pub sig_data-ne-zero : (fs : Flowsig) → 128 ≤ fs.ether → sig_data fs ≢ 0
unfolding sig_data
sig_data-ne-zero fs h = omega arith

pub sig_data-eq_iff :
    {fs gs : Flowsig}
    → IsSig fs
    → IsSig gs
    → sig_data fs ≡ sig_data gs
    → (fs.ether ≡ gs.ether) × (fs.proto ≡ gs.proto) × (fs.dport ≡ gs.dport)
unfolding sig_data
sig_data-eq_iff v w h = (omega arith, omega arith, omega arith)

-- Masked by its two low bytes, or by its lowest one, a signature loses the fields above.
pub mask_sig_low16 : {fs : Flowsig} → IsSig fs → mask_sig fs 0xffff ≡ record fs { dport = 0 }
unfolding mask_sig
mask_sig_low16 {fs} v = ground (arith, bit_and_mask 16 (sig_data fs))

pub mask_sig_low8 :
    {fs : Flowsig} → IsSig fs → mask_sig fs 0xff ≡ record fs { proto = 0; dport = 0 }
unfolding mask_sig
mask_sig_low8 {fs} v = ground (arith, bit_and_mask 8 (sig_data fs))

pub mask_sig_all : {fs : Flowsig} → IsSig fs → mask_sig fs 0xffff_ffff ≡ fs
unfolding mask_sig
mask_sig_all {fs} v = ground (arith, bit_and_mask 32 (sig_data fs))

pub rule_hashfn-lt : (fs : Flowsig) (seed : ℕ) → rule_hashfn fs seed < 2 ^ 16
unfolding rule_hashfn
rule_hashfn-lt fs seed = omega arith
