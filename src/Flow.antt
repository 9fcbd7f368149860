-- ===== src/Flow.antt =====
-- ntfe/ntfeusr.h and ntfe/ntfeusr.cpp: flow signatures, the encoding of ethertypes, and the hash
-- function of the rule table. Fields that the source types `be16` hold what a little-endian
-- machine reads.
pub mod Encoding
use ntfw.Common.{ℕ, ◌+◌, ◌-◌, ◌*◌, ◌^◌, bit_and, bit_or, bit_xor, u8, u16, u32, sub32}
use ntfw.Common.{◌<<<◌, ◌>>>◌, bswap16}

-- `union ntfe_flowsig`, seen by its fields.
pub record Flowsig : Type 0 where
  pub ether : ℕ
  pub proto : ℕ
  pub dport : ℕ

-- The same union seen as `data`: the fields in memory order, on a little-endian machine.
unfoldable pub sig_data : Flowsig → ℕ
sig_data fs = fs.ether + fs.proto * 2 ^ 8 + fs.dport * 2 ^ 16

unfoldable pub sig_of_data : ℕ → Flowsig
sig_of_data w = record { ether = u8 w; proto = u8 (w >>> 8); dport = u16 (w >>> 16) }

-- `fs.data &= mask`
unfoldable pub mask_sig : Flowsig → ℕ → Flowsig
unfolding sig_data sig_of_data
mask_sig fs mask = sig_of_data (bit_and (sig_data fs) mask)

-- `ETHER_LE16_TO_FS` and `ETHER_BE16_TO_FS`
unfoldable pub ether_le16_to_fs : ℕ → ℕ
ether_le16_to_fs ethertype = u8 (bit_or (bswap16 ethertype >>> 7) 0x80)

unfoldable pub ether_be16_to_fs : ℕ → ℕ
ether_be16_to_fs ethertype = u8 (bit_or (u16 ethertype >>> 7) 0x80)

-- `_rotl`
abbrev pub rotl32 : ℕ → ℕ → ℕ
rotl32 x k = bit_or (u32 (x <<< k)) (x >>> (32 - k))

unfoldable pub rule_hashfn : Flowsig → ℕ → ℕ
unfolding sig_data
rule_hashfn fs seed =
    let r = sub32 (u32 (seed + 0x165667B5)) (u32 (sig_data fs * 0x3D4D51C3)) in
    let a = u32 (rotl32 r 17 * 0x27D4EB2F) in
    let b = u32 (bit_xor a (a >>> 15) * 0x85EBCA77) in
    let c = u32 (bit_xor b (b >>> 13) * 0xC2B2AE3D) in u16 (bit_xor c (c >>> 16))

unfoldable pub ntfe_rule_hashfn : ℕ → ℕ → ℕ → ℕ → ℕ
ntfe_rule_hashfn seed ethertype port proto = rule_hashfn fs seed
  where
    fs : Flowsig
    fs = record { ether = ether_le16_to_fs ethertype; proto = proto; dport = bswap16 port }
