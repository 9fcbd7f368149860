-- ===== src/Common/Bits.antt =====
-- Laws of `&`, `|` and `^` at every width, from the equation for the lowest digit.
mod Step
mod Digit
pub use Digit.{or_digit_set, or_digit_clear, or_digit, and_digit, bit_or-div}
pub use Step.{bit_or_step, bit_and_step, bit_xor_step}
use Step.{halving_induction}
use Prim.Native.Nat.{ℕ, zero, suc, ◌+◌, ◌-◌, ◌*◌, ◌/◌, ◌%◌, ◌^◌, ◌≤◌, ◌<◌}
use Prim.Native.Nat.{bit_and, bit_or, bit_xor}
use mathlib.Core.Path.{◌≡◌, refl, sym, ap, ◌∙◌}
use native.Mathlib.Nat.{pow-suc, one-le-pow, div-div-eq-div-mul}
use native.Mathlib.Omega.{arith}

pub bit_or-zero : (a : ℕ) → bit_or a 0 ≡ a
bit_or-zero =
    halving_induction (λ a. bit_or a 0 ≡ a) refl λ a ih. omega (arith, bit_or_step a 0, ih)

pub bit_and-zero : (a : ℕ) → bit_and a 0 ≡ 0
bit_and-zero =
    halving_induction (λ a. bit_and a 0 ≡ 0) refl λ a ih. omega (arith, bit_and_step a 0, ih)

pub bit_xor-zero : (a : ℕ) → bit_xor a 0 ≡ a
bit_xor-zero =
    halving_induction (λ a. bit_xor a 0 ≡ a) refl λ a ih. omega (arith, bit_xor_step a 0, ih)

pub zero-bit_or : (a : ℕ) → bit_or 0 a ≡ a
zero-bit_or =
    halving_induction (λ a. bit_or 0 a ≡ a) refl λ a ih. omega (arith, bit_or_step 0 a, ih)

-- One more binary place.
double_place : (k high : ℕ) → 2 * (high * 2 ^ k) ≡ high * 2 ^ suc k
double_place k high = omega (arith, ap (λ (t : ℕ). high * t) (pow-suc 2 k))

-- `low | (high << k)` is a sum when `low` fits `k` bits.
pub bit_or_fields : (k high low : ℕ) → low < 2 ^ k → bit_or low (high * 2 ^ k) ≡ high * 2 ^ k + low
bit_or_fields zero high low fits = ground (arith, zero-bit_or high)
bit_or_fields (suc k) high low fits =
    let half : low / 2 < 2 ^ k = omega (arith, pow-suc 2 k) in
    let ih = bit_or_fields k high (low / 2) half in
    ground (arith, ih, double_place k high, bit_or_step low (high * 2 ^ suc k), pow-suc 2 k)

-- The low field is what a mask of its width leaves.
low_field : (k high low : ℕ) → low < 2 ^ k → bit_and (high * 2 ^ k + low) (2 ^ k - 1) ≡ low
low_field zero high low fits =
    ground (arith, bit_and-zero (high * 1 + low), bit_and-zero (high + low))
low_field (suc k) high low fits =
    let half : low / 2 < 2 ^ k = omega (arith, pow-suc 2 k) in
    let ih = low_field k high (low / 2) half in
    let digit = bit_and_step (high * 2 ^ suc k + low) (2 ^ suc k - 1) in
    ground (arith, ih, digit, one-le-pow k 2, double_place k high, pow-suc 2 k)

-- A mask of `k` low bits is the remainder by `2 ^ k`.
pub bit_and_mask : (k a : ℕ) → bit_and a (2 ^ k - 1) ≡ a % 2 ^ k
bit_and_mask k a =
    let split = low_field k (a / 2 ^ k) (a % 2 ^ k) in ground (arith, split, one-le-pow k 2)

-- All ones absorb a word.
pub bit_or_ones : (k a : ℕ) → a < 2 ^ k → bit_or a (2 ^ k - 1) ≡ 2 ^ k - 1
bit_or_ones zero a fits = ground (arith, bit_or-zero a)
bit_or_ones (suc k) a fits = ground (
  arith,
  bit_or_step a (2 ^ suc k - 1),
  pow-suc 2 k,
  one-le-pow k 2,
  bit_or_ones k (a / 2) (omega (arith, pow-suc 2 k)),
)

and_even : (a b : ℕ) → bit_and a (2 * b) ≡ bit_and (a / 2) b * 2
and_even a b = ground (arith, bit_and_step a (2 * b))

-- A mask that starts at bit `k` takes the digits from there on.
pub bit_and_high : (k a m : ℕ) → bit_and a (m * 2 ^ k) ≡ bit_and (a / 2 ^ k) m * 2 ^ k
bit_and_high zero a m = ground arith
bit_and_high (suc k) a m =
    ap (bit_and a) (sym (double_place k m))
    ∙ and_even a (m * 2 ^ k)
    ∙ ap (λ t. t * 2) (bit_and_high k (a / 2) m)
    ∙ rw (div-div-eq-div-mul a 2 (2 ^ k), ← pow_two k)
        (omega (arith, double_place k (bit_and (a / 2 ^ suc k) m)))
  where
    pow_two : (n : ℕ) → 2 ^ suc n ≡ 2 * 2 ^ n
    pow_two n = omega (arith, pow-suc 2 n)
