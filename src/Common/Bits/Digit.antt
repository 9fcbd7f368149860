-- ===== src/Common/Bits/Digit.antt =====
-- One binary digit of a word: its place, and setting and clearing it.
use Prim.Native.Nat.{ℕ, zero, suc, ◌+◌, ◌-◌, ◌*◌, ◌/◌, ◌%◌, ◌^◌, ◌<◌, bit_and, bit_or}
use mathlib.Core.Path.{◌≡◌, refl, sym, ap, ap₂, ◌∙◌}
use native.Mathlib.Nat.{pow-suc, one-le-pow, pow-le-pow_right, div-div-eq-div-mul}
use native.Mathlib.Omega.{arith}
use ntfw.Common.Bits.Step.{bit_or_step, bit_and_step, halving_induction}

bit_or-none : (a : ℕ) → bit_or a 0 ≡ a
bit_or-none =
    halving_induction (λ a. bit_or a 0 ≡ a) refl λ a half. omega (arith, bit_or_step a 0, half)

halves : (w b : ℕ) → w / 2 ^ suc b ≡ w / 2 / 2 ^ b
halves w b = rw (pow_two b) (sym (div-div-eq-div-mul w 2 (2 ^ b)))
  where
    pow_two : (n : ℕ) → 2 ^ suc n ≡ 2 * 2 ^ n
    pow_two n = omega (arith, pow-suc 2 n)

half_pow : (b : ℕ) → 2 ^ suc b / 2 ≡ 2 ^ b
half_pow b = omega (arith, pow-suc 2 b)

-- Setting a digit that is set changes nothing.
pub or_digit_set : (b w : ℕ) → w / 2 ^ b % 2 ≡ 1 → bit_or w (2 ^ b) ≡ w
or_digit_set zero w e = omega (arith, bit_or_step w 1, bit_or-none (w / 2))
or_digit_set (suc b) w e =
    let ih = or_digit_set b (w / 2) (sym (ap (λ t. t % 2) (halves w b)) ∙ e) in
    omega (arith, bit_or_step w (2 ^ suc b), ap (bit_or (w / 2)) (half_pow b), ih, pow-suc 2 b)

-- Setting a digit that is not set adds its weight.
pub or_digit_clear : (b w : ℕ) → w / 2 ^ b % 2 ≡ 0 → bit_or w (2 ^ b) ≡ w + 2 ^ b
or_digit_clear zero w e = omega (arith, bit_or_step w 1, bit_or-none (w / 2))
or_digit_clear (suc b) w e =
    let ih = or_digit_clear b (w / 2) (sym (ap (λ t. t % 2) (halves w b)) ∙ e) in
    omega (arith, bit_or_step w (2 ^ suc b), ap (bit_or (w / 2)) (half_pow b), ih, pow-suc 2 b)

-- The digits from a place on.
pub bit_or-div : (k a b : ℕ) → bit_or a b / 2 ^ k ≡ bit_or (a / 2 ^ k) (b / 2 ^ k)
bit_or-div zero a b =
    let one : (x : ℕ) → x / 2 ^ 0 ≡ x = λ x. omega arith in
    one (bit_or a b) ∙ ap₂ bit_or (sym (one a)) (sym (one b))
bit_or-div (suc k) a b =
    let half : bit_or a b / 2 ≡ bit_or (a / 2) (b / 2) = omega (arith, bit_or_step a b) in
    halves (bit_or a b) k
    ∙ ap (λ t. t / 2 ^ k) half
    ∙ bit_or-div k (a / 2) (b / 2)
    ∙ ap₂ bit_or (sym (halves a k)) (sym (halves b k))

pub or_digit : (b w : ℕ) → bit_or w (2 ^ b) / 2 ^ b % 2 ≡ 1
or_digit zero w = omega (arith, bit_or_step w 1)
or_digit (suc b) w =
    ap (λ t. t % 2) (halves (bit_or w (2 ^ suc b)) b)
    ∙ ap (λ t. t / 2 ^ b % 2) half
    ∙ or_digit b (w / 2)
  where
    half : bit_or w (2 ^ suc b) / 2 ≡ bit_or (w / 2) (2 ^ b)
    half = omega (arith, bit_or_step w (2 ^ suc b), ap (bit_or (w / 2)) (half_pow b), pow-suc 2 b)

-- A mask without a digit clears it.
pub and_digit : (k b w : ℕ) → b < k → bit_and w (2 ^ k - 1 - 2 ^ b) / 2 ^ b % 2 ≡ 0
and_digit zero b w h = absurd (omega arith)
and_digit (suc k) zero w h =
    omega (arith, bit_and_step w (2 ^ suc k - 1 - 1), pow-suc 2 k, one-le-pow k 2)
and_digit (suc k) (suc b) w h =
    ap (λ t. t % 2) (halves (bit_and w (2 ^ suc k - 1 - 2 ^ suc b)) b)
    ∙ ap (λ t. t / 2 ^ b % 2) half
    ∙ and_digit k b (w / 2) (omega arith)
  where
    mask : (2 ^ suc k - 1 - 2 ^ suc b) / 2 ≡ 2 ^ k - 1 - 2 ^ b
    mask =
        omega (
          arith,
          pow-suc 2 k,
          pow-suc 2 b,
          one-le-pow k 2,
          pow-le-pow_right {n = 2} (omega arith) h,
        )

    half : bit_and w (2 ^ suc k - 1 - 2 ^ suc b) / 2 ≡ bit_and (w / 2) (2 ^ k - 1 - 2 ^ b)
    half = omega (arith, bit_and_step w (2 ^ suc k - 1 - 2 ^ suc b), ap (bit_and (w / 2)) mask)
