-- ===== src/Common/Bits/Step.antt =====
-- The native bit operations mean a recursion on binary digits with fuel. Here the fuel is
-- dropped: one equation for the lowest digit, and induction by halving.
use Prim.Native.Nat.{ℕ, zero, suc, ◌+◌, ◌-◌, ◌*◌, ◌/◌, ◌%◌, ◌≤◌, ◌<◌, min, max}
use Prim.Native.Nat.{bit_and, bit_or, bit_xor, digits, bitwise, differ}
use Prim.Native.Nat.{bit_and-bitwise, bit_or-bitwise, bit_xor-bitwise}
use mathlib.Core.Path.{◌≡◌, refl, ap, ◌∙◌}
use native.Mathlib.Nat.{le_refl}
use native.Mathlib.Omega.{arith}

-- A recursion on binary digits: `z` when the first number is used up, `f` on each pair of digits.
module _ (z : ℕ → ℕ) (f : ℕ → ℕ → ℕ) where
  -- Fuel beyond the first number makes no difference.
  digits_surplus : (k n a b : ℕ) → a ≤ n → digits z f (k + n) a b ≡ digits z f n a b
  digits_surplus zero n a b enough = ap (λ t. digits z f t a b) (omega arith)
  digits_surplus (suc k) n a b enough =
      ap (λ t. digits z f t a b) more
      ∙ one_more (k + n) a b (omega arith)
      ∙ digits_surplus k n a b enough
    where
      more : suc k + n ≡ suc (k + n)
      more = omega arith

      one_more : (m x y : ℕ) → x ≤ m → digits z f (suc m) x y ≡ digits z f m x y
      one_more zero zero y h = refl
      one_more zero (suc x) y h = absurd (omega arith)
      one_more (suc m) zero y h = refl
      one_more (suc m) (suc x) y h =
          ap (λ t. t * 2 + f (suc x % 2) (y % 2)) (one_more m (suc x / 2) (y / 2) (omega arith))

  lowest_digit :
      ((y : ℕ) → z y ≡ z (y / 2) * 2 + f 0 (y % 2))
      → (x y : ℕ) → bitwise z f x y ≡ bitwise z f (x / 2) (y / 2) * 2 + f (x % 2) (y % 2)
  lowest_digit at_end zero y = at_end y
  lowest_digit at_end (suc x) y =
      let half = suc x / 2 in
      ap (λ t. t * 2 + f (suc x % 2) (y % 2))
        (ap (λ n. digits z f n half (y / 2)) (omega arith)
          ∙ digits_surplus (x - half) half half (y / 2) (omega arith))

pub bit_and_step : (a b : ℕ) → bit_and a b ≡ bit_and (a / 2) (b / 2) * 2 + min (a % 2) (b % 2)
bit_and_step a b = simp bit_and-bitwise (lowest_digit (λ _. 0) min (λ y. omega arith) a b)

pub bit_or_step : (a b : ℕ) → bit_or a b ≡ bit_or (a / 2) (b / 2) * 2 + max (a % 2) (b % 2)
bit_or_step a b = simp bit_or-bitwise (lowest_digit (λ y. y) max (λ y. omega arith) a b)

differ-digits : (x y : ℕ) → x < 2 → y < 2 → differ x y ≡ (x + y) % 2
differ-digits zero y p q = omega arith
differ-digits (suc zero) zero p q = refl
differ-digits (suc zero) (suc zero) p q = refl
differ-digits (suc zero) (suc (suc y)) p q = absurd (omega arith)
differ-digits (suc (suc x)) y p q = absurd (omega arith)

differ_of_mod : (a b : ℕ) → differ (a % 2) (b % 2) ≡ (a + b) % 2
differ_of_mod a b = omega (arith, differ-digits (a % 2) (b % 2) (omega arith) (omega arith))

pub bit_xor_step : (a b : ℕ) → bit_xor a b ≡ bit_xor (a / 2) (b / 2) * 2 + (a + b) % 2
bit_xor_step a b = rw (← differ_of_mod a b) (
    simp bit_xor-bitwise
      (lowest_digit (λ y. y) differ (λ y. omega (arith, differ-digits 0 (y % 2))) a b))

-- What holds at 0, and at `a` when it holds at `a / 2`, holds everywhere.
halving_fuel {ℓ} : (P : ℕ → Type ℓ) → P 0 → ((a : ℕ) → P (a / 2) → P a) → (n a : ℕ) → a ≤ n → P a
halving_fuel P base half zero zero h = base
halving_fuel P base half zero (suc a) h = absurd (omega arith)
halving_fuel P base half (suc n) zero h = base
halving_fuel P base half (suc n) (suc a) h =
    half (suc a) (halving_fuel P base half n (suc a / 2) (omega arith))

pub halving_induction {ℓ} : (P : ℕ → Type ℓ) → P 0 → ((a : ℕ) → P (a / 2) → P a) → (a : ℕ) → P a
halving_induction P base half a = halving_fuel P base half a a (le_refl a)
