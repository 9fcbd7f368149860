-- ===== src/Locks/Digits.antt =====
-- What the instructions do to the word, digit by digit.
use ntfw.Common.{ℕ, true, false, ◌^◌, ◌<◌, ◌≡◌, arith}
use ntfw.Common.{◌<<<◌}
use ntfw.Common.Bits.{or_digit_set, or_digit, and_digit}
use ntfw.Locks.{test_bit, bit_test_and_set, clear_bit}

one_shl : (b : ℕ) → 1 <<< b ≡ 2 ^ b
one_shl b = omega arith

-- What the interlocked instruction leaves: the lock is set, and a word in which it was set is as
-- it was.
pub bit_test_and_set-set : (bit word : ℕ) → test_bit bit (bit_test_and_set bit word).1 ≡ true
unfolding bit_test_and_set
bit_test_and_set-set bit word = rw (one_shl bit) (ground (arith, or_digit bit word))

pub bit_test_and_set-same :
    (bit word : ℕ) → test_bit bit word ≡ true → (bit_test_and_set bit word).1 ≡ word
unfolding bit_test_and_set
bit_test_and_set-same bit word e = rw (one_shl bit) (or_digit_set bit word (ground arith))

pub test_bit-clear_bit : (bit word : ℕ) → bit < 32 → test_bit bit (clear_bit bit word) ≡ false
unfolding clear_bit
test_bit-clear_bit bit word h =
    rw (clear_bit, one_shl bit) (ground (arith, and_digit 32 bit word h))
