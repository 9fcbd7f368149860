-- ===== src/Locks.antt =====
-- ntfe/helper.cpp: the spin locks, one digit of a word that processors share. A processor takes
-- the lock by an interlocked instruction, and lets it go by a read and a write of the word.
pub mod Digits
pub mod Exclusive
pub mod Whole
use ntfw.Common.{ℕ, Bool, true, false, ◌%◌, ◌^◌, ◌<◌, ◌≡◌, ◌==◌, bit_and, bit_or, not32}
use ntfw.Common.{if◌then◌else◌, update, ◌<<<◌, ◌>>>◌}

-- `*lock & (1 << bit)`
abbrev pub test_bit : ℕ → ℕ → Bool
test_bit bit word = (word >>> bit) % 2 == 1

-- `_interlockedbittestandset`: the digit that was there, and the word that is left.
unfoldable pub bit_test_and_set : ℕ → ℕ → Bool × ℕ
bit_test_and_set bit word = (test_bit bit word, bit_or word (1 <<< bit))

-- `word & ~(1 << bit)`
unfoldable pub clear_bit : ℕ → ℕ → ℕ
clear_bit bit word = bit_and word (not32 (1 <<< bit))

-- The place of a processor: out of the calls, before the interlocked instruction, in the inner
-- loop, with the lock, or in `spin_release` after it has read the word.
pub data Cpu : Type 0 where
  away : Cpu
  taking : Cpu
  pausing : Cpu
  holding : Cpu
  releasing : ℕ → Cpu

-- A processor up to its next access, from a word and a place to a word and a place. Who holds the
-- lock writes what else stands in the word.
pub data Move (bit : ℕ) : ℕ → Cpu → ℕ → Cpu → Type 0 where
  spin_acquire : (word : ℕ) → Move bit word away word taking
  spin_acquire_dbg : (word : ℕ) → Move bit word away word pausing
  take :
      (word : ℕ)
      → Move bit word taking
          (bit_test_and_set bit word).1
          (if (bit_test_and_set bit word).0 then pausing else holding)
  pause : (word : ℕ) → Move bit word pausing word (if test_bit bit word then pausing else taking)
  write :
      (word word' : ℕ)
      → word' < 2 ^ 32
      → test_bit bit word' ≡ true
      → Move bit word holding word' holding
  spin_release : (word : ℕ) → Move bit word holding word (releasing word)
  clear : (word read : ℕ) → Move bit word (releasing read) (clear_bit bit read) away

pub record Locked : Type 0 where
  pub word : ℕ
  pub cpus : ℕ → Cpu

-- One of the processors moves.
pub data LockStep (bit : ℕ) (s : Locked) : Locked → Type 0 where
  moves :
      (i word' : ℕ) (c' : Cpu)
      → Move bit s.word (s.cpus i) word' c'
      → LockStep bit s (record { word = word'; cpus = update s.cpus i c' })

-- What is reached from a word in which the lock is free.
pub data Reached (bit : ℕ) : Locked → Type 0 where
  start :
      (word : ℕ)
      → word < 2 ^ 32
      → test_bit bit word ≡ false
      → Reached bit (record { word = word; cpus = λ _. away })
  later : (s s' : Locked) → Reached bit s → LockStep bit s s' → Reached bit s'
