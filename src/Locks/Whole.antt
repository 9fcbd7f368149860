-- ===== src/Locks/Whole.antt =====
-- ntfe/helper.cpp: `spin_acquire2`, a lock that is a whole word. No code calls it, and none lets
-- such a lock go: whoever has it is taken to write a zero.
pub mod Alone
use ntfw.Common.{ℕ, ◌==◌, if◌then◌else◌, update}

-- The place of a processor: out of the call, before the exchange, in the inner loop, or with the
-- lock.
pub data Caller : Type 0 where
  outside : Caller
  exchanging : Caller
  spinning : Caller
  owning : Caller

-- A processor up to its next access.
pub data Access : ℕ → Caller → ℕ → Caller → Type 0 where
  spin_acquire2 : (word : ℕ) → Access word outside word exchanging
  exchange : (word : ℕ) → Access word exchanging 1 (if word == 0 then owning else spinning)
  look : (word : ℕ) → Access word spinning word (if word == 0 then exchanging else spinning)
  let_go : (word : ℕ) → Access word owning 0 outside

pub record WordLock : Type 0 where
  pub word : ℕ
  pub callers : ℕ → Caller

-- What is reached from a free lock, one access after the other.
pub data Reached2 : WordLock → Type 0 where
  start : Reached2 (record { word = 0; callers = λ _. outside })
  later :
      {s : WordLock} (i word' : ℕ) (c' : Caller)
      → Reached2 s
      → Access s.word (s.callers i) word' c'
      → Reached2 (record { word = word'; callers = update s.callers i c' })
