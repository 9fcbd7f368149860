-- ===== src/Tests/Processors.antt =====
-- Tests of the spin locks, and their theorem applied to a run of two processors.
use ntfw.Common.{ℕ, Bool, true, ◌≡◌, ◌↔◌, arith, refl, update}
use ntfw.Locks.{Cpu, Locked, Reached, away, taking, pausing, holding, releasing}
use ntfw.Locks.{start, later, moves, spin_acquire, take, spin_release, test_bit, bit_test_and_set}
use ntfw.Locks.{clear_bit}
use ntfw.Locks.Exclusive.{Holds, Reached-exclusive}

abbrev idle : ℕ → Cpu
idle i = away

-- Digit 31 is taken and let go, and the rest stays.
taken : bit_test_and_set 31 5 ≡ (Bool.false, 0x80000005)
unfolding bit_test_and_set
taken = refl

let_go : clear_bit 31 0x80000005 ≡ 5
unfolding clear_bit
let_go = refl

abbrev at : ℕ → (ℕ → Cpu) → Locked
at word cpus = record { word = word; cpus = cpus }

-- Processor 0 takes the lock, processor 1 calls and meets it, and 0 begins to let it go.
abbrev calling : ℕ → Cpu
calling = update idle 0 taking

abbrev inside : ℕ → Cpu
inside = update calling 0 holding

abbrev both : ℕ → Cpu
both = update inside 1 taking

abbrev waiting : ℕ → Cpu
waiting = update both 1 pausing

abbrev leaving : ℕ → Cpu
leaving = update waiting 0 (releasing 1)

run : Reached 0 (at 1 leaving)
unfolding bit_test_and_set
run =
    let r0 : Reached 0 (at 0 idle) = start 0 (omega arith) refl in
    let r1 : Reached 0 (at 0 calling) = later _ _ r0 (moves 0 0 taking (spin_acquire 0)) in
    let r2 : Reached 0 (at 1 inside) = later _ _ r1 (moves 0 1 holding (take 0)) in
    let r3 : Reached 0 (at 1 both) = later _ _ r2 (moves 1 1 taking (spin_acquire 1)) in
    let r4 : Reached 0 (at 1 waiting) = later _ _ r3 (moves 1 1 pausing (take 1)) in
    later _ _ r4 (moves 0 1 (releasing 1) (spin_release 1))

Reached-exclusive_example :
    ((i j : ℕ) → Holds (leaving i) → Holds (leaving j) → i ≡ j)
    × ((test_bit 0 1 ≡ true) ↔ ((i : ℕ) × Holds (leaving i)))
    × ((i read : ℕ) → leaving i ≡ releasing read → read ≡ 1)
Reached-exclusive_example = Reached-exclusive 0 (at 1 leaving) (omega arith) run
