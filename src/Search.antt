-- ===== src/Search.antt =====
-- ntfw/phash.cpp: the search of the configuration tool for a seed of the rule hash that keeps all
-- rules apart in as small a table as it can find, by worker threads that share a record.
pub mod Apart
pub mod Alone
pub mod Together
pub mod Stops
pub mod Bound
pub mod Cores
use ntfw.Common.{ℕ, zero, suc, Bool, true, false, not, ◌+◌, ◌*◌, ◌-◌, ◌^◌, ltb, leb, ◌==◌}
use ntfw.Common.{if◌then◌else◌, List, [], ◌∷◌, Option, none, some, bit_and, bit_or, bit_xor}
use ntfw.Common.{◌||◌, u16, u32, u64, ◌<<<◌, ◌>>>◌, sub32, update, length}
use ntfw.Flow.{ntfe_rule_hashfn}
use ntfw.Rules.{NtfeRule, hash_mask, max_rules}

-- `rotl` of a 64-bit word, for a count between 1 and 63
abbrev pub rotl : ℕ → ℕ → ℕ
rotl x k = bit_or (u64 (x <<< k)) (x >>> (64 - k))

-- The number drawn, and the state after it.
unfoldable pub splitmix64 : ℕ → ℕ × ℕ
splitmix64 x =
    let z0 = u64 (x + 0x9E3779B97F4A7C15) in
    let z1 = u64 (bit_xor z0 (z0 >>> 30) * 0xBF58476D1CE4E5B9) in
    let z2 = u64 (bit_xor z1 (z1 >>> 27) * 0x94D049BB133111EB) in (bit_xor z2 (z2 >>> 31), z0)

unfoldable pub xoro_seed : ℕ → ℕ × ℕ
xoro_seed seed = let (s0, seed') = splitmix64 seed in let (s1, _) = splitmix64 seed' in (s0, s1)

-- The number drawn, and the state after it.
unfoldable pub xoro_rand : ℕ × ℕ → ℕ × (ℕ × ℕ)
xoro_rand (s0, s1) =
    let x = bit_xor s1 s0 in
    (u64 (s0 + s1), (bit_xor (bit_xor (rotl s0 55) x) (u64 (x <<< 14)), rotl x 36))

-- `_bsr`: the number of the highest digit that is set, at most `k`.
unfoldable pub bsr_below : ℕ → ℕ → ℕ
bsr_below zero x = 0
bsr_below (suc k) x = let below = bsr_below k x in if leb (2 ^ suc k) x then suc k else below

abbrev pub bsr : ℕ → ℕ
bsr x = bsr_below 31 x

-- The loop over the rules: `table` has a one where a rule has been seen. It is a function here,
-- so that a place outside the 128 bytes of the code is a place like the others.
unfoldable pub keeps_apart : ℕ → ℕ → (ℕ → ℕ) → List NtfeRule → Bool
keeps_apart seed bits table [] = true
keeps_apart seed bits table (rl ∷ rest) =
    let h = u16 (bit_and (ntfe_rule_hashfn seed rl.ether rl.dport rl.proto) (hash_mask bits)) in
    let more = keeps_apart seed bits (update table h 1) rest in
    if not (table h == 0) then false else more

-- What `memzero` leaves.
abbrev pub no_place : ℕ → ℕ
no_place i = 0

-- `record_bits`, `record_seed` and `cfg.quit_signal`
pub record Shared : Type 0 where
  pub record_bits : ℕ
  pub record_seed : ℕ
  pub quit_signal : Bool

-- The place of a worker in `ThreadEntry`, between two accesses to what is shared: with the state
-- of its generator, and the seed and the bits that it tries.
pub data Worker : Type 0 where
  checking : ℕ × ℕ → Worker
  comparing : ℕ × ℕ → Worker
  drawing : ℕ × ℕ → Worker
  trying : ℕ × ℕ → ℕ → ℕ → Worker
  storing : ℕ × ℕ → ℕ → ℕ → Worker
  finished : Worker

-- What is shared, and the workers by their numbers.
pub record Search : Type 0 where
  pub shared : Shared
  pub workers : ℕ → Worker

-- A worker goes on, or the wait in `FindRuleMagic` ends and it signals the others to stop.
pub data Event : Type 0 where
  works : ℕ → Event
  stop : Event

-- `cfg.target_bits`
abbrev pub target_bits : List NtfeRule → ℕ
target_bits rules = bsr (length rules) + 1

-- The workers that run, one for each thread: they have not begun, or have not been created.
unfoldable pub new_workers : List ℕ → ℕ → Worker
new_workers [] i = finished
new_workers (id ∷ ids) zero = checking (xoro_seed id)
new_workers (id ∷ ids) (suc i) = new_workers ids i

-- The loop of `GetProcessorCount` over the sizes of the records at `pi`, with the bytes left.
unfoldable pub count_records : ℕ → List ℕ → ℕ → ℕ
count_records result [] count = count
count_records result (size ∷ rest) count =
    let more = count_records (result - size) rest (count + 1) in
    if result == 0 || leb result size then count else more

-- `GetProcessorCount`, by whether the first call reports a size and by what the second call
-- fills in: the number of bytes and the sizes of the records.
unfoldable pub get_processor_count : Bool → Option (ℕ × List ℕ) → ℕ
get_processor_count false filled = 1
get_processor_count true none = 1
get_processor_count true (some (result, sizes)) = count_records result sizes 1

-- How `FindRuleMagic` starts, with the identifiers of the threads that it creates.
unfoldable pub new_search : List ℕ → Search
new_search ids = record {
  shared = record { record_bits = bsr max_rules + 1; record_seed = 0; quit_signal = false };
  workers = new_workers ids;
}

module _ (rules : List NtfeRule) where
  -- One worker up to its next access: the first two read the condition of the loop, the third
  -- reads `record_bits`, the fourth is the exchange, if the rules are apart.
  unfoldable pub worker_step : Shared → Worker → Shared × Worker
  worker_step m (checking st) = (m, if m.quit_signal then finished else comparing st)
  worker_step m (comparing st) =
      (m, if ltb (target_bits rules) m.record_bits then drawing st else finished)
  worker_step m (drawing st) =
      let (drawn, st') = xoro_rand st in (m, trying st' (u32 drawn) (sub32 m.record_bits 1))
  worker_step m (trying st seed bits) =
      if not (keeps_apart seed bits no_place rules)
      then (m, checking st)
      else if m.record_bits == u32 (bits + 1)
      then (record m { record_bits = bits }, storing st seed bits)
      else (m, checking st)
  worker_step m (storing st seed bits) = (record m { record_seed = seed }, checking st)
  worker_step m finished = (m, finished)

  unfoldable pub search_step : Event → Search → Search
  search_step (works i) s =
      let (m, w) = worker_step s.shared (s.workers i) in
      record { shared = m; workers = update s.workers i w }
  search_step stop s = record s { shared = record s.shared { quit_signal = true } }

  -- An interleaving of the workers.
  unfoldable pub search_run : List Event → Search → Search
  search_run [] s = s
  search_run (e ∷ rest) s = search_run rest (search_step e s)

-- The seed and the bits that `FindRuleMagic` returns when all workers have finished.
unfoldable pub find_result : Search → Option (ℕ × ℕ)
find_result s =
    let m = s.shared in
    if ltb (bsr max_rules) m.record_bits then none else some (m.record_seed, m.record_bits)

-- `FindRuleMagic`, by the identifiers of its threads and the interleaving of their steps.
unfoldable pub find_rule_magic : List NtfeRule → List ℕ → List Event → Option (ℕ × ℕ)
find_rule_magic rules ids events = find_result (search_run rules events (new_search ids))
