-- ===== src/Search/Cores.antt =====
-- `GetProcessorCount` of ntfw/phash.cpp, on a buffer of records one after the other.
use ntfw.Common.{ℕ, true, ◌+◌, ◌-◌, ◌==◌, leb, ◌||◌, ◌≤◌, ◌≡◌, false, arith}
use ntfw.Common.{List, [], ◌∷◌, some, length}
use ntfw.Search.{count_records, get_processor_count}

-- Every record has a size.
Sized : List ℕ → Type 0
Sized [] = Unit
Sized (size ∷ rest) = (1 ≤ size) × Sized rest

total : List ℕ → ℕ
total [] = 0
total (size ∷ rest) = size + total rest

-- The test of the loop, at the last record and before it.
ends_last : (size : ℕ) → ((size + 0 == 0) || leb (size + 0) size) ≡ true
ends_last size = ground arith

goes_on :
    (size next more : ℕ)
    → 1 ≤ next
    → ((size + (next + more) == 0) || leb (size + (next + more)) size) ≡ false
goes_on size next more left = ground arith

left_over : (size more : ℕ) → size + more - size ≡ more
left_over size more = omega arith

-- The loop stops at the last record, which is in the count that it starts with.
count_records_lem :
    (size : ℕ) (rest : List ℕ) (count : ℕ)
    → Sized (size ∷ rest)
    → count_records (total (size ∷ rest)) (size ∷ rest) count ≡ count + length rest
unfolding count_records total Sized
count_records_lem size [] count sized = rw (count_records, ends_last size) omega arith
count_records_lem size (next ∷ rest) count (has, more) =
    rw
      (
        count_records,
        goes_on size next (total rest) (more.0),
        left_over size (next + total rest),
        count_records_lem next rest (count + 1) more,
      )
      omega arith

-- On a buffer of one record or more, each with a size, the number of records is returned.
get_processor_count_lem :
    (size : ℕ) (rest : List ℕ)
    → Sized (size ∷ rest)
    → get_processor_count true (some (total (size ∷ rest), size ∷ rest)) ≡ 1 + length rest
unfolding get_processor_count
get_processor_count_lem size rest sized = count_records_lem size rest 1 sized
