-- ===== src/Host/Keys.antt =====
-- The keys of a bucket: searches after a write, and buckets that are filled from the left.
use ntfw.Common.{ℕ, zero, suc, ◌≡◌, ◌≢◌, ◌<◌, ◌≤◌, arith, refl}
use ntfw.Common.{List, [], ◌∷◌, none, some, length, get_or, set}
use ntfw.Host.Probe.{index_of}

index_of_tail :
    (x : ℕ) (xs : List ℕ) (a i : ℕ) → index_of (x ∷ xs) a ≡ some (suc i) → index_of xs a ≡ some i
index_of_tail x xs a i h = ground arith

index_of_tail_none :
    (x : ℕ) (xs : List ℕ) (a : ℕ) → index_of (x ∷ xs) a ≡ none → (x ≢ a) × (index_of xs a ≡ none)
index_of_tail_none x xs a h = ground arith

-- A search that succeeds returns an index of the key.
pub index_of-some :
    (xs : List ℕ) (a i : ℕ) → index_of xs a ≡ some i → (i < length xs) × (get_or xs i 0 ≡ a)
index_of-some [] a i h = cc
index_of-some (x ∷ xs) a zero h = ground arith
index_of-some (x ∷ xs) a (suc i) h =
    let ih = index_of-some xs a i (index_of_tail x xs a i h) in (omega (arith, ih.0), ih.1)

-- A search that fails: the key is nowhere.
pub index_of-none :
    (xs : List ℕ) (a i : ℕ) → index_of xs a ≡ none → i < length xs → get_or xs i 0 ≢ a
index_of-none [] a i h p = absurd (omega arith)
index_of-none (x ∷ xs) a zero h p = (index_of_tail_none x xs a h).0
index_of-none (x ∷ xs) a (suc i) h p =
    index_of-none xs a i (index_of_tail_none x xs a h).1 (omega arith)

-- A key that was nowhere is found where it is written.
pub index_of-set_self :
    (xs : List ℕ) (a i : ℕ)
    → index_of xs a ≡ none
    → i < length xs
    → index_of (set xs i a) a ≡ some i
index_of-set_self [] a i h p = absurd (omega arith)
index_of-set_self (x ∷ xs) a zero h p = ground arith
index_of-set_self (x ∷ xs) a (suc i) h p =
    ground (arith, index_of_tail_none x xs a h, index_of-set_self xs a i)

-- A write of another key over another key changes no search.
pub index_of-set_ne :
    (xs : List ℕ) (a i b : ℕ) → a ≢ b → get_or xs i 0 ≢ b → index_of (set xs i a) b ≡ index_of xs b
index_of-set_ne [] a i b h p = refl
index_of-set_ne (x ∷ xs) a zero b h p = ground arith
index_of-set_ne (x ∷ xs) a (suc i) b h p = ground (arith, index_of-set_ne xs a i b h p)

-- The first `n` keys are in use, and the others are free.
abbrev pub IsPacked : List ℕ → ℕ → Type 0
IsPacked [] n = n ≡ 0
IsPacked (x ∷ xs) zero = (x ≡ 0) × IsPacked xs 0
IsPacked (x ∷ xs) (suc n) = (x ≢ 0) × IsPacked xs n

pub packed-le : (xs : List ℕ) (n : ℕ) → IsPacked xs n → n ≤ length xs
packed-le [] n h = omega arith
packed-le (x ∷ xs) zero h = omega arith
packed-le (x ∷ xs) (suc n) h = omega (arith, packed-le xs n h.1)

pub packed_first_free :
    (xs : List ℕ) (n : ℕ) → IsPacked xs n → n < length xs → index_of xs 0 ≡ some n
packed_first_free [] n h p = absurd (omega arith)
packed_first_free (x ∷ xs) zero h p = ground arith
packed_first_free (x ∷ xs) (suc n) h p = ground (arith, packed_first_free xs n)

pub IsPacked-push :
    (xs : List ℕ) (n a : ℕ) → IsPacked xs n → n < length xs → a ≢ 0 → IsPacked (set xs n a) (suc n)
IsPacked-push [] n a h p ne = absurd (omega arith)
IsPacked-push (x ∷ xs) zero a h p ne = (ne, h.1)
IsPacked-push (x ∷ xs) (suc n) a h p ne = (h.0, IsPacked-push xs n a h.1 (omega arith) ne)

pub IsPacked-replace :
    (xs : List ℕ) (n i a : ℕ) → IsPacked xs n → i < n → a ≢ 0 → IsPacked (set xs i a) n
IsPacked-replace [] n i a h p ne = h
IsPacked-replace (x ∷ xs) zero i a h p ne = absurd (omega arith)
IsPacked-replace (x ∷ xs) (suc n) zero a h p ne = (ne, h.1)
IsPacked-replace (x ∷ xs) (suc n) (suc i) a h p ne =
    (h.0, IsPacked-replace xs n i a h.1 (omega arith) ne)
