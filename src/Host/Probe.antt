-- ===== src/Host/Probe.antt =====
-- `probe_bucket`, by vector instructions, is a search of the keys from the left.
use ntfw.Common.{ℕ, zero, suc, ◌+◌, ◌*◌, ◌/◌, ◌≡◌, arith, refl, ap, sym, ◌==◌}
use ntfw.Common.{List, [], ◌∷◌, Option, none, some, length, if◌then◌else◌, ◌∙◌}
use ntfw.Common.{Bool-cases, inl, inr}
use native.Mathlib.Nat.{zero-add}
use ntfw.State.{Htbucket}
use ntfw.Host.{movemask_eq, tzcnt, probe_bucket}

abbrev pub shift_index : Option ℕ → Option ℕ
shift_index none = none
shift_index (some i) = some (suc i)

-- The index of the first item that equals `a`.
abbrev pub index_of : List ℕ → ℕ → Option ℕ
index_of [] a = none
index_of (x ∷ xs) a = if x == a then some 0 else shift_index (index_of xs a)

abbrev found : ℕ → ℕ → Option ℕ
found fuel m = if m == 0 then none else some (tzcnt fuel m / 4)

tzcnt_even : (n r : ℕ) → tzcnt (suc n) (2 * r) ≡ suc (tzcnt n r)
unfolding tzcnt
tzcnt_even n r = ground arith

tzcnt_sixteen : (n r : ℕ) → tzcnt (suc (suc (suc (suc n)))) (16 * r) ≡ 4 + tzcnt n r
tzcnt_sixteen n r =
    ap (tzcnt (suc (suc (suc (suc n))))) e
    ∙ tzcnt_even (suc (suc (suc n))) (2 * (2 * (2 * r)))
    ∙ ap suc (tzcnt_even (suc (suc n)) (2 * (2 * r)))
    ∙ ap (λ k. suc (suc k)) (tzcnt_even (suc n) (2 * r) ∙ ap suc (tzcnt_even n r))
    ∙ omega arith
  where
    e : 16 * r ≡ 2 * (2 * (2 * (2 * r)))
    e = omega arith

tzcnt_odd : (n r : ℕ) → tzcnt (suc n) (15 + 16 * r) ≡ 0
unfolding tzcnt
tzcnt_odd n r = ground arith

found_later : (n r : ℕ) → found (suc (suc (suc (suc n)))) (16 * r) ≡ shift_index (found n r)
found_later n r = ground (arith, tzcnt_sixteen n r)

found_here : (n r : ℕ) → found (suc n) (15 + 16 * r) ≡ some 0
found_here n r = ground (arith, tzcnt_odd n r)

abbrev four_times : ℕ → ℕ
four_times zero = zero
four_times (suc n) = suc (suc (suc (suc (four_times n))))

movemask_first :
    (xs : List ℕ) (a : ℕ) → found (four_times (length xs)) (movemask_eq xs a) ≡ index_of xs a
unfolding movemask_eq
movemask_first [] a = refl
movemask_first (x ∷ xs) a = elim (Bool-cases (x == a)) [
  | inl e ↦ rw (e, found_here (suc (suc (suc (four_times (length xs))))) (movemask_eq xs a)) refl
  | inr ne ↦
      rw (ne, zero-add)
        (found_later (four_times (length xs)) (movemask_eq xs a)
          ∙ ap shift_index (movemask_first xs a))
]

-- On a bucket of eight keys, `probe_bucket` returns the index of the first equal key, and a
-- negative index exactly when no key is equal.
pub probe_bucket_lem :
    (htb : Htbucket) (a : ℕ) → length htb.saddr ≡ 8 → probe_bucket htb a ≡ index_of htb.saddr a
unfolding probe_bucket
probe_bucket_lem htb a h =
    ap (λ n. found n (movemask_eq htb.saddr a)) (ap four_times (sym h)) ∙ movemask_first htb.saddr a
