-- ===== src/Host/Evict.antt =====
-- The eviction policy of `allocate`: the lowest priority class first, and in it the oldest.
use ntfw.Common.{ℕ, zero, suc, ◌+◌, ◌-◌, ◌*◌, ◌/◌, ◌%◌, ◌^◌, ◌≡◌, ◌<◌, ◌≤◌, arith, refl, ap}
use ntfw.Common.{List, [], ◌∷◌, Option, none, some, length, get_or, ◌∙◌, ltb}
use ntfw.Common.{Bool-cases, ltb→lt, inl, inr, All, bit_and, sub32, not32}
use ntfw.Common.Bits.{bit_and_mask, bit_and_high, bit_or_fields}
use ntfw.State.{HostCtrl, ctrl_v, zero_ctrl}
use ntfw.Host.{evict_dist, evict_scan}

-- The bit fields of a control block fit their widths.
pub record IsCtrl (c : HostCtrl) : Type 0 where
  pub age_fits : c.age < 2 ^ 11
  pub pri_fits : c.pri < 2 ^ 2
  pub ptr_fits : c.ptr < 2 ^ 18

-- The age of an entry at `tsec`, both being counted in units of 1024 ms modulo 2048.
abbrev pub elapsed : ℕ → HostCtrl → ℕ
elapsed tsec c = (tsec + 2 ^ 11 - c.age) % 2 ^ 11

age_part :
    (c : HostCtrl) (tsec : ℕ)
    → IsCtrl c
    → tsec < 2 ^ 11
    → bit_and (not32 (sub32 tsec c.age)) 0x7ff ≡ 2047 - elapsed tsec c
age_part c tsec v h = omega (arith, bit_and_mask 11 (not32 (sub32 tsec c.age)))

pri_part : (c : HostCtrl) → IsCtrl c → bit_and (ctrl_v c) 0x1800 ≡ c.pri * 2 ^ 11
pri_part c v = omega (arith, bit_and_high 11 (ctrl_v c) 3, bit_and_mask 2 (ctrl_v c / 2 ^ 11))

-- The rank of an entry: its priority class above all, and then how young it is.
pub evict_dist_lem :
    (c : HostCtrl) (tsec : ℕ)
    → IsCtrl c
    → tsec < 2 ^ 11
    → evict_dist c tsec ≡ c.pri * 2 ^ 11 + (2047 - elapsed tsec c)
unfolding evict_dist
evict_dist_lem c tsec v h =
    rw (age_part c tsec v h, pri_part c v)
      (omega (arith, bit_or_fields 11 c.pri (2047 - elapsed tsec c)))

abbrev dist_at : List HostCtrl → ℕ → ℕ → ℕ
dist_at cs tsec j = evict_dist (get_or cs j zero_ctrl) tsec

-- `k` is the first index of the least rank.
record IsFirstLeast (cs : List HostCtrl) (tsec k : ℕ) : Type 0 where
  inside : k < length cs
  least : (j : ℕ) → j < length cs → dist_at cs tsec k ≤ dist_at cs tsec j
  first : (j : ℕ) → j < k → dist_at cs tsec k < dist_at cs tsec j

-- What the loop leaves in `idx`: what was there if no rank is below `top`, else the first index
-- of the least rank.
data Scanned (cs : List HostCtrl) (tsec i top : ℕ) (idx r : Option ℕ) : Type 0 where
  kept : ((j : ℕ) → j < length cs → top ≤ dist_at cs tsec j) → r ≡ idx → Scanned cs tsec i top idx r
  moved :
      (k : ℕ)
      → IsFirstLeast cs tsec k
      → dist_at cs tsec k < top
      → r ≡ some (i + k)
      → Scanned cs tsec i top idx r

-- A property of every index, from the head and the tail.
each_index : (P : ℕ → Type 0) → P 0 → ((j : ℕ) → P (suc j)) → (j : ℕ) → P j
each_index P base later zero = base
each_index P base later (suc j) = later j

module _ (c : HostCtrl) (cs : List HostCtrl) (tsec : ℕ) where
  abbrev NotLess : ℕ → ℕ → Type 0
  NotLess d j = j < length (c ∷ cs) → d ≤ dist_at (c ∷ cs) tsec j

  first_here :
      ((j : ℕ) → j < length cs → evict_dist c tsec ≤ dist_at cs tsec j)
      → IsFirstLeast (c ∷ cs) tsec 0
  first_here h = record {
    inside = omega arith;
    least = each_index (NotLess (evict_dist c tsec)) (λ _. omega arith) (λ j p. h j (omega arith));
    first = λ j p. absurd (omega arith);
  }

  first_later :
      (k : ℕ)
      → IsFirstLeast cs tsec k
      → dist_at cs tsec k < evict_dist c tsec
      → IsFirstLeast (c ∷ cs) tsec (suc k)
  first_later k l below = record {
    inside = omega (arith, l.inside);
    least =
        each_index (NotLess (dist_at cs tsec k)) (λ _. omega arith)
          (λ j p. l.least j (omega arith));
    first =
        each_index (λ j. j < suc k → dist_at cs tsec k < dist_at (c ∷ cs) tsec j) (λ _. below)
          (λ j p. l.first j (omega arith));
  }

  module _ (i top : ℕ) (idx r : Option ℕ) where
    Scanned-lower :
        evict_dist c tsec < top
        → Scanned cs tsec (i + 1) (evict_dist c tsec) (some i) r
        → Scanned (c ∷ cs) tsec i top idx r
    Scanned-lower below (kept h e) = moved 0 (first_here h) below (e ∙ ap some (omega arith))
    Scanned-lower below (moved k l less e) =
        moved (suc k) (first_later k l less) (omega arith) (e ∙ ap some (omega arith))

    Scanned-higher :
        top ≤ evict_dist c tsec
        → Scanned cs tsec (i + 1) top idx r
        → Scanned (c ∷ cs) tsec i top idx r
    Scanned-higher above (kept h e) =
        kept (each_index (NotLess top) (λ _. above) (λ j p. h j (omega arith))) e
    Scanned-higher above (moved k l less e) =
        moved (suc k) (first_later k l (omega arith)) less (e ∙ ap some (omega arith))

evict_scan-Scanned :
    (cs : List HostCtrl) (tsec i top : ℕ) (idx : Option ℕ)
    → Scanned cs tsec i top idx (evict_scan cs tsec i top idx)
unfolding evict_scan
evict_scan-Scanned [] tsec i top idx = kept (λ j p. absurd (omega arith)) refl
evict_scan-Scanned (c ∷ cs) tsec i top idx = elim (Bool-cases (ltb (evict_dist c tsec) top)) [
  | inl e ↦ rw e (
      Scanned-lower c cs tsec i top idx _ (ltb→lt _ _ e)
        (evict_scan-Scanned cs tsec (i + 1) (evict_dist c tsec) (some i)))
  | inr e ↦ rw e (
      Scanned-higher c cs tsec i top idx _ (ground arith)
        (evict_scan-Scanned cs tsec (i + 1) top idx))
]

-- The victim of the bucket: no entry is of a lower class, none of its class is older, and among
-- equals it is the first.
pub record IsVictim (cs : List HostCtrl) (tsec k : ℕ) : Type 0 where
  pub inside : k < length cs
  pub lowest : (j : ℕ) → j < length cs → (get_or cs k zero_ctrl).pri ≤ (get_or cs j zero_ctrl).pri
  pub oldest :
      (j : ℕ)
      → j < length cs
      → (get_or cs j zero_ctrl).pri ≡ (get_or cs k zero_ctrl).pri
      → elapsed tsec (get_or cs j zero_ctrl) ≤ elapsed tsec (get_or cs k zero_ctrl)

All-get_or :
    (cs : List HostCtrl) (j : ℕ) → All IsCtrl cs → j < length cs → IsCtrl (get_or cs j zero_ctrl)
All-get_or [] j v h = absurd (omega arith)
All-get_or (c ∷ cs) zero v h = v.0
All-get_or (c ∷ cs) (suc j) v h = All-get_or cs j v.1 (omega arith)

module _ (cs : List HostCtrl) (tsec : ℕ) (v : All IsCtrl cs) (ht : tsec < 2 ^ 11) where
  rank_at :
      (j : ℕ)
      → j < length cs
      → let c = get_or cs j zero_ctrl in
        (dist_at cs tsec j ≡ c.pri * 2 ^ 11 + (2047 - elapsed tsec c)) × (c.pri < 2 ^ 2)
  rank_at j h =
      let c = All-get_or cs j v h in (evict_dist_lem (get_or cs j zero_ctrl) tsec c ht, c.pri_fits)

  IsVictim-of_least : (k : ℕ) → IsFirstLeast cs tsec k → IsVictim cs tsec k
  IsVictim-of_least k l = record {
    inside = l.inside;
    lowest = λ j h. omega (arith, l.least j h, rank_at j h, rank_at k l.inside);
    oldest = λ j h e. omega (arith, l.least j h, rank_at j h, rank_at k l.inside);
  }

  -- On control blocks whose fields fit their widths, of which there is one at least, the loop of
  -- `allocate` assigns its index, and the index is that of the victim: no entry has a lower
  -- priority, and none of the same priority is older.
  pub evict_scan_lem :
      0 < length cs → (k : ℕ) × (evict_scan cs tsec 0 0xffff none ≡ some k) × IsVictim cs tsec k
  evict_scan_lem h = pick (evict_scan-Scanned cs tsec 0 0xffff none)
    where
      pick :
          Scanned cs tsec 0 0xffff none (evict_scan cs tsec 0 0xffff none)
          → (k : ℕ) × (evict_scan cs tsec 0 0xffff none ≡ some k) × IsVictim cs tsec k
      pick (kept all e) = absurd (omega (arith, all 0 h, rank_at 0 h))
      pick (moved k l less e) = (k, e ∙ ap some (omega arith), IsVictim-of_least k l)
