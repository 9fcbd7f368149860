-- ===== src/Meter/Bounds.antt =====
-- What the token bucket guarantees over any sequence of charges.
use ntfw.Common.{ℕ, ◌+◌, ◌-◌, ◌*◌, ◌^◌, ◌≤◌, ◌<◌, ◌≡◌, true, min, arith}
use ntfw.Common.{◌∙◌, List, [], ◌∷◌, if◌then◌else◌, ltb}
use native.Mathlib.Decide.{ℕ_discrete}
use ntfw.Saturate.Laws.{satsub32_lem, satadd32_lem, satmul32_lem, max32}
use ntfw.Meter.{Tbucket, TbucketDesc, replenish, token_bucket_charge}

-- The fields of a bucket and of its parameters are 32-bit words.
pub record IsBucket (tb : Tbucket) : Type 0 where
  pub tokens_fit : tb.tokens < 2 ^ 32
  pub last_fits : tb.last < 2 ^ 32

pub record IsDesc (tbd : TbucketDesc) : Type 0 where
  pub rate_fits : tbd.rate < 2 ^ 32
  pub capacity_fits : tbd.capacity < 2 ^ 32

-- The tokens that a bucket holds after its replenishment, on the numbers.
abbrev pub refilled : Tbucket → TbucketDesc → ℕ → ℕ
refilled tb tbd t = min tbd.capacity (min (tb.tokens + min ((t - tb.last) * tbd.rate) max32) max32)

replenish_lem :
    (tb : Tbucket) (tbd : TbucketDesc) (t : ℕ)
    → IsBucket tb
    → IsDesc tbd
    → t < 2 ^ 32
    → tb.last < t
    → replenish tb tbd t ≡ record { tokens = refilled tb tbd t; last = t }
unfolding replenish
replenish_lem tb tbd t v d ht h = ground (
  arith,
  satmul32_lem (t - tb.last) tbd.rate,
  satadd32_lem tb.tokens (min ((t - tb.last) * tbd.rate) max32),
)

replenish_same :
    (tb : Tbucket) (tbd : TbucketDesc) (t : ℕ) → t < 2 ^ 32 → tb.last ≡ t → replenish tb tbd t ≡ tb
unfolding replenish
replenish_same tb tbd t ht h = ground arith

-- The tokens at hand never exceed what was there and what the rate brought since.
replenish-le :
    (tb : Tbucket) (tbd : TbucketDesc) (t : ℕ)
    → IsBucket tb
    → IsDesc tbd
    → t < 2 ^ 32
    → tb.last ≤ t
    → let tb' = replenish tb tbd t in
      (tb'.tokens < 2 ^ 32) × (tb'.last ≡ t) × (tb'.tokens ≤ tb.tokens + (t - tb.last) * tbd.rate)
replenish-le tb tbd t v d ht h = elim (ℕ_discrete tb.last t) [
  | yes e ↦ rw (replenish_same tb tbd t ht e) (omega arith)
  | no ne ↦ rw (replenish_lem tb tbd t v d ht (omega arith)) (omega arith)
]

-- One charge: after a replenishment at or before `t`, what has passed and what is left is paid by
-- the tokens at hand; a refused packet takes tokens too, down to none.
charge-le :
    (tb : Tbucket) (tbd : TbucketDesc) (t cost : ℕ)
    → IsBucket tb
    → IsDesc tbd
    → t < 2 ^ 32
    → cost < 2 ^ 32
    → tb.last ≤ t
    → let (tb', ok) = token_bucket_charge tb tbd t cost in
      IsBucket tb'
      × (tb'.last ≡ t)
      × ((if ok then cost else 0) + tb'.tokens ≤ tb.tokens + (t - tb.last) * tbd.rate)
unfolding token_bucket_charge
charge-le tb tbd t cost v d ht hc h =
    ground (arith, replenish-le tb tbd t v d ht h, satsub32_lem (replenish tb tbd t).tokens cost)

-- Charges in order, each at its time and of its cost: the bucket that is left, and the sum of
-- the costs that passed.
pub charge_all : TbucketDesc → Tbucket → List (ℕ × ℕ) → Tbucket × ℕ
charge_all tbd tb [] = (tb, 0)
charge_all tbd tb ((t, cost) ∷ rest) =
    let (tb', ok) = token_bucket_charge tb tbd t cost in
    let (end, passed) = charge_all tbd tb' rest in (end, (if ok then cost else 0) + passed)

-- The times do not go back, from `last` on, and all are words.
abbrev pub IsChronological : ℕ → List (ℕ × ℕ) → Type 0
IsChronological last [] = Unit
IsChronological last ((t, cost) ∷ rest) =
    (last ≤ t) × (t < 2 ^ 32) × (cost < 2 ^ 32) × IsChronological t rest

span_mul : (a b c r : ℕ) → a ≤ b → b ≤ c → (b - a) * r + (c - b) * r ≡ (c - a) * r
span_mul a b c r h k = grind arith

-- The bound of policing. Over any sequence of charges with times that do not go back, the costs
-- that passed and the tokens left at the end come to at most the tokens at the start and the
-- rate over the time that went by.
pub charge_all_bound :
    (tbd : TbucketDesc) (cs : List (ℕ × ℕ)) (tb : Tbucket)
    → IsBucket tb
    → IsDesc tbd
    → IsChronological tb.last cs
    → let (end, passed) = charge_all tbd tb cs in
      (tb.last ≤ end.last) × (passed + end.tokens ≤ tb.tokens + (end.last - tb.last) * tbd.rate)
unfolding charge_all
charge_all_bound tbd [] tb v d h = omega arith
charge_all_bound tbd ((t, cost) ∷ rest) tb v d h =
    let c = charge-le tb tbd t cost v d h.1 h.2 h.0 in
    let tb' = (token_bucket_charge tb tbd t cost).0 in
    let chron : IsChronological tb'.last rest = rw c.1 h.3 in
    let ih = charge_all_bound tbd rest tb' c.0 d chron in
    let end = (charge_all tbd tb' rest).0 in
    let later : t ≤ end.last = omega (arith, c.1, ih.0) in
    let split = span_mul tb.last t end.last tbd.rate h.0 later in
    let rest_bound : (charge_all tbd tb' rest).1 + end.tokens
        ≤ tb'.tokens + (end.last - t) * tbd.rate =
      rw c.1 at ih.1 in
    omega (arith, c.2, h.0, later, rest_bound, split)

-- A packet passes exactly when the tokens at hand, replenished up to the capacity, cover its
-- cost and more than the level besides; a refused one takes what there is.
pub token_bucket_charge_lem :
    (tb : Tbucket) (tbd : TbucketDesc) (t cost : ℕ)
    → IsBucket tb
    → IsDesc tbd
    → t < 2 ^ 32
    → cost < 2 ^ 32
    → tb.last < t
    → token_bucket_charge tb tbd t cost ≡ (
      record { tokens = refilled tb tbd t - cost; last = t },
      ltb (tbd.level + cost) (refilled tb tbd t),
    )
unfolding token_bucket_charge
token_bucket_charge_lem tb tbd t cost v d ht hc h =
    ground (arith, replenish_lem tb tbd t v d ht h, satsub32_lem (refilled tb tbd t) cost)

-- A bucket that has been idle long enough to fill passes every packet whose cost, with the
-- level, stays below the capacity, whatever was refused before.
pub charge_after_idle :
    (tb : Tbucket) (tbd : TbucketDesc) (t cost : ℕ)
    → IsBucket tb
    → IsDesc tbd
    → t < 2 ^ 32
    → tb.last < t
    → tbd.capacity ≤ (t - tb.last) * tbd.rate
    → tbd.level + cost < tbd.capacity
    → token_bucket_charge tb tbd t cost ≡ (record { tokens = tbd.capacity - cost; last = t }, true)
charge_after_idle tb tbd t cost v d ht h full fits =
    token_bucket_charge_lem tb tbd t cost v d ht (omega arith) h ∙ ground arith
