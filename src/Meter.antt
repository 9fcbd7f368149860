-- ===== src/Meter.antt =====
-- ntfe/ntfe.h and ntfe/ntfe.cpp: the token buckets by which public traffic is policed.
pub mod Bounds
use ntfw.Common.{ℕ, Bool, ltb, ◌==◌, sub32, if◌then◌else◌}
use ntfw.Saturate.{satsub32, satadd32, satmul32}

-- `struct tbucket`
pub record Tbucket : Type 0 where
  pub tokens : ℕ
  pub last : ℕ

-- `struct tbucket_desc`
pub record TbucketDesc : Type 0 where
  pub rate : ℕ
  pub capacity : ℕ
  pub level : ℕ

-- the macro `min` of common/pce.h
abbrev pub c_min : ℕ → ℕ → ℕ
c_min x y = if ltb x y then x else y

-- The replenishment at `tmsec`, made only when time has passed.
unfoldable pub replenish : Tbucket → TbucketDesc → ℕ → Tbucket
replenish tb tbd tmsec =
    let dt = sub32 tmsec tb.last in
    if dt == 0 then tb else (record {
      tokens = c_min tbd.capacity (satadd32 tb.tokens (satmul32 dt tbd.rate));
      last = tmsec;
    })

-- The charge: the bucket as it is left, and whether the packet passed.
unfoldable pub token_bucket_charge : Tbucket → TbucketDesc → ℕ → ℕ → Tbucket × Bool
unfolding replenish
token_bucket_charge tb tbd tmsec cost =
    let tb' = replenish tb tbd tmsec in
    let left = satsub32 tb'.tokens cost in (record tb' { tokens = left }, ltb tbd.level left)
