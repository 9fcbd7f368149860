-- ===== src/Host/Allocate.antt =====
-- `allocate` on a bucket that satisfies its invariant, and the bucket once the entry that was
-- allocated is written.
use ntfw.Common.{ℕ, ◌^◌, ◌≡◌, ◌≢◌, ◌<◌, ◌≤◌, arith, refl, ◌==◌, ◌∙◌}
use ntfw.Common.{none, some, get_or, if◌then◌else◌}
use ntfw.Common.{ltb, update, ◌⊎◌, inl, inr}
use ntfw.Common.{Bool-cases, ltb→lt}
use ntfw.State.{Htbucket, Gs, zero_host, ctrl_at, exhausted, with_reserved}
use ntfw.State.{with_bucket}
use ntfw.Host.{allocate, get_host_state}
use ntfw.Host.Probe.{probe_bucket_lem}
use ntfw.Host.Evict.{IsVictim, evict_scan_lem}
use ntfw.Host.Keys.{packed-le, packed_first_free}
use ntfw.Host.Bucket.{IsHtbucket, host_entry}

pub used-le : {htb : Htbucket} (w : IsHtbucket htb) → w.used ≤ 8
used-le {htb} w = omega (arith, packed-le htb.saddr w.used w.packed, w.keys)

module _ (b tsec priority : ℕ) (gs : Gs) (w : IsHtbucket (gs.host_tbl b)) where
  abbrev htb : Htbucket
  htb = gs.host_tbl b

  -- The state when the last free entry is taken is marked.
  abbrev pub marked : Gs
  marked = if w.used == 7 then with_bucket gs b (with_reserved htb 1 1) else gs

  -- In a bucket that is not full the first free entry is taken.
  pub allocate_free : w.used < 8 → allocate b tsec priority gs ≡ (some w.used, marked)
  unfolding allocate
  allocate_free h =
      let first = packed_first_free htb.saddr w.used w.packed (omega (arith, w.keys)) in
      let probe = probe_bucket_lem htb 0 w.keys ∙ first in
      let open_bit : exhausted htb ≡ 0 = w.full ∙ ground arith in
      rw (open_bit, probe) (ground arith)

  -- The state when the entry `k` is evicted: its host state is cleared.
  abbrev pub evicted : ℕ → Gs
  evicted k = record gs { pool = update gs.pool (get_host_state htb k) zero_host }

  -- In a full bucket the victim is taken if its class is at most the priority, and nothing else.
  abbrev pub FullOutcome : Type 0
  FullOutcome =
      (k : ℕ) × IsVictim htb.ctrl tsec k
      × ((((ctrl_at htb k).pri ≤ priority) × (allocate b tsec priority gs ≡ (some k, evicted k)))
          ⊎ ((priority < (ctrl_at htb k).pri) × (allocate b tsec priority gs ≡ (none, gs))))

  pub allocate_full : w.used ≡ 8 → tsec < 2 ^ 11 → FullOutcome
  unfolding allocate
  allocate_full h ht =
      let (k, scan, victim) = evict_scan_lem htb.ctrl tsec w.fields ht (omega (arith, w.blocks)) in
      let shut_bit : exhausted htb ≡ 1 = w.full ∙ ground arith in
      (
        k,
        victim,
        elim (Bool-cases (ltb priority (ctrl_at htb k).pri)) [
          | inl high ↦ inr (ltb→lt _ _ high, rw (shut_bit, scan, high) refl)
          | inr low ↦ inl (ground arith, rw (shut_bit, scan, low) refl)
        ],
      )

-- What an entry at index `i` was before it was taken: free, or in use by the victim, which had no
-- priority.
abbrev pub WasFree : Htbucket → ℕ → Type 0
WasFree htb i = get_or htb.saddr i 0 ≡ 0

pub record WasVictim (htb : Htbucket) (tsec i : ℕ) : Type 0 where
  pub victim : IsVictim htb.ctrl tsec i
  pub unauthorized : (ctrl_at htb i).pri ≡ 0

-- `htb'` is the bucket `htb` with the host `a` in the entry `i`.
pub record Placed (htb htb' : Htbucket) (a age pri ptr i : ℕ) : Type 0 where
  pub sound : IsHtbucket htb'
  pub here : host_entry htb' a ≡ some (age, pri, ptr)
  pub others : (c : ℕ) → a ≢ c → get_or htb.saddr i 0 ≢ c → host_entry htb' c ≡ host_entry htb c
  pub taken : WasFree htb i ⊎ WasVictim htb age i
