-- ===== src/Host.antt =====
-- ntfe/host.cpp: the table of hosts. An index of type `s8` is an option, `none` for a negative
-- one. A call is modelled as it runs on processor `p` once its spinning is over.
pub mod Commit
pub mod Guard
pub mod Slots
pub mod Pool
pub mod Probe
pub mod Evict
pub mod Keys
pub mod Bucket
pub mod Allocate
pub mod Place
pub mod Outcome
pub mod Insert
pub mod Authorize
pub mod Stuck
use ntfw.Common.{ℕ, zero, suc, ◌+◌, ◌-◌, ◌*◌, ◌/◌, ◌%◌, ◌^◌, ltb, leb, ◌==◌, not}
use ntfw.Common.{if◌then◌else◌, List, [], ◌∷◌, Option, none, some, bit_and, bit_or, bit_xor, set}
use ntfw.Common.{u16, u32, sub32, not32, ◌>>>◌, update}
use ntfw.State.{HostCtrl, Htbucket, Gs, ctrl_v, ctrl_at, lock_bit, exhausted}
use ntfw.State.{with_reserved, with_bucket, zero_host, count, htbl_size, hpool_grow}
use ntfw.State.{htb_age_mask, htb_pri_mask, host_pri_none, host_pri_static}
use ntfw.State.{htb_conflicts_inc, htb_deferred_inc, htb_collisions_inc, htb_ins_fails_inc}
use ntfw.State.{hpl_grow_stall_inc}

unfoldable pub inet_hashfn : ℕ → ℕ
inet_hashfn saddr = let h = u32 (saddr * 0x32583499) in bit_xor h (h >>> 16)

-- The index of the bucket.
unfoldable pub host_fetch_bucket : ℕ → ℕ
host_fetch_bucket saddr = bit_and (inet_hashfn saddr) (htbl_size - 1)

-- `_mm256_movemask_epi8` of `_mm256_cmpeq_epi32` with the address in each lane: four ones for
-- each lane that is equal.
unfoldable pub movemask_eq : List ℕ → ℕ → ℕ
movemask_eq [] a = 0
movemask_eq (x ∷ xs) a = (if x == a then 0xf else 0) + 16 * movemask_eq xs a

-- `_tzcnt_u32`, at 32 digits: the number of zeros below the lowest one.
unfoldable pub tzcnt : ℕ → ℕ → ℕ
tzcnt zero m = 0
tzcnt (suc n) m = if m % 2 == 1 then 0 else suc (tzcnt n (m / 2))

unfoldable pub probe_bucket : Htbucket → ℕ → Option ℕ
probe_bucket htb a =
    let idx = movemask_eq htb.saddr a in if idx == 0 then none else some (tzcnt 32 idx >>> 2)

unfoldable pub host_lookup : Htbucket → ℕ → Option ℕ
host_lookup htb saddr = probe_bucket htb saddr

-- The index of the host state in the pool.
abbrev pub get_host_state : Htbucket → ℕ → ℕ
get_host_state htb hidx = (ctrl_at htb hidx).ptr

unfoldable pub host_pool_grow : Gs → Gs
host_pool_grow gs = record gs { hp_true_sz = u32 (gs.hp_true_sz + hpool_grow) }

-- The rank of an entry as a candidate for eviction: its priority, then how recent it is.
unfoldable pub evict_dist : HostCtrl → ℕ → ℕ
evict_dist c tsec =
    u16 (bit_or (bit_and (not32 (sub32 tsec c.age)) htb_age_mask) (bit_and (ctrl_v c) htb_pri_mask))

-- The loop over the control blocks, from index `i` on; `idx` is `none` until it is assigned.
unfoldable pub evict_scan : List HostCtrl → ℕ → ℕ → ℕ → Option ℕ → Option ℕ
evict_scan [] tsec i top idx = idx
evict_scan (c ∷ cs) tsec i top idx =
    let dist = evict_dist c tsec in
    evict_scan cs tsec (i + 1) (if ltb dist top then dist else top)
      (if ltb dist top then some i else idx)

-- `allocate`: the index and the state after it, in bucket `b`.
unfoldable pub allocate : ℕ → ℕ → ℕ → Gs → Option ℕ × Gs
allocate b tsec priority gs =
    let htb = gs.host_tbl b in
    if exhausted htb == 0
    then elim (probe_bucket htb 0) [
      | none ↦ (none, gs)
      | some idx ↦ (some idx, if idx == 7 then with_bucket gs b (with_reserved htb 1 1) else gs)
    ]
    else elim (evict_scan htb.ctrl tsec 0 0xffff none) [
      | none ↦ (none, gs)
      | some idx ↦
          if ltb priority (ctrl_at htb idx).pri
          then (none, gs)
          else (some idx, record gs { pool = update gs.pool (get_host_state htb idx) zero_host })
    ]

-- The new entry's key and control block.
unfoldable pub write_entry : Htbucket → ℕ → ℕ → ℕ → ℕ → ℕ → Htbucket
write_entry htb idx saddr age pri ptr = record {
  saddr = set htb.saddr idx saddr;
  ctrl =
      set htb.ctrl idx
        (record (ctrl_at htb idx) { age = age % 2 ^ 11; pri = pri % 2 ^ 2; ptr = ptr % 2 ^ 18 });
}

-- `spin_acquire(&htb->lock, HTB_LOCK_BIT)` when it returns, and `spin_release`.
unfoldable pub acquire : ℕ → Gs → Gs
acquire b gs = with_bucket gs b (with_reserved (gs.host_tbl b) 0 1)

unfoldable pub release : ℕ → Gs → Gs
release b gs = with_bucket gs b (with_reserved (gs.host_tbl b) 0 0)

-- The entry of a host that is there: its priority is raised, never lowered.
unfoldable pub raise_pri : Htbucket → ℕ → ℕ → Htbucket
raise_pri htb i priority =
    if ltb (ctrl_at htb i).pri priority
    then record htb { ctrl = set htb.ctrl i (record (ctrl_at htb i) { pri = priority % 2 ^ 2 }) }
    else htb

module _ (p : ℕ) where
  abbrev pub time_msec : Gs → ℕ
  time_msec gs = (gs.cpuls p).ts_msec

  -- `(time_msec() >> 10) & HTB_AGE_MASK`
  abbrev pub time_age : Gs → ℕ
  time_age gs = bit_and (time_msec gs >>> 10) htb_age_mask

  -- The index allocated. The wait for another processor's growth changes nothing here.
  unfoldable pub host_allocate : Gs → ℕ × Gs
  unfolding host_pool_grow
  host_allocate gs =
      let idx = u32 (gs.hp_size + 1) in
      let gs1 = record gs { hp_size = idx } in
      if bit_and (sub32 idx (hpool_grow / 2)) (hpool_grow - 1) == 0
      then (idx, host_pool_grow gs1)
      else (if leb gs.hp_true_sz idx then (idx, count p hpl_grow_stall_inc gs1) else (idx, gs1))

  -- What `host_insert` does with the result of `allocate`.
  unfoldable pub fill_entry : ℕ → ℕ → ℕ → Option ℕ × Gs → Option ℕ × Gs
  fill_entry b saddr tsec (none, gs) = (none, count p htb_ins_fails_inc gs)
  fill_entry b saddr tsec (some idx, gs) =
      let (ptr, gs') = host_allocate gs in
      (some idx, with_bucket gs' b (write_entry (gs'.host_tbl b) idx saddr tsec host_pri_none ptr))

  -- The branch of `host_insert` for a host that is not in the bucket.
  unfoldable pub insert_new : ℕ → ℕ → Gs → Option ℕ × Gs
  insert_new b saddr gs =
      let tsec = time_age gs in fill_entry b saddr tsec (allocate b tsec host_pri_none gs)

  -- `host_insert` while it holds the lock of the bucket.
  unfoldable pub insert_locked : ℕ → ℕ → Gs → Option ℕ × Gs
  insert_locked b saddr gs = elim (probe_bucket (gs.host_tbl b) saddr) [
    | some i ↦ (some i, count p htb_collisions_inc gs)
    | none ↦ insert_new b saddr gs
  ]

  unfoldable pub host_insert : ℕ → ℕ → Gs → Option ℕ × Gs
  host_insert b saddr gs =
      if not (lock_bit (gs.host_tbl b) == 0)
      then (none, count p htb_deferred_inc (count p htb_conflicts_inc gs))
      else (let (idx, gs') = insert_locked b saddr (acquire b gs) in (idx, release b gs'))

  -- What `host_insert_authorized` does with the result of `allocate`.
  unfoldable pub fill_authorized : ℕ → ℕ → ℕ → ℕ → Option ℕ × Gs → Option ℕ × Gs
  fill_authorized b saddr tsec priority (none, gs) = (none, gs)
  fill_authorized b saddr tsec priority (some idx, gs) =
      (some idx, with_bucket gs b (write_entry (gs.host_tbl b) idx saddr tsec priority 0))

  -- The branch of `host_insert_authorized` for a host that is not in the bucket. `allocate` is
  -- called with the priority `HOST_PRI_NONE`, whatever the priority of the new host.
  unfoldable pub insert_new_authorized : ℕ → ℕ → ℕ → Gs → Option ℕ × Gs
  insert_new_authorized b saddr priority gs =
      let tsec = time_age gs in
      fill_authorized b saddr tsec priority (allocate b tsec host_pri_none gs)

  -- `host_insert_authorized` while it holds the lock of the bucket.
  unfoldable pub insert_authorized_locked : ℕ → ℕ → ℕ → Gs → Option ℕ × Gs
  insert_authorized_locked b saddr priority gs = elim (probe_bucket (gs.host_tbl b) saddr) [
    | some i ↦
        let gs' = count p htb_collisions_inc gs in
        (some i, with_bucket gs' b (raise_pri (gs'.host_tbl b) i priority))
    | none ↦ insert_new_authorized b saddr priority gs
  ]

  unfoldable pub host_insert_authorized : ℕ → ℕ → ℕ → Gs → Option ℕ × Gs
  host_insert_authorized b saddr priority gs =
      let gs0 = if not (lock_bit (gs.host_tbl b) == 0) then count p htb_conflicts_inc gs else gs in
      let (idx, gs') = insert_authorized_locked b saddr priority (acquire b gs0) in
      (idx, release b gs')

-- The loop body of `host_clear_statically_authorized` for entry `k` of bucket `b`.
unfoldable pub clear_entry : ℕ → ℕ → Gs → Gs
clear_entry b k gs =
    let htb = gs.host_tbl b in
    if (ctrl_at htb k).pri == host_pri_static
    then (let htb' = with_reserved (record htb { saddr = set htb.saddr k 0 }) 1 0 in
        record (with_bucket gs b htb') { pool = update gs.pool (get_host_state htb' k) zero_host })
    else gs

-- The entries from `k` on of one bucket, and the buckets from `b` on.
unfoldable pub clear_bucket : ℕ → ℕ → ℕ → Gs → Gs
unfolding clear_entry
clear_bucket zero k b gs = gs
clear_bucket (suc left) k b gs = clear_bucket left (k + 1) b (clear_entry b k gs)

unfoldable pub clear_buckets : ℕ → ℕ → Gs → Gs
unfolding clear_bucket
clear_buckets zero b gs = gs
clear_buckets (suc left) b gs = clear_buckets left (b + 1) (clear_bucket 8 0 b gs)

unfoldable pub host_clear_statically_authorized : Gs → Gs
unfolding clear_buckets
host_clear_statically_authorized gs = clear_buckets htbl_size 0 gs
