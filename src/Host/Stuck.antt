-- ===== src/Host/Stuck.antt =====
-- `host_clear_statically_authorized` leaves a hole in a bucket; what becomes of the bucket when
-- the hole is filled.
use ntfw.Common.{ℕ, zero, suc, ◌≡◌, ◌≢◌, ◌<◌, arith, refl, ap, sym, ◌∙◌}
use ntfw.Common.{List, [], ◌∷◌, none, some, length, set, length-set, get_or-set_self, update_self}
use ntfw.State.{
  Htbucket, Gs, ctrl_at, exhausted, with_reserved, with_bucket, zero_ctrl, host_pri_static,
}
use ntfw.Host.{allocate, clear_entry, write_entry}
use ntfw.Host.Probe.{index_of, probe_bucket_lem}
use ntfw.Host.Keys.{IsPacked, index_of-set_self, index_of-set_ne, index_of-none}
use ntfw.Host.Bucket.{IsHtbucket, bits-write_entry}

set_twice : (xs : List ℕ) (k x y : ℕ) → set (set xs k x) k y ≡ set xs k y
set_twice [] k x y = refl
set_twice (z ∷ xs) zero x y = refl
set_twice (z ∷ xs) (suc k) x y = ap (λ l. z ∷ l) (set_twice xs k x y)

full_no_zero : (xs : List ℕ) (n : ℕ) → IsPacked xs n → n ≡ length xs → index_of xs 0 ≡ none
full_no_zero [] n h e = refl
full_no_zero (x ∷ xs) zero h e = absurd (omega arith)
full_no_zero (x ∷ xs) (suc n) h e = ground (arith, full_no_zero xs n h.1 (omega arith))

module _ (b tsec priority : ℕ) (gs : Gs) (htb : Htbucket) (here : gs.host_tbl b ≡ htb)
    (len : length htb.saddr ≡ 8) (unmarked : exhausted htb ≡ 0) where
  -- A bucket that is not marked gives its first free key, and nothing when it has none.
  allocate_hole :
      (k : ℕ) → k < 7 → index_of htb.saddr 0 ≡ some k → allocate b tsec priority gs ≡ (some k, gs)
  unfolding allocate
  allocate_hole k h e = rw (here, unmarked, probe_bucket_lem htb 0 len, e) (ground arith)

  allocate-none : index_of htb.saddr 0 ≡ none → allocate b tsec priority gs ≡ (none, gs)
  unfolding allocate
  allocate-none e = rw (here, unmarked, probe_bucket_lem htb 0 len, e) refl

module _ (b k a age pri ptr : ℕ) (gs : Gs) (w : IsHtbucket (gs.host_tbl b)) where
  abbrev pub cleared : Gs
  cleared = clear_entry b k gs

  abbrev hole : Htbucket
  hole = let htb = gs.host_tbl b in with_reserved (record htb { saddr = set htb.saddr k 0 }) 1 0

  -- The state when a host is written over the hole.
  abbrev pub refilled : Gs
  refilled = with_bucket cleared b (write_entry (cleared.host_tbl b) k a age pri ptr)

  cleared_bucket : (ctrl_at (gs.host_tbl b) k).pri ≡ host_pri_static → cleared.host_tbl b ≡ hole
  unfolding clear_entry
  cleared_bucket e = rw e (update_self gs.host_tbl b hole)

  module _ (full : exhausted (gs.host_tbl b) ≡ 1)
      (static : (ctrl_at (gs.host_tbl b) k).pri ≡ host_pri_static) (inside : k < 7)
      (ne : a ≢ 0) where
    all_used : w.used ≡ 8
    all_used = ground (arith, full, w.full)

    no_zero : index_of (gs.host_tbl b).saddr 0 ≡ none
    no_zero = full_no_zero (gs.host_tbl b).saddr w.used w.packed (all_used ∙ sym w.keys)

    hole_keys : length hole.saddr ≡ 8
    hole_keys = length-set (gs.host_tbl b).saddr k 0 ∙ w.keys

    hole_unmarked : exhausted hole ≡ 0
    hole_unmarked =
        ap (λ c. c.reserved)
          (get_or-set_self (gs.host_tbl b).ctrl 1
            (record (ctrl_at (gs.host_tbl b) 1) { reserved = 0 }) zero_ctrl
            (omega (arith, w.blocks)))

    hole_at : index_of hole.saddr 0 ≡ some k
    hole_at = index_of-set_self (gs.host_tbl b).saddr 0 k no_zero (omega (arith, w.keys, inside))

    refilled_bucket : refilled.host_tbl b ≡ write_entry hole k a age pri ptr
    refilled_bucket =
        update_self cleared.host_tbl b _
        ∙ ap (λ h. write_entry h k a age pri ptr) (cleared_bucket static)

    refilled_keys : length (write_entry hole k a age pri ptr).saddr ≡ 8
    unfolding write_entry
    refilled_keys = length-set hole.saddr k a ∙ hole_keys

    refilled_no_zero : index_of (write_entry hole k a age pri ptr).saddr 0 ≡ none
    unfolding write_entry
    refilled_no_zero =
        ap (λ xs. index_of xs 0) (set_twice (gs.host_tbl b).saddr k 0 a)
        ∙ index_of-set_ne (gs.host_tbl b).saddr a k 0 ne
            (index_of-none (gs.host_tbl b).saddr 0 k no_zero (omega (arith, w.keys, inside)))
        ∙ no_zero

    -- When a static host other than the last one of a full bucket is cleared, the next allocation
    -- gives its entry without marking the bucket; and once a host is written there, the bucket
    -- is full and not marked, and every allocation fails, at whatever time and priority.
    pub clear_entry-allocate :
        (tsec priority : ℕ)
        → (allocate b tsec priority cleared ≡ (some k, cleared))
          × ((tsec' priority' : ℕ) → allocate b tsec' priority' refilled ≡ (none, refilled))
    clear_entry-allocate tsec priority = (
      allocate_hole b tsec priority cleared hole (cleared_bucket static) hole_keys hole_unmarked k
          inside hole_at,
      λ tsec' priority'.
          allocate-none b tsec' priority' refilled _ refilled_bucket refilled_keys
            (bits-write_entry hole k a age pri ptr 1 ∙ hole_unmarked) refilled_no_zero,
    )
