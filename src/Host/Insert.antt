-- ===== src/Host/Insert.antt =====
-- `host_insert`: what it does to the bucket of a host that is not in it.
use ntfw.Common.{ℕ, ◌+◌, ◌%◌, ◌^◌, ◌≡◌, ◌≢◌, ◌<◌, arith, refl, ap, sym, subst, ◌==◌, ◌∙◌}
use ntfw.Common.{Option, none, set}
use ntfw.Common.{inl, inr, Bool-cases, update_self, u32}
use ntfw.Common.{◌/◌}
use ntfw.Common.Bits.{bit_and_mask}
use native.Mathlib.Decide.{ℕ_discrete}
use ntfw.State.{Htbucket, Gs, ctrl_at, lock_bit, with_reserved}
use ntfw.State.{with_bucket}
use ntfw.Host.{
  write_entry, allocate, host_allocate, fill_entry, insert_new, insert_locked, host_insert, acquire,
}
use ntfw.Host.{release, time_age, time_msec, probe_bucket}
use ntfw.Host.Probe.{index_of, probe_bucket_lem}
use ntfw.Host.Bucket.{IsHtbucket, IsHtbucket-lock}
use ntfw.Host.Outcome.{Outcome, placed, refused, Outcome-unlocked}
use ntfw.Host.Allocate.{allocate_free, allocate_full, FullOutcome, evicted, marked, used-le}
use ntfw.Host.Place.{mark_last, Placed-free, Placed-victim}

pub time_age-lt : (p : ℕ) (gs : Gs) → time_age p gs < 2 ^ 11
time_age-lt p gs = omega (arith, bit_and_mask 11 (time_msec p gs / 2 ^ 10))

pub host_allocate_lem :
    (p : ℕ) (gs : Gs)
    → ((host_allocate p gs).0 ≡ u32 (gs.hp_size + 1))
      × ((host_allocate p gs).1.host_tbl ≡ gs.host_tbl)
unfolding host_allocate
host_allocate_lem p gs = ground arith

write_entry_ptr :
    (htb : Htbucket) (i a age pri ptr : ℕ)
    → write_entry htb i a age pri ptr ≡ write_entry htb i a age pri (ptr % 2 ^ 18)
unfolding write_entry
write_entry_ptr htb i a age pri ptr =
    ap
      (λ q. record {
        saddr = set htb.saddr i a;
        ctrl =
            set htb.ctrl i
              (record (ctrl_at htb i) { age = age % 2 ^ 11; pri = pri % 2 ^ 2; ptr = q });
      })
      (omega arith)

pub marked-host_tbl :
    (b : ℕ) (gs : Gs) (w : IsHtbucket (gs.host_tbl b))
    → ((marked b 0 0 gs w).host_tbl b ≡ mark_last (gs.host_tbl b) w.used)
      × ((marked b 0 0 gs w).hp_size ≡ gs.hp_size)
marked-host_tbl b gs w = elim (Bool-cases (w.used == 7)) [
  | inl e ↦ (rw e (update_self gs.host_tbl b _), rw e refl)
  | inr e ↦ (rw e refl, rw e refl)
]

module _ (p b a : ℕ) (gs : Gs) (ne : a ≢ 0) (w : IsHtbucket (gs.host_tbl b))
    (new : index_of (gs.host_tbl b).saddr a ≡ none) where
  abbrev bucket : Htbucket
  bucket = gs.host_tbl b

  abbrev next_ptr : ℕ
  next_ptr = u32 (gs.hp_size + 1) % 2 ^ 18

  abbrev AfterInsert : Option ℕ × Gs → Type 0
  AfterInsert r = Outcome bucket a (time_age p gs) 0 next_ptr r.0 (r.1.host_tbl b)

  -- The pool index and the write of the entry `i`, after `allocate` has left `gs1`.
  written_bucket :
      (gs1 : Gs) (htb1 : Htbucket) (i : ℕ)
      → gs1.host_tbl b ≡ htb1
      → gs1.hp_size ≡ gs.hp_size
      → let (ptr, gs2) = host_allocate p gs1 in
        (with_bucket gs2 b (write_entry (gs2.host_tbl b) i a (time_age p gs) 0 ptr)).host_tbl b
        ≡ write_entry htb1 i a (time_age p gs) 0 next_ptr
  written_bucket gs1 htb1 i e size =
      let (at, tbl) = host_allocate_lem p gs1 in
      let gs2 = (host_allocate p gs1).1 in
      update_self gs2.host_tbl b _
      ∙ ap (λ f. write_entry (f b) i a (time_age p gs) 0 (host_allocate p gs1).0) tbl
      ∙ ap (λ h. write_entry h i a (time_age p gs) 0 (host_allocate p gs1).0) e
      ∙ write_entry_ptr htb1 i a (time_age p gs) 0 (host_allocate p gs1).0
      ∙ ap (λ n. write_entry htb1 i a (time_age p gs) 0 (n % 2 ^ 18))
          (at ∙ ap (λ n. u32 (n + 1)) size)

  insert_new_lem :
      Outcome bucket a
        (time_age p gs)
        0
        next_ptr
        (insert_new p b a gs).0
        ((insert_new p b a gs).1.host_tbl b)
  unfolding insert_new fill_entry
  insert_new_lem = elim (ℕ_discrete w.used 8) [
    | no free ↦
        let h : w.used < 8 = omega (arith, used-le w) in
        let (tbl, size) = marked-host_tbl b gs w in
        subst Ends (sym (allocate_free b (time_age p gs) 0 gs w h)) (
          placed w.used refl (
            rw
              (written_bucket (marked b (time_age p gs) 0 gs w) (mark_last bucket w.used) w.used tbl
                size)
              (Placed-free bucket a (time_age p gs) 0 next_ptr ne fits w new h)))
    | yes full ↦ full_bucket full (allocate_full b (time_age p gs) 0 gs w full (time_age-lt p gs))
  ]
    where
      Ends : Option ℕ × Gs → Type 0
      Ends r = AfterInsert (fill_entry p b a (time_age p gs) r)

      fits : (time_age p gs < 2 ^ 11) × (0 < 2 ^ 2) × (next_ptr < 2 ^ 18)
      fits = (time_age-lt p gs, omega arith, omega arith)

      full_bucket :
          w.used ≡ 8 → FullOutcome b (time_age p gs) 0 gs w → Ends (allocate b (time_age p gs) 0 gs)
      full_bucket full (k, victim, inl (low, e)) = subst Ends (sym e) (
          placed k refl (
            rw (written_bucket (evicted b (time_age p gs) 0 gs w k) bucket k refl refl) (
              Placed-victim bucket a (time_age p gs) 0 next_ptr ne fits w new k full victim
                (omega arith))))
      full_bucket full (k, victim, inr (high, e)) = subst Ends (sym e) (
          refused refl (λ j h. omega (arith, victim.lowest j (omega (arith, w.blocks)))) w
            (λ c. refl))

module _ (p b a : ℕ) (gs : Gs) where
  pub bucket-acquire : (acquire b gs).host_tbl b ≡ with_reserved (gs.host_tbl b) 0 1
  unfolding acquire
  bucket-acquire = update_self gs.host_tbl b _

  pub bucket-release : (release b gs).host_tbl b ≡ with_reserved (gs.host_tbl b) 0 0
  unfolding release
  bucket-release = update_self gs.host_tbl b _

  insert_locked-none :
      probe_bucket (gs.host_tbl b) a ≡ none → insert_locked p b a gs ≡ insert_new p b a gs
  unfolding insert_locked
  insert_locked-none e = rw (e, insert_locked) refl

  host_insert_open :
      lock_bit (gs.host_tbl b) ≡ 0
      → host_insert p b a gs
        ≡ ((insert_locked p b a (acquire b gs)).0, release b (insert_locked p b a (acquire b gs)).1)
  unfolding host_insert
  host_insert_open e = rw (e, host_insert) refl

  insert_acquired :
      a ≢ 0
      → IsHtbucket ((acquire b gs).host_tbl b)
      → index_of ((acquire b gs).host_tbl b).saddr a ≡ none
      → Outcome
          ((acquire b gs).host_tbl b)
          a
          (time_age p gs)
          0
          (u32 (gs.hp_size + 1) % 2 ^ 18)
          (insert_new p b a (acquire b gs)).0
          ((insert_new p b a (acquire b gs)).1.host_tbl b)
  unfolding acquire
  insert_acquired = insert_new_lem p b a (acquire b gs)

-- A host that is not in its bucket, whose lock is free, is inserted with no priority at the
-- current age: it takes a free entry, or that of the oldest unauthorized host;
-- no other host's entry changes, and the bucket keeps its invariant. Only when all eight hosts
-- have a priority is nothing inserted, and then no entry changes.
pub host_insert_lem :
    (p b a : ℕ) (gs : Gs)
    → a ≢ 0
    → IsHtbucket (gs.host_tbl b)
    → lock_bit (gs.host_tbl b) ≡ 0
    → index_of (gs.host_tbl b).saddr a ≡ none
    → let (idx, gs') = host_insert p b a gs in
      Outcome
        (gs.host_tbl b)
        a
        (time_age p gs)
        0
        (u32 (gs.hp_size + 1) % 2 ^ 18)
        idx
        (gs'.host_tbl b)
host_insert_lem p b a gs ne w free new =
    let locked = bucket-acquire p b a gs in
    let w1 : IsHtbucket ((acquire b gs).host_tbl b) = rw locked (IsHtbucket-lock 1 w) in
    let new1 : index_of ((acquire b gs).host_tbl b).saddr a ≡ none = rw locked new in
    let probe = probe_bucket_lem ((acquire b gs).host_tbl b) a w1.keys ∙ new1 in
    rw (host_insert_open p b a gs free, insert_locked-none p b a (acquire b gs) probe)
      (rw (bucket-release p b a (insert_new p b a (acquire b gs)).1) (
        Outcome-unlocked (gs.host_tbl b) _ a _ 0 _ _
          (rw locked at (insert_acquired p b a gs ne w1 new1))))
