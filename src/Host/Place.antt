-- ===== src/Host/Place.antt =====
-- The bucket after `allocate` and the write of the entry: the new host is in it, and no other
-- host is touched but the one evicted.
use ntfw.Common.{ℕ, suc, ◌%◌, ◌^◌, ◌≡◌, ◌≢◌, ◌<◌, arith, refl, ap, ◌==◌, ◌∙◌}
use ntfw.Common.{Option, none, some, length, if◌then◌else◌, length-set}
use ntfw.Common.{All, get_or-set_self, inl, inr, Bool-cases}
use native.Mathlib.Decide.{ℕ_discrete}
use native.Mathlib.Nat.{mod-eq_of_lt}
use ntfw.State.{Htbucket, zero_ctrl, ctrl_at, exhausted, with_reserved}
use ntfw.Host.{write_entry}
use ntfw.Host.Probe.{index_of}
use ntfw.Host.Evict.{IsCtrl, IsVictim}
use ntfw.Host.Keys.{IsPacked-push, packed_first_free, index_of-some}
use ntfw.Host.Bucket.{IsHtbucket, host_entry, All-set, written, written-IsCtrl, bits-write_entry}
use ntfw.Host.Bucket.{IsCtrl-get_or, host_entry-write_self, host_entry-write_ne}
use ntfw.Host.Bucket.{host_entry-with_reserved, write_entry-IsHtbucket}
use ntfw.Host.Allocate.{Placed}

All-reserved :
    (htb : Htbucket) (i v : ℕ) → All IsCtrl htb.ctrl → All IsCtrl (with_reserved htb i v).ctrl
All-reserved htb i v w =
    let c = IsCtrl-get_or htb.ctrl i w in
    All-set htb.ctrl i _ w
      (record { age_fits = c.age_fits; pri_fits = c.pri_fits; ptr_fits = c.ptr_fits })

-- The bucket with its last free entry about to be taken.
abbrev pub mark_last : Htbucket → ℕ → Htbucket
mark_last htb n = if n == 7 then with_reserved htb 1 1 else htb

module _ (htb : Htbucket) (n : ℕ) where
  mark_last-saddr : (mark_last htb n).saddr ≡ htb.saddr
  mark_last-saddr = elim (Bool-cases (n == 7)) [ inl e ↦ rw e refl | inr e ↦ rw e refl ]

  mark_last-entry : (c : ℕ) → host_entry (mark_last htb n) c ≡ host_entry htb c
  mark_last-entry c = elim (Bool-cases (n == 7)) [
    | inl e ↦ rw e (host_entry-with_reserved htb 1 1 c)
    | inr e ↦ rw e refl
  ]

  mark_last-blocks : length htb.ctrl ≡ 8 → length (mark_last htb n).ctrl ≡ 8
  mark_last-blocks h = elim (Bool-cases (n == 7)) [
    | inl e ↦ rw e (length-set htb.ctrl 1 _ ∙ h)
    | inr e ↦ rw e h
  ]

  mark_last-fields : All IsCtrl htb.ctrl → All IsCtrl (mark_last htb n).ctrl
  mark_last-fields v = elim (Bool-cases (n == 7)) [
    | inl e ↦ rw e (All-reserved htb 1 1 v)
    | inr e ↦ rw e v
  ]

  mark_last-full :
      (w : IsHtbucket htb)
      → w.used ≡ n
      → n < 8
      → exhausted (mark_last htb n) ≡ (if suc n == 8 then 1 else 0)
  mark_last-full w e h = elim (ℕ_discrete n 7) [
    | yes seven ↦ rw seven (
        ap (λ c. c.reserved)
          (get_or-set_self htb.ctrl 1 (record (ctrl_at htb 1) { reserved = 1 }) zero_ctrl
            (omega (arith, w.blocks))))
    | no other ↦ ground (arith, w.full)
  ]

module _ (htb : Htbucket) (a age pri ptr : ℕ) (ne : a ≢ 0)
    (fits : (age < 2 ^ 11) × (pri < 2 ^ 2) × (ptr < 2 ^ 18)) where
  fits_eq :
      {o : Option (ℕ × ℕ × ℕ)}
      → o ≡ some (age % 2 ^ 11, pri % 2 ^ 2, ptr % 2 ^ 18)
      → o ≡ some (age, pri, ptr)
  fits_eq e = e ∙ ground (arith, mod-eq_of_lt fits.0, mod-eq_of_lt fits.1, mod-eq_of_lt fits.2)

  module _ (w : IsHtbucket htb) (new : index_of htb.saddr a ≡ none) where
    -- The entry `n` of a bucket whose first `n` entries are in use.
    fill_next :
        (htb1 : Htbucket)
        → htb1.saddr ≡ htb.saddr
        → length htb1.ctrl ≡ 8
        → All IsCtrl htb1.ctrl
        → exhausted htb1 ≡ (if suc w.used == 8 then 1 else 0)
        → w.used < 8
        → IsHtbucket (write_entry htb1 w.used a age pri ptr)
    fill_next htb1 same blocks fields full h = record {
      used = suc w.used;
      keys = unfold write_entry in length-set htb1.saddr w.used a ∙ ap length same ∙ w.keys;
      blocks =
          unfold write_entry in
          length-set htb1.ctrl w.used (written htb1 w.used a age pri ptr) ∙ blocks;
      fields =
          unfold write_entry in
          All-set htb1.ctrl w.used (written htb1 w.used a age pri ptr) fields
            (written-IsCtrl htb1 w.used a age pri ptr);
      packed =
          unfold write_entry in
          rw same (IsPacked-push htb.saddr w.used a w.packed (omega (arith, w.keys)) ne);
      full = bits-write_entry htb1 w.used a age pri ptr 1 ∙ full;
    }

    fill_next_marked :
        w.used < 8 → IsHtbucket (write_entry (mark_last htb w.used) w.used a age pri ptr)
    fill_next_marked h =
        fill_next (mark_last htb w.used) (mark_last-saddr htb w.used)
          (mark_last-blocks htb w.used w.blocks) (mark_last-fields htb w.used w.fields)
          (mark_last-full htb w.used w refl h) h

    pub Placed-free :
        w.used < 8
        → Placed htb (write_entry (mark_last htb w.used) w.used a age pri ptr) a age pri ptr w.used
    Placed-free h =
        let m = mark_last htb w.used in
        let same = mark_last-saddr htb w.used in
        let inside : w.used < length htb.saddr = omega (arith, w.keys) in
        let blocks = mark_last-blocks htb w.used w.blocks in
        record {
          sound = fill_next_marked h;
          here = fits_eq (
              host_entry-write_self m w.used a age pri ptr (rw same new) (rw same inside)
                (omega (arith, blocks)));
          others = λ c other old.
              host_entry-write_ne m w.used a age pri ptr c other (rw same old)
              ∙ mark_last-entry htb w.used c;
          taken =
              inl
                (index_of-some htb.saddr 0 w.used
                  (packed_first_free htb.saddr w.used w.packed inside)).1;
        }

    pub Placed-victim :
        (k : ℕ)
        → w.used ≡ 8
        → IsVictim htb.ctrl age k
        → (ctrl_at htb k).pri ≡ 0
        → Placed htb (write_entry htb k a age pri ptr) a age pri ptr k
    Placed-victim k h victim low =
        let inside : k < 8 = omega (arith, victim.inside, w.blocks) in
        record {
          sound = write_entry-IsHtbucket htb k a age pri ptr ne w (omega arith);
          here =
              fits_eq (
                host_entry-write_self htb k a age pri ptr new (omega (arith, w.keys))
                  victim.inside);
          others = host_entry-write_ne htb k a age pri ptr;
          taken = inr (record { victim = victim; unauthorized = low });
        }
