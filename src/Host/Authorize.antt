-- ===== src/Host/Authorize.antt =====
-- `host_insert_authorized`: what it does to the bucket of a host, present or not.
use ntfw.Common.{ℕ, ◌%◌, ◌^◌, ◌≡◌, ◌≢◌, ◌<◌, arith, refl, ap, sym, subst, ◌==◌, ◌∙◌}
use ntfw.Common.{Option, none, some, length, get_or, if◌then◌else◌}
use ntfw.Common.{
  get_or-set_self, get_or-set_ne, Option-cases, inl, inr, Bool-cases, update_self, ltb, not, max,
  bit_and, ◌/◌,
}
use native.Mathlib.Decide.{ℕ_discrete}
use native.Mathlib.Nat.{mod-eq_of_lt}
use ntfw.State.{HostCtrl, Htbucket, Gs, zero_ctrl, ctrl_at, lock_bit, with_reserved}
use ntfw.State.{with_bucket, count, Counters, htb_conflicts_inc, htb_collisions_inc, htb_age_mask}
use ntfw.Host.{write_entry, allocate, acquire, release, time_age, probe_bucket, raise_pri}
use ntfw.Host.{fill_authorized, insert_new_authorized, insert_authorized_locked}
use ntfw.Host.{host_insert_authorized}
use ntfw.Host.Probe.{index_of, probe_bucket_lem}
use ntfw.Host.Keys.{index_of-some}
use ntfw.Host.Bucket.{IsHtbucket, host_entry, host_entry-with_reserved, IsHtbucket-lock, entry_of}
use ntfw.Host.Bucket.{same_after_set}
use ntfw.Host.Allocate.{allocate_free, allocate_full, FullOutcome, evicted, marked}
use ntfw.Host.Allocate.{used-le}
use ntfw.Host.Place.{mark_last, Placed-free, Placed-victim}
use ntfw.Host.Outcome.{Outcome, placed, refused, Outcome-unlocked}
use ntfw.Host.Insert.{time_age-lt, marked-host_tbl, bucket-acquire, bucket-release}

module _ (p b a priority : ℕ) (gs : Gs) (ne : a ≢ 0) (w : IsHtbucket (gs.host_tbl b))
    (fits_pri : priority < 2 ^ 2) (new : index_of (gs.host_tbl b).saddr a ≡ none) where
  abbrev bucket : Htbucket
  bucket = gs.host_tbl b

  abbrev Ends : Option ℕ × Gs → Type 0
  Ends r =
      let r' = fill_authorized p b a (time_age p gs) priority r in
      Outcome bucket a (time_age p gs) priority 0 r'.0 (r'.1.host_tbl b)

  fits : (time_age p gs < 2 ^ 11) × (priority < 2 ^ 2) × (0 < 2 ^ 18)
  fits = (time_age-lt p gs, fits_pri, omega arith)

  written_bucket :
      (gs1 : Gs) (htb1 : Htbucket) (i : ℕ)
      → gs1.host_tbl b ≡ htb1
      → (with_bucket gs1 b (write_entry (gs1.host_tbl b) i a (time_age p gs) priority 0)).host_tbl b
        ≡ write_entry htb1 i a (time_age p gs) priority 0
  written_bucket gs1 htb1 i e =
      update_self gs1.host_tbl b _ ∙ ap (λ h. write_entry h i a (time_age p gs) priority 0) e

  full_bucket :
      w.used ≡ 8 → FullOutcome b (time_age p gs) 0 gs w → Ends (allocate b (time_age p gs) 0 gs)
  unfolding fill_authorized
  full_bucket full (k, victim, inl (low, e)) = subst Ends (sym e) (
      placed k refl (
        rw (written_bucket (evicted b (time_age p gs) 0 gs w k) bucket k refl) (
          Placed-victim bucket a (time_age p gs) priority 0 ne fits w new k full victim
            (omega arith))))
  full_bucket full (k, victim, inr (high, e)) =
      subst Ends (sym e) (
        refused refl (λ j h. omega (arith, victim.lowest j (omega (arith, w.blocks)))) w
          (λ c. refl))

  new_authorized_lem :
      Outcome bucket a
        (time_age p gs)
        priority
        0
        (insert_new_authorized p b a priority gs).0
        ((insert_new_authorized p b a priority gs).1.host_tbl b)
  unfolding insert_new_authorized fill_authorized
  new_authorized_lem = elim (ℕ_discrete w.used 8) [
    | no free ↦
        let h : w.used < 8 = omega (arith, used-le w) in
        let (tbl, size) = marked-host_tbl b gs w in
        subst Ends (sym (allocate_free b (time_age p gs) 0 gs w h)) (
          placed w.used refl (
            rw
              (written_bucket (marked b (time_age p gs) 0 gs w) (mark_last bucket w.used) w.used
                tbl)
              (Placed-free bucket a (time_age p gs) priority 0 ne fits w new h)))
    | yes full ↦ full_bucket full (allocate_full b (time_age p gs) 0 gs w full (time_age-lt p gs))
  ]

time-count : (p : ℕ) (f : Counters → Counters) (gs : Gs) → time_age p (count p f gs) ≡ time_age p gs
time-count p f gs =
    ap (λ c. bit_and (c.ts_msec / 2 ^ 10) htb_age_mask)
      (update_self gs.cpuls p (record (gs.cpuls p) { sc = f (gs.cpuls p).sc }))

module _ (p b a priority : ℕ) (gs : Gs) where
  -- The state once the lock is held.
  abbrev pub held : Gs
  held =
      acquire b (if not (lock_bit (gs.host_tbl b) == 0) then count p htb_conflicts_inc gs else gs)

  bucket-held : held.host_tbl b ≡ with_reserved (gs.host_tbl b) 0 1
  bucket-held = elim (Bool-cases (not (lock_bit (gs.host_tbl b) == 0))) [
    | inl e ↦ rw e (bucket-acquire p b a (count p htb_conflicts_inc gs))
    | inr e ↦ rw e (bucket-acquire p b a gs)
  ]

  time-held : time_age p held ≡ time_age p gs
  unfolding acquire
  time-held = elim (Bool-cases (not (lock_bit (gs.host_tbl b) == 0))) [
    | inl e ↦ rw e (time-count p htb_conflicts_inc gs)
    | inr e ↦ rw e refl
  ]

  pub authorized_open : host_insert_authorized p b a priority gs ≡ (
    (insert_authorized_locked p b a priority held).0,
    release b (insert_authorized_locked p b a priority held).1,
  )
  unfolding host_insert_authorized
  authorized_open = refl

  locked_none :
      probe_bucket (held.host_tbl b) a ≡ none
      → insert_authorized_locked p b a priority held ≡ insert_new_authorized p b a priority held
  unfolding insert_authorized_locked
  locked_none e = rw (e, insert_authorized_locked) refl

  locked_some :
      (i : ℕ)
      → probe_bucket (held.host_tbl b) a ≡ some i
      → insert_authorized_locked p b a priority held ≡ (
        some i,
        (let gs' = count p htb_collisions_inc held in
            with_bucket gs' b (raise_pri (gs'.host_tbl b) i priority)),
      )
  unfolding insert_authorized_locked
  locked_some i e = rw (e, insert_authorized_locked) refl

  held-IsHtbucket : IsHtbucket (gs.host_tbl b) → IsHtbucket (held.host_tbl b)
  held-IsHtbucket w = rw bucket-held (IsHtbucket-lock 1 w)

-- A host that is not in its bucket is inserted with the priority asked for, at the current age:
-- it takes a free entry, or that of the oldest unauthorized host; no other
-- host's entry changes, and the bucket keeps its invariant. Only when all eight hosts have a
-- priority, whichever it is, nothing is inserted, and then no entry changes.
pub host_insert_authorized_new :
    (p b a priority : ℕ) (gs : Gs)
    → a ≢ 0
    → priority < 2 ^ 2
    → IsHtbucket (gs.host_tbl b)
    → index_of (gs.host_tbl b).saddr a ≡ none
    → let (idx, gs') = host_insert_authorized p b a priority gs in
      Outcome (gs.host_tbl b) a (time_age p gs) priority 0 idx (gs'.host_tbl b)
host_insert_authorized_new p b a priority gs ne fits w new =
    let h = held p b a priority gs in
    let locked = bucket-held p b a priority gs in
    let w1 = held-IsHtbucket p b a priority gs w in
    let new1 : index_of (h.host_tbl b).saddr a ≡ none = rw locked new in
    let probe = probe_bucket_lem (h.host_tbl b) a w1.keys ∙ new1 in
    let core =
      rw (locked, time-held p b a priority gs) at
        (new_authorized_lem p b a priority h ne w1 fits new1) in
    rw (authorized_open p b a priority gs, locked_none p b a priority gs probe)
      (rw (bucket-release p b a (insert_new_authorized p b a priority h).1)
        (Outcome-unlocked (gs.host_tbl b) _ a _ priority 0 _ core))

module _ (htb : Htbucket) (a i priority : ℕ) (fits : priority < 2 ^ 2) where
  abbrev raised : HostCtrl
  raised = record (ctrl_at htb i) { pri = priority % 2 ^ 2 }

  raise_pri_self :
      IsHtbucket htb
      → index_of htb.saddr a ≡ some i
      → host_entry (raise_pri htb i priority) a
        ≡ some ((ctrl_at htb i).age, max (ctrl_at htb i).pri priority, (ctrl_at htb i).ptr)
  unfolding raise_pri
  raise_pri_self w e =
      let inside : i < length htb.ctrl =
        omega (arith, w.blocks, w.keys, (index_of-some htb.saddr a i e).0) in
      elim (Bool-cases (ltb (ctrl_at htb i).pri priority)) [
        | inl up ↦
            rw (up, e, get_or-set_self htb.ctrl i raised zero_ctrl inside)
              (ground (arith, mod-eq_of_lt fits))
        | inr down ↦ rw (down, e) (ground arith)
      ]

  raise_pri_ne :
      (c : ℕ)
      → a ≢ c
      → index_of htb.saddr a ≡ some i
      → host_entry (raise_pri htb i priority) c ≡ host_entry htb c
  unfolding raise_pri
  raise_pri_ne c ne e = elim (Bool-cases (ltb (ctrl_at htb i).pri priority)) [
    | inl up ↦ rw up (elim (Option-cases (index_of htb.saddr c)) [
      | inl none_c ↦ rw none_c refl
      | inr (j, e_c) ↦ rw e_c (
          ap (λ x. some (entry_of x))
            (get_or-set_ne htb.ctrl i j raised zero_ctrl (λ q. ne (
              sym (index_of-some htb.saddr a i e).1
              ∙ ap (λ k. get_or htb.saddr k 0) q
              ∙ (index_of-some htb.saddr c j e_c).1))))
    ])
    | inr down ↦ rw down refl
  ]

known_bucket :
    (p b a priority i : ℕ) (gs : Gs)
    → IsHtbucket (gs.host_tbl b)
    → index_of (gs.host_tbl b).saddr a ≡ some i
    → let (idx, gs') = host_insert_authorized p b a priority gs in
      (idx ≡ some i)
      × (gs'.host_tbl b
          ≡ with_reserved (raise_pri (with_reserved (gs.host_tbl b) 0 1) i priority) 0 0)
known_bucket p b a priority i gs w e =
    let h = held p b a priority gs in
    let locked = bucket-held p b a priority gs in
    let found : index_of (h.host_tbl b).saddr a ≡ some i = rw locked e in
    let w1 = held-IsHtbucket p b a priority gs w in
    let probe = probe_bucket_lem (h.host_tbl b) a w1.keys ∙ found in
    let last = with_bucket (count p htb_collisions_inc h) b (raise_pri (h.host_tbl b) i priority) in
    rw (authorized_open p b a priority gs, locked_some p b a priority gs i probe)
      (
        refl,
        bucket-release p b a last
            ∙ ap (λ x. with_reserved x 0 0) (update_self h.host_tbl b _)
            ∙ ap (λ x. with_reserved (raise_pri x i priority) 0 0) locked,
      )

-- A host that is in its bucket keeps its age and its host state, and its priority is raised to
-- the one asked for and never lowered; no other host's entry changes.
pub host_insert_authorized_known :
    (p b a priority i : ℕ) (gs : Gs)
    → priority < 2 ^ 2
    → IsHtbucket (gs.host_tbl b)
    → index_of (gs.host_tbl b).saddr a ≡ some i
    → let (idx, gs') = host_insert_authorized p b a priority gs in
      let old = ctrl_at (gs.host_tbl b) i in
      (idx ≡ some i)
      × (host_entry (gs'.host_tbl b) a ≡ some (old.age, max old.pri priority, old.ptr))
      × ((c : ℕ) → a ≢ c → host_entry (gs'.host_tbl b) c ≡ host_entry (gs.host_tbl b) c)
host_insert_authorized_known p b a priority i gs fits w e =
    let end = known_bucket p b a priority i gs w e in
    let htb = gs.host_tbl b in
    let old = same_after_set entry_of htb.ctrl 0 i (record (ctrl_at htb 0) { reserved = 1 }) refl in
    (
      end.0,
      rw end.1 (
          host_entry-with_reserved (raise_pri (with_reserved htb 0 1) i priority) 0 0 a
          ∙ raise_pri_self (with_reserved htb 0 1) a i priority fits (IsHtbucket-lock 1 w) e
          ∙ ap (λ x. some (x.0, max x.1 priority, x.2)) old),
      λ c ne. rw end.1 (
          host_entry-with_reserved (raise_pri (with_reserved htb 0 1) i priority) 0 0 c
          ∙ raise_pri_ne (with_reserved htb 0 1) a i priority fits c ne e
          ∙ host_entry-with_reserved htb 0 1 c),
    )
