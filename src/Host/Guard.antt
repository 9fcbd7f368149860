-- ===== src/Host/Guard.antt =====
-- What the operations of the table do to its entries, one by one: only entries without priority
-- are given away, and only the host that an authorization names gains a priority.
use ntfw.Common.{
  ℕ, ◌%◌, ◌^◌, ◌≤◌, ◌≡◌, ◌<◌, arith, refl, ap, sym, subst, ◌∙◌, ◌==◌, not, ltb, length,
  if◌then◌else◌,
}
use ntfw.Common.{Option, none, some, inl, inr, Bool-cases, Option-cases, update_self}
use ntfw.State.{Gs, ctrl_at, count, lock_bit, exhausted, with_bucket, with_reserved}
use ntfw.State.{host_pri_none, htb_conflicts_inc, htb_collisions_inc}
use ntfw.Host.{allocate, host_allocate, fill_entry, insert_new, insert_locked, host_insert}
use ntfw.Host.{acquire, release, time_age, probe_bucket, evict_scan, fill_authorized}
use ntfw.Host.{insert_new_authorized, insert_authorized_locked, host_insert_authorized}
use ntfw.Host.{write_entry, raise_pri}
use ntfw.Host.Probe.{probe_bucket_lem}
use ntfw.Host.Keys.{index_of-some}
use ntfw.Host.Insert.{host_allocate_lem}
use ntfw.Host.Authorize.{held, authorized_open}
use ntfw.Host.Slots.{
  Guarded, GuardedBucket-refl, GuardedBucket-trans, FreeSlot, with_bucket-Guarded,
  with_reserved-slots, write_entry-slots, raise_pri-slots, key_at,
}

-- Every bucket has eight keys.
abbrev pub IsWide : Gs → Type 0
IsWide gs = (b : ℕ) → length (gs.host_tbl b).saddr ≡ 8

module _ (S : ℕ → Type 0) where
  pub Guarded-IsWide : (gs gs' : Gs) → Guarded S gs gs' → IsWide gs → IsWide gs'
  Guarded-IsWide gs gs' g w b = (g b).wide ∙ w b

  pub Guarded-refl : (gs : Gs) → Guarded S gs gs
  Guarded-refl gs b = GuardedBucket-refl S (gs.host_tbl b)

  pub Guarded-trans : (x y z : Gs) → Guarded S x y → Guarded S y z → Guarded S x z
  Guarded-trans x y z f g b =
      GuardedBucket-trans S (x.host_tbl b) (y.host_tbl b) (z.host_tbl b) (f b) (g b)

  bit-Guarded :
      (gs : Gs) (b i v : ℕ) → Guarded S gs (with_bucket gs b (with_reserved (gs.host_tbl b) i v))
  bit-Guarded gs b i v =
      with_bucket-Guarded S gs b (with_reserved (gs.host_tbl b) i v)
        (with_reserved-slots S (gs.host_tbl b) i v)

  -- What `allocate` returns: its index is of an entry that is free, or has no priority.
  record Allocated (b : ℕ) (gs : Gs) (r : Option ℕ × Gs) : Type 0 where
    pub guarded : Guarded S gs r.1
    pub free : (i : ℕ) → r.0 ≡ some i → FreeSlot (r.1.host_tbl b) i

  -- The index that is returned is the one found.
  at_index : {k : ℕ} (P : ℕ → Type 0) → P k → (i : ℕ) → ◌≡◌ {A = Option ℕ} (some k) (some i) → P i
  at_index {k} P h i e = let same : k ≡ i = cc in subst P same h

  found_free :
      (b k : ℕ) (gs : Gs)
      → IsWide gs
      → probe_bucket (gs.host_tbl b) 0 ≡ some k
      → key_at (gs.host_tbl b) k ≡ 0
  found_free b k gs w e =
      (index_of-some (gs.host_tbl b).saddr 0 k
        (sym (probe_bucket_lem (gs.host_tbl b) 0 (w b)) ∙ e)).1

  allocate-Allocated :
      (b tsec : ℕ) (gs : Gs) → IsWide gs → Allocated b gs (allocate b tsec host_pri_none gs)
  unfolding allocate
  allocate-Allocated b tsec gs w = elim (Bool-cases (exhausted (gs.host_tbl b) == 0)) [
    | inl e ↦ elim (Option-cases (probe_bucket (gs.host_tbl b) 0)) [
      | inl q ↦ rw (e, q) (record { guarded = Guarded-refl gs; free = λ i at. cc })
      | inr (k, q) ↦ elim (Bool-cases (k == 7)) [
        | inl last ↦
            rw (e, q, last)
              (record {
                guarded = bit-Guarded gs b 1 1;
                free = at_index (FreeSlot _) (
                    inl
                      (ap (λ h. key_at h k) (update_self gs.host_tbl b _) ∙ found_free b k gs w q));
              })
        | inr more ↦
            rw (e, q, more)
              (record {
                guarded = Guarded-refl gs;
                free = at_index (FreeSlot (gs.host_tbl b)) (inl (found_free b k gs w q));
              })
      ]
    ]
    | inr e ↦ elim (Option-cases (evict_scan (gs.host_tbl b).ctrl tsec 0 0xffff none)) [
      | inl q ↦ rw (e, q) (record { guarded = Guarded-refl gs; free = λ i at. cc })
      | inr (k, q) ↦ elim (Bool-cases (ltb host_pri_none (ctrl_at (gs.host_tbl b) k).pri)) [
        | inl high ↦ rw (e, q, high) (record { guarded = Guarded-refl gs; free = λ i at. cc })
        | inr low ↦
            rw (e, q, low)
              (record {
                guarded = Guarded-refl gs;
                free = at_index (FreeSlot (gs.host_tbl b)) (inr (ground arith));
              })
      ]
    ]
  ]

  -- An entry that was allocated is written.
  filled :
      (b i a age pri ptr : ℕ) (gs gs1 : Gs)
      → Allocated b gs (some i, gs1)
      → (gs2 : Gs) → gs2.host_tbl ≡ gs1.host_tbl
      → (1 ≤ pri % 2 ^ 2 → S a)
      → Guarded S gs (with_bucket gs2 b (write_entry (gs2.host_tbl b) i a age pri ptr))
  filled b i a age pri ptr gs gs1 w gs2 same allowed =
      let old : Guarded S gs gs2 = λ c. rw same (w.guarded c) in
      let free : FreeSlot (gs2.host_tbl b) i = rw same (w.free i refl) in
      Guarded-trans gs gs2 (with_bucket gs2 b (write_entry (gs2.host_tbl b) i a age pri ptr)) old (
        with_bucket-Guarded S gs2 b (write_entry (gs2.host_tbl b) i a age pri ptr)
          (write_entry-slots S (gs2.host_tbl b) i a age pri ptr free allowed))

  module _ (p b a : ℕ) where
    fill_entry-Guarded :
        (tsec : ℕ) (idx : Option ℕ) (gs gs1 : Gs)
        → Allocated b gs (idx, gs1)
        → Guarded S gs (fill_entry p b a tsec (idx, gs1)).1
    unfolding fill_entry
    fill_entry-Guarded tsec none gs gs1 w = w.guarded
    fill_entry-Guarded tsec (some i) gs gs1 w =
        filled b i a tsec host_pri_none (host_allocate p gs1).0 gs gs1 w (host_allocate p gs1).1
          (host_allocate_lem p gs1).1 (λ h. absurd (omega arith))

    insert_locked-Guarded : (gs : Gs) → IsWide gs → Guarded S gs (insert_locked p b a gs).1
    unfolding insert_locked insert_new
    insert_locked-Guarded gs w = elim (Option-cases (probe_bucket (gs.host_tbl b) a)) [
      | inr (k, e) ↦ rw (insert_locked, e) (Guarded-refl gs)
      | inl e ↦
          let r = allocate b (time_age p gs) host_pri_none gs in
          rw (insert_locked, e)
            (fill_entry-Guarded (time_age p gs) r.0 gs r.1
              (allocate-Allocated b (time_age p gs) gs w))
    ]

    -- `host_insert` gives no host a priority and takes none away.
    pub host_insert-Guarded : (gs : Gs) → IsWide gs → Guarded S gs (host_insert p b a gs).1
    unfolding host_insert acquire release
    host_insert-Guarded gs w = elim (Bool-cases (lock_bit (gs.host_tbl b) == 0)) [
      | inr e ↦ rw e (Guarded-refl gs)
      | inl e ↦
          let held = acquire b gs in
          let done = (insert_locked p b a held).1 in
          let taken : Guarded S gs held = bit-Guarded gs b 0 1 in
          rw e (
            Guarded-trans gs done (release b done)
              (Guarded-trans gs held done taken
                (insert_locked-Guarded held (Guarded-IsWide gs held taken w)))
              (bit-Guarded done b 0 0))
    ]

  module _ (p b a priority : ℕ) (allowed : S a) where
    fill_authorized-Guarded :
        (tsec : ℕ) (idx : Option ℕ) (gs gs1 : Gs)
        → Allocated b gs (idx, gs1)
        → Guarded S gs (fill_authorized p b a tsec priority (idx, gs1)).1
    unfolding fill_authorized
    fill_authorized-Guarded tsec none gs gs1 w = w.guarded
    fill_authorized-Guarded tsec (some i) gs gs1 w =
        filled b i a tsec priority 0 gs gs1 w gs1 refl (λ h. allowed)

    known_here :
        (k : ℕ) (gs : Gs)
        → IsWide gs
        → probe_bucket (gs.host_tbl b) a ≡ some k
        → key_at (gs.host_tbl b) k ≡ a
    known_here k gs w e =
        (index_of-some (gs.host_tbl b).saddr a k
          (sym (probe_bucket_lem (gs.host_tbl b) a (w b)) ∙ e)).1

    authorized_locked-Guarded :
        priority < 2 ^ 2
        → (gs : Gs) → IsWide gs
        → Guarded S gs (insert_authorized_locked p b a priority gs).1
    unfolding insert_authorized_locked insert_new_authorized
    authorized_locked-Guarded fits gs w = elim (Option-cases (probe_bucket (gs.host_tbl b) a)) [
      | inl e ↦
          let tsec = time_age p gs in
          let r = allocate b tsec host_pri_none gs in
          rw (insert_authorized_locked, e)
            (fill_authorized-Guarded tsec r.0 gs r.1 (allocate-Allocated b tsec gs w))
      | inr (k, e) ↦
          rw (insert_authorized_locked, e)
            (with_bucket-Guarded S (count p htb_collisions_inc gs) b
              (raise_pri (gs.host_tbl b) k priority)
              (raise_pri-slots S (gs.host_tbl b) k a priority fits (known_here k gs w e) allowed))
    ]

    -- `host_insert_authorized` gives a priority to the host that it is called for at most, and
    -- takes none away.
    pub host_insert_authorized-Guarded :
        priority < 2 ^ 2
        → (gs : Gs) → IsWide gs
        → Guarded S gs (host_insert_authorized p b a priority gs).1
    host_insert_authorized-Guarded fits gs w =
        let start =
          if not (lock_bit (gs.host_tbl b) == 0) then count p htb_conflicts_inc gs else gs in
        let counted : Guarded S gs start = elim (Bool-cases (not (lock_bit (gs.host_tbl b) == 0))) [
          | inl e ↦ rw e (Guarded-refl gs)
          | inr e ↦ rw e (Guarded-refl gs)
        ] in
        let taken : Guarded S gs (held p b a priority gs) =
          unfold acquire in
          Guarded-trans gs start (acquire b start) counted (bit-Guarded start b 0 1) in
        let locked = held p b a priority gs in
        let done = (insert_authorized_locked p b a priority locked).1 in
        let freed : Guarded S done (release b done) = unfold release in bit-Guarded done b 0 0 in
        rw (authorized_open p b a priority gs) (
          Guarded-trans gs done (release b done)
            (Guarded-trans gs locked done taken
              (authorized_locked-Guarded fits locked (Guarded-IsWide gs locked taken w)))
            freed)
