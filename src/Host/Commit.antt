-- ===== src/Host/Commit.antt =====
-- The pool of host states under the other operations of the table: none of them takes a state,
-- and they point to states that were pointed to before, or to the first one.
use ntfw.Common.{ℕ, zero, suc, ◌+◌, ◌%◌, ◌^◌, ◌≡◌, ◌<◌, ◌≤◌, arith, refl, ◌∙◌, ◌==◌, not, ltb}
use ntfw.Common.{Option, none, some, inl, inr, Bool-cases, Option-cases}
use ntfw.Common.{set}
use ntfw.State.{Gs, HostCtrl, Htbucket, ctrl_at, with_bucket, with_reserved, lock_bit}
use ntfw.State.{host_pri_none, host_pri_static, htbl_size}
use ntfw.Host.{allocate, host_allocate, fill_entry, insert_new, insert_locked, host_insert}
use ntfw.Host.{acquire, release, time_age, probe_bucket, fill_authorized, write_entry, raise_pri}
use ntfw.Host.{insert_new_authorized, insert_authorized_locked, host_insert_authorized}
use ntfw.Host.{clear_entry, clear_bucket, clear_buckets, host_clear_statically_authorized}
use ntfw.Host.Bucket.{same_after_set, written}
use ntfw.Host.Authorize.{held, authorized_open}
use ntfw.Host.Pool.{PoolFits, Same, with_reserved-ptr, allocate-Same, ptr-set, update-ptr}

abbrev ptr_at : Gs → ℕ → ℕ → ℕ
ptr_at gs b i = (ctrl_at (gs.host_tbl b) i).ptr

-- No state is taken, and a bound on the indices stays one.
pub record Tame (gs gs' : Gs) : Type 0 where
  pub size : gs'.hp_size ≡ gs.hp_size
  pub true_size : gs'.hp_true_sz ≡ gs.hp_true_sz
  pub ptrs : (n : ℕ) → 0 < n → ((b i : ℕ) → ptr_at gs b i < n) → (b i : ℕ) → ptr_at gs' b i < n

pub Tame-PoolFits : (gs gs' : Gs) → Tame gs gs' → PoolFits gs → PoolFits gs'
Tame-PoolFits gs gs' t fits = record {
  committed = rw (t.size, t.true_size) fits.committed;
  inside =
      λ b i. rw t.true_size (t.ptrs gs.hp_true_sz (omega (arith, fits.committed)) fits.inside b i);
}

pub Tame-refl : (gs : Gs) → Tame gs gs
Tame-refl gs = record { size = refl; true_size = refl; ptrs = λ n h old. old }

pub Tame-trans : (x y z : Gs) → Tame x y → Tame y z → Tame x z
Tame-trans x y z f g = record {
  size = g.size ∙ f.size;
  true_size = g.true_size ∙ f.true_size;
  ptrs = λ n h old. g.ptrs n h (f.ptrs n h old);
}

Same-Tame : (gs gs' : Gs) → Same gs gs' → Tame gs gs'
Same-Tame gs gs' s = record {
  size = s.size;
  true_size = s.true_size;
  ptrs = λ n h old b i. rw (s.ptrs b i) (old b i);
}

-- A bucket is replaced by one with bounded indices.
bucket-Tame :
    (gs : Gs) (b : ℕ) (htb : Htbucket)
    → ((n : ℕ) → 0 < n → ((i : ℕ) → ptr_at gs b i < n) → (i : ℕ) → (ctrl_at htb i).ptr < n)
    → Tame gs (with_bucket gs b htb)
bucket-Tame gs b htb new = record {
  size = refl;
  true_size = refl;
  ptrs = λ n h old c i. update-ptr gs.host_tbl b n c i htb (new n h (old b) i) (λ d. old d i);
}

bit-Tame : (gs : Gs) (b i v : ℕ) → Tame gs (with_bucket gs b (with_reserved (gs.host_tbl b) i v))
bit-Tame gs b i v =
    bucket-Tame gs b (with_reserved (gs.host_tbl b) i v)
      (λ n h old j. rw (with_reserved-ptr (gs.host_tbl b) i v j) (old j))

-- An entry is written with the first state, which is reserved.
write-Tame :
    (gs : Gs) (b i a age pri : ℕ)
    → Tame gs (with_bucket gs b (write_entry (gs.host_tbl b) i a age pri 0))
unfolding write_entry
write-Tame gs b i a age pri =
    bucket-Tame gs b (write_entry (gs.host_tbl b) i a age pri 0) (λ n h old j.
      ptr-set (gs.host_tbl b).ctrl i j n (written (gs.host_tbl b) i a age pri 0) (omega arith) old)

abbrev raised : Gs → ℕ → ℕ → ℕ → HostCtrl
raised gs b k priority = record (ctrl_at (gs.host_tbl b) k) { pri = priority % 2 ^ 2 }

raise-Tame :
    (gs : Gs) (b k priority : ℕ) → Tame gs (with_bucket gs b (raise_pri (gs.host_tbl b) k priority))
unfolding raise_pri
raise-Tame gs b k priority = elim (Bool-cases (ltb (ctrl_at (gs.host_tbl b) k).pri priority)) [
  | inl up ↦ rw up (
      bucket-Tame gs b
        (record (gs.host_tbl b) { ctrl = set (gs.host_tbl b).ctrl k (raised gs b k priority) })
        (λ n h old j.
          rw (same_after_set (λ c. c.ptr) (gs.host_tbl b).ctrl k j (raised gs b k priority) refl)
            (old j)))
  | inr down ↦ rw down (bucket-Tame gs b (gs.host_tbl b) (λ n h old. old))
]

module _ (p b a priority : ℕ) where
  fill-Tame :
      (tsec : ℕ) (idx : Option ℕ) (gs : Gs)
      → Tame gs (fill_authorized p b a tsec priority (idx, gs)).1
  unfolding fill_authorized
  fill-Tame tsec none gs = Tame-refl gs
  fill-Tame tsec (some i) gs = write-Tame gs b i a tsec priority

  locked-Tame : (gs : Gs) → Tame gs (insert_authorized_locked p b a priority gs).1
  unfolding insert_authorized_locked insert_new_authorized
  locked-Tame gs = elim (Option-cases (probe_bucket (gs.host_tbl b) a)) [
    | inl e ↦
        let tsec = time_age p gs in
        let r = allocate b tsec host_pri_none gs in
        rw (insert_authorized_locked, e)
          (Tame-trans gs r.1 (fill_authorized p b a tsec priority r).1
            (Same-Tame gs r.1 (allocate-Same b tsec host_pri_none gs)) (fill-Tame tsec r.0 r.1))
    | inr (k, e) ↦
        let t = raise-Tame gs b k priority in
        rw (insert_authorized_locked, e)
          (record { size = t.size; true_size = t.true_size; ptrs = t.ptrs })
  ]

  held-Tame : (gs : Gs) → Tame gs (held p b a priority gs)
  unfolding acquire
  held-Tame gs = elim (Bool-cases (not (lock_bit (gs.host_tbl b) == 0))) [
    | inl e ↦ rw e (
        let t = bit-Tame gs b 0 1 in
        record { size = t.size; true_size = t.true_size; ptrs = t.ptrs })
    | inr e ↦ rw e (bit-Tame gs b 0 1)
  ]

  pub host_insert_authorized-Tame : (gs : Gs) → Tame gs (host_insert_authorized p b a priority gs).1
  unfolding release
  host_insert_authorized-Tame gs =
      let start = held p b a priority gs in
      let done = (insert_authorized_locked p b a priority start).1 in
      rw (authorized_open p b a priority gs) (
        Tame-trans gs done (release b done)
          (Tame-trans gs start done (held-Tame gs) (locked-Tame start)) (bit-Tame done b 0 0))

clear_entry-Tame : (b k : ℕ) (gs : Gs) → Tame gs (clear_entry b k gs)
unfolding clear_entry
clear_entry-Tame b k gs =
    let htb = gs.host_tbl b in
    elim (Bool-cases ((ctrl_at htb k).pri == host_pri_static)) [
      | inr e ↦ rw e (Tame-refl gs)
      | inl e ↦
          let without = record htb { saddr = set htb.saddr k 0 } in
          let t =
            bucket-Tame gs b (with_reserved without 1 0)
              (λ n h old j. rw (with_reserved-ptr without 1 0 j) (old j)) in
          rw e (record { size = t.size; true_size = t.true_size; ptrs = t.ptrs })
    ]

clear_bucket-Tame : (n k b : ℕ) (gs : Gs) → Tame gs (clear_bucket n k b gs)
unfolding clear_bucket
clear_bucket-Tame zero k b gs = Tame-refl gs
clear_bucket-Tame (suc n) k b gs =
    let one = clear_entry b k gs in
    Tame-trans gs one (clear_bucket n (k + 1) b one) (clear_entry-Tame b k gs)
      (clear_bucket-Tame n (k + 1) b one)

clear_buckets-Tame : (n b : ℕ) (gs : Gs) → Tame gs (clear_buckets n b gs)
unfolding clear_buckets
clear_buckets-Tame zero b gs = Tame-refl gs
clear_buckets-Tame (suc n) b gs =
    let one = clear_bucket 8 0 b gs in
    Tame-trans gs one (clear_buckets n (b + 1) one) (clear_bucket-Tame 8 0 b gs)
      (clear_buckets-Tame n (b + 1) one)

pub clear-Tame : (gs : Gs) → Tame gs (host_clear_statically_authorized gs)
unfolding host_clear_statically_authorized
clear-Tame gs = clear_buckets-Tame htbl_size 0 gs

module _ (p b a : ℕ) where
  fill_entry-size :
      (tsec : ℕ) (idx : Option ℕ) (gs : Gs)
      → (fill_entry p b a tsec (idx, gs)).1.hp_size ≤ gs.hp_size + 1
  unfolding fill_entry host_allocate
  fill_entry-size tsec none gs = omega arith
  fill_entry-size tsec (some i) gs = ground arith

  insert_locked-size : (gs : Gs) → (insert_locked p b a gs).1.hp_size ≤ gs.hp_size + 1
  unfolding insert_locked insert_new
  insert_locked-size gs = elim (Option-cases (probe_bucket (gs.host_tbl b) a)) [
    | inl e ↦
        let tsec = time_age p gs in
        let r = allocate b tsec host_pri_none gs in
        rw (insert_locked, e)
          (omega
            (arith, fill_entry-size tsec r.0 r.1, (allocate-Same b tsec host_pri_none gs).size))
    | inr (k, e) ↦ rw (insert_locked, e) (omega arith)
  ]

  -- An insertion takes one state at most.
  pub host_insert-size : (gs : Gs) → (host_insert p b a gs).1.hp_size ≤ gs.hp_size + 1
  unfolding host_insert acquire release
  host_insert-size gs = elim (Bool-cases (lock_bit (gs.host_tbl b) == 0)) [
    | inl e ↦ rw e (insert_locked-size (acquire b gs))
    | inr e ↦ rw e (omega arith)
  ]
