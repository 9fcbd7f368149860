-- ===== src/Host/Pool.antt =====
-- The pool of host states: how far it is committed, and the indices that are taken from it.
use ntfw.Common.{ℕ, ◌+◌, ◌*◌, ◌/◌, ◌%◌, ◌^◌, ◌==◌, leb, ◌≡◌, ◌<◌, ◌≤◌, ◌≢◌, arith, refl, ◌∙◌, false}
use ntfw.Common.{Bool-cases, inl, inr, u32, sub32, bit_and, Option, none, some}
use ntfw.Common.Bits.{bit_and_mask}
use ntfw.Common.{
  get_or, set, update_self, update_ne, Option-cases, ltb, sym, subst, ap, update, List, [], ◌∷◌,
  zero, suc,
}
use native.Mathlib.Decide.{ℕ_discrete}
use ntfw.State.{
  HostCtrl, Htbucket, Gs, ctrl_at, with_bucket, with_reserved, zero_ctrl, host_pri_none,
}
use ntfw.State.{lock_bit, exhausted}
use ntfw.Host.{host_allocate, allocate, fill_entry, insert_new, insert_locked, host_insert}
use ntfw.Host.Bucket.{same_after_set}
use ntfw.Host.Insert.{host_allocate_lem}
use ntfw.Host.{acquire, release, probe_bucket, evict_scan, write_entry, time_age}

-- Growth is ahead of the indices taken by half of its step at least, and every entry of the table
-- points into what is committed.
pub record PoolFits (gs : Gs) : Type 0 where
  pub committed : gs.hp_true_sz ≡ 64 * ((gs.hp_size + 96) / 64)
  pub inside : (b i : ℕ) → (ctrl_at (gs.host_tbl b) i).ptr < gs.hp_true_sz

-- The test of `host_allocate` for a growth, on the index after `n`.
grows_at : (n : ℕ) → n < 2 ^ 31 → bit_and (sub32 (u32 (n + 1)) 32) 63 ≡ (n + 33) % 64
grows_at n few = bit_and_mask 6 (sub32 (u32 (n + 1)) 32) ∙ omega arith

next_index : (n : ℕ) → n < 2 ^ 31 → u32 (n + 1) ≡ n + 1
next_index n few = omega arith

no_wait : (n sz : ℕ) → n < 2 ^ 31 → sz ≡ 64 * ((n + 96) / 64) → leb sz (u32 (n + 1)) ≡ false
no_wait n sz few at = let ahead : n + 1 < sz = omega arith in rw (next_index n few) (ground arith)

-- The size with a growth, and without one.
grown :
    (n sz : ℕ)
    → n < 2 ^ 31
    → sz ≡ 64 * ((n + 96) / 64)
    → (n + 33) % 64 ≡ 0
    → u32 (sz + 64) ≡ 64 * ((n + 1 + 96) / 64)
grown n sz few at e = omega arith

kept : (n sz : ℕ) → sz ≡ 64 * ((n + 96) / 64) → (n + 33) % 64 ≢ 0 → sz ≡ 64 * ((n + 1 + 96) / 64)
kept n sz at ne = omega arith

module _ (p : ℕ) (gs : Gs) (fits : PoolFits gs) (few : gs.hp_size < 2 ^ 31) where
  -- The next index is taken, it is inside what is committed, and no processor waits for it.
  host_allocate_committed :
      let (idx, gs') = host_allocate p gs in
      (idx ≡ gs.hp_size + 1)
      × (idx < gs'.hp_true_sz)
      × (gs'.hp_size ≡ idx)
      × (gs'.hp_true_sz ≡ 64 * ((gs'.hp_size + 96) / 64))
      × (gs'.cpuls ≡ gs.cpuls)
  unfolding host_allocate
  host_allocate_committed =
      let n = gs.hp_size in
      let at = grows_at n few in
      let one = next_index n few in
      elim (Bool-cases ((n + 33) % 64 == 0)) [
        | inl e ↦
            let sz = grown n gs.hp_true_sz few fits.committed (ground arith) in
            rw (at, e, one, sz) (refl, omega arith, refl, refl, refl)
        | inr e ↦
            let wait = no_wait n gs.hp_true_sz few fits.committed in
            let sz = kept n gs.hp_true_sz fits.committed (ground arith) in
            rw (at, e, wait, one) (refl, (omega (arith, sz)), refl, sz, refl)
      ]

-- What `allocate` and the lock leave as it is.
pub record Same (gs gs' : Gs) : Type 0 where
  pub size : gs'.hp_size ≡ gs.hp_size
  pub true_size : gs'.hp_true_sz ≡ gs.hp_true_sz
  pub ptrs : (b i : ℕ) → (ctrl_at (gs'.host_tbl b) i).ptr ≡ (ctrl_at (gs.host_tbl b) i).ptr

Same-PoolFits : (gs gs' : Gs) → Same gs gs' → PoolFits gs → PoolFits gs'
Same-PoolFits gs gs' s fits = record {
  committed = rw (s.size, s.true_size) fits.committed;
  inside = λ b i. rw (s.true_size, s.ptrs b i) (fits.inside b i);
}

Same-refl : (gs : Gs) → Same gs gs
Same-refl gs = record { size = refl; true_size = refl; ptrs = λ b i. refl }

pub with_reserved-ptr :
    (htb : Htbucket) (x y i : ℕ) → (ctrl_at (with_reserved htb x y) i).ptr ≡ (ctrl_at htb i).ptr
with_reserved-ptr htb x y i = same_after_set (λ c. c.ptr) htb.ctrl x i _ refl

with_reserved-Same :
    (gs : Gs) (b x y : ℕ) → Same gs (with_bucket gs b (with_reserved (gs.host_tbl b) x y))
with_reserved-Same gs b x y = record {
  size = refl;
  true_size = refl;
  ptrs = λ c i. elim (ℕ_discrete b c) [
    | yes e ↦
        ap (λ htb. (ctrl_at htb i).ptr)
          (ap (update gs.host_tbl b _) (sym e) ∙ update_self gs.host_tbl b _)
        ∙ with_reserved-ptr (gs.host_tbl b) x y i
        ∙ ap (λ k. (ctrl_at (gs.host_tbl k) i).ptr) e
    | no ne ↦ ap (λ htb. (ctrl_at htb i).ptr) (update_ne gs.host_tbl b c _ ne)
  ];
}

pub allocate-Same : (b tsec pri : ℕ) (gs : Gs) → Same gs (allocate b tsec pri gs).1
unfolding allocate
allocate-Same b tsec pri gs = elim (Bool-cases (exhausted (gs.host_tbl b) == 0)) [
  | inl e ↦ elim (Option-cases (probe_bucket (gs.host_tbl b) 0)) [
    | inl q ↦ rw (e, q) (Same-refl gs)
    | inr (k, q) ↦ elim (Bool-cases (k == 7)) [
      | inl last ↦ rw (e, q, last) (with_reserved-Same gs b 1 1)
      | inr more ↦ rw (e, q, more) (Same-refl gs)
    ]
  ]
  | inr e ↦ elim (Option-cases (evict_scan (gs.host_tbl b).ctrl tsec 0 0xffff none)) [
    | inl q ↦ rw (e, q) (Same-refl gs)
    | inr (k, q) ↦ elim (Bool-cases (ltb pri (ctrl_at (gs.host_tbl b) k).pri)) [
      | inl high ↦ rw (e, q, high) (Same-refl gs)
      | inr low ↦ rw (e, q, low) (record { size = refl; true_size = refl; ptrs = λ c i. refl })
    ]
  ]
]

-- A bound on the pool indices of the blocks is kept by a write within it.
pub ptr-set :
    (cs : List HostCtrl) (k i bound : ℕ) (c : HostCtrl)
    → c.ptr < bound
    → ((j : ℕ) → (get_or cs j zero_ctrl).ptr < bound)
    → (get_or (set cs k c) i zero_ctrl).ptr < bound
ptr-set [] k i bound c new old = old i
ptr-set (x ∷ cs) zero zero bound c new old = new
ptr-set (x ∷ cs) zero (suc i) bound c new old = old (suc i)
ptr-set (x ∷ cs) (suc k) zero bound c new old = old zero
ptr-set (x ∷ cs) (suc k) (suc i) bound c new old = ptr-set cs k i bound c new (λ j. old (suc j))

-- A bucket is replaced by one within the bound.
pub update-ptr :
    (tbl : ℕ → Htbucket) (b bound c i : ℕ) (htb : Htbucket)
    → (ctrl_at htb i).ptr < bound
    → ((d : ℕ) → (ctrl_at (tbl d) i).ptr < bound)
    → (ctrl_at (update tbl b htb c) i).ptr < bound
update-ptr tbl b bound c i htb new old = elim (ℕ_discrete b c) [
  | yes e ↦
      subst (λ d. (ctrl_at (update tbl b htb d) i).ptr < bound) e (rw (update_self tbl b htb) new)
  | no ne ↦ rw (update_ne tbl b c htb ne) (old c)
]

module _ (p b saddr : ℕ) where
  fill_entry-PoolFits :
      (tsec : ℕ) (idx : Option ℕ) (gs : Gs)
      → PoolFits gs
      → gs.hp_size < 2 ^ 31
      → PoolFits (fill_entry p b saddr tsec (idx, gs)).1
  unfolding fill_entry write_entry
  fill_entry-PoolFits tsec none gs fits few = record {
    committed = fits.committed;
    inside = fits.inside;
  }
  fill_entry-PoolFits tsec (some k) gs fits few =
      let (at, below, size, sz, quiet) = host_allocate_committed p gs fits few in
      let gs' = (host_allocate p gs).1 in
      let more : gs.hp_true_sz ≤ gs'.hp_true_sz = omega (arith, at, size, sz, fits.committed) in
      let old : ((c i : ℕ) → (ctrl_at (gs'.host_tbl c) i).ptr < gs'.hp_true_sz) =
        λ c i. rw ((host_allocate_lem p gs).1) (omega (arith, more, fits.inside c i)) in
      record {
        committed = sz;
        inside = λ c i.
            update-ptr gs'.host_tbl b gs'.hp_true_sz c i _
              (ptr-set (gs'.host_tbl b).ctrl k i gs'.hp_true_sz _ (omega (arith, below)) (old b))
              (λ d. old d i);
      }

  insert_new-PoolFits :
      (gs : Gs) → PoolFits gs → gs.hp_size < 2 ^ 31 → PoolFits (insert_new p b saddr gs).1
  unfolding insert_new
  insert_new-PoolFits gs fits few =
      let tsec = time_age p gs in
      let left = allocate b tsec host_pri_none gs in
      let same = allocate-Same b tsec host_pri_none gs in
      fill_entry-PoolFits tsec left.0 left.1 (Same-PoolFits gs left.1 same fits)
        (omega (arith, same.size, few))

  insert_locked-PoolFits :
      (gs : Gs) → PoolFits gs → gs.hp_size < 2 ^ 31 → PoolFits (insert_locked p b saddr gs).1
  unfolding insert_locked
  insert_locked-PoolFits gs fits few = elim (Option-cases (probe_bucket (gs.host_tbl b) saddr)) [
    | inl e ↦ rw (insert_locked, e) (insert_new-PoolFits gs fits few)
    | inr (k, e) ↦
        rw (insert_locked, e) (record { committed = fits.committed; inside = fits.inside })
  ]

  -- `host_insert` keeps the pool committed wherever the table points into it, on every branch, as
  -- long as fewer than 2^31 states have been taken.
  pub host_insert-PoolFits :
      (gs : Gs) → PoolFits gs → gs.hp_size < 2 ^ 31 → PoolFits (host_insert p b saddr gs).1
  unfolding host_insert acquire release
  host_insert-PoolFits gs fits few = elim (Bool-cases (lock_bit (gs.host_tbl b) == 0)) [
    | inl e ↦
        let taken = Same-PoolFits gs (acquire b gs) (with_reserved-Same gs b 0 1) fits in
        let done = (insert_locked p b saddr (acquire b gs)).1 in
        rw e (
          Same-PoolFits done (release b done) (with_reserved-Same done b 0 0)
            (insert_locked-PoolFits (acquire b gs) taken few))
    | inr e ↦ rw e (record { committed = fits.committed; inside = fits.inside })
  ]
