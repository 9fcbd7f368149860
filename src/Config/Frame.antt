-- ===== src/Config/Frame.antt =====
-- The operations of the host table leave the configured tables alone.
use ntfw.Common.{ℕ, zero, suc, ◌+◌, ◌≡◌, refl, ◌∙◌, List, [], ◌∷◌, ◌==◌, not, ltb}
use ntfw.Common.{Option, none, some, inl, inr, Bool-cases, Option-cases}
use ntfw.Meter.{TbucketDesc}
use ntfw.Rules.{Table}
use ntfw.State.{Gs, htbl_size, host_pri_static, host_pri_none, ctrl_at, lock_bit, exhausted}
use ntfw.Host.{clear_entry, clear_bucket, clear_buckets, host_clear_statically_authorized}
use ntfw.Host.{allocate, fill_authorized, insert_new_authorized, insert_authorized_locked}
use ntfw.Host.{
  host_insert_authorized, acquire, release, time_age, host_fetch_bucket, probe_bucket, evict_scan,
}
use ntfw.Config.{load_hosts}

-- The configured part of the state.
pub record Tables : Type 0 where
  pub rules : Table
  pub rule_seed : ℕ
  pub rule_hashsz : ℕ
  pub tbdesc : List TbucketDesc
  pub pkey : List ℕ

abbrev pub tables : Gs → Tables
tables gs = record {
  rules = gs.rules;
  rule_seed = gs.rule_seed;
  rule_hashsz = gs.rule_hashsz;
  tbdesc = gs.tbdesc;
  pkey = gs.pkey;
}

tables-clear_entry : (b k : ℕ) (gs : Gs) → tables (clear_entry b k gs) ≡ tables gs
unfolding clear_entry
tables-clear_entry b k gs = elim (Bool-cases ((ctrl_at (gs.host_tbl b) k).pri == host_pri_static)) [
  | inl e ↦ rw e refl
  | inr e ↦ rw e refl
]

tables-clear_bucket : (n k b : ℕ) (gs : Gs) → tables (clear_bucket n k b gs) ≡ tables gs
unfolding clear_bucket
tables-clear_bucket zero k b gs = refl
tables-clear_bucket (suc n) k b gs =
    tables-clear_bucket n (k + 1) b (clear_entry b k gs) ∙ tables-clear_entry b k gs

tables-clear_buckets : (n b : ℕ) (gs : Gs) → tables (clear_buckets n b gs) ≡ tables gs
unfolding clear_buckets
tables-clear_buckets zero b gs = refl
tables-clear_buckets (suc n) b gs =
    tables-clear_buckets n (b + 1) (clear_bucket 8 0 b gs) ∙ tables-clear_bucket 8 0 b gs

pub tables-clear : (gs : Gs) → tables (host_clear_statically_authorized gs) ≡ tables gs
unfolding host_clear_statically_authorized
tables-clear gs = tables-clear_buckets htbl_size 0 gs

tables-allocate :
    (b tsec priority : ℕ) (gs : Gs) → tables (allocate b tsec priority gs).1 ≡ tables gs
unfolding allocate
tables-allocate b tsec priority gs = elim (Bool-cases (exhausted (gs.host_tbl b) == 0)) [
  | inl e ↦ elim (Option-cases (probe_bucket (gs.host_tbl b) 0)) [
    | inl f ↦ rw (e, f) refl
    | inr (i, f) ↦ rw (e, f) (elim (Bool-cases (i == 7)) [ inl q ↦ rw q refl | inr q ↦ rw q refl ])
  ]
  | inr e ↦ elim (Option-cases (evict_scan (gs.host_tbl b).ctrl tsec 0 0xffff none)) [
    | inl f ↦ rw (e, f) refl
    | inr (i, f) ↦
        rw (e, f)
          (elim (Bool-cases (ltb priority (ctrl_at (gs.host_tbl b) i).pri)) [
            | inl q ↦ rw q refl
            | inr q ↦ rw q refl
          ])
  ]
]

tables-fill_authorized :
    (p b a tsec priority : ℕ) (r : Option ℕ × Gs)
    → tables (fill_authorized p b a tsec priority r).1 ≡ tables r.1
unfolding fill_authorized
tables-fill_authorized p b a tsec priority (none, gs) = refl
tables-fill_authorized p b a tsec priority (some i, gs) = refl

tables-locked :
    (p b a priority : ℕ) (gs : Gs)
    → tables (insert_authorized_locked p b a priority gs).1 ≡ tables gs
unfolding insert_authorized_locked insert_new_authorized
tables-locked p b a priority gs = elim (Option-cases (probe_bucket (gs.host_tbl b) a)) [
  | inl e ↦
      rw (e, insert_authorized_locked)
        (tables-fill_authorized p b a (time_age p gs) priority
            (allocate b (time_age p gs) host_pri_none gs)
          ∙ tables-allocate b (time_age p gs) host_pri_none gs)
  | inr (i, e) ↦ rw (e, insert_authorized_locked) refl
]

tables-host_insert_authorized :
    (p b a priority : ℕ) (gs : Gs) → tables (host_insert_authorized p b a priority gs).1 ≡ tables gs
unfolding host_insert_authorized acquire release
tables-host_insert_authorized p b a priority gs =
    elim (Bool-cases (not (lock_bit (gs.host_tbl b) == 0))) [
      | inl e ↦ rw e (tables-locked p b a priority _)
      | inr e ↦ rw e (tables-locked p b a priority _)
    ]

pub tables-load_hosts :
    (p : ℕ) (hosts : List ℕ) (gs : Gs) → tables (load_hosts p hosts gs).1 ≡ tables gs
unfolding load_hosts
tables-load_hosts p [] gs = refl
tables-load_hosts p (a ∷ hosts) gs =
    let r = host_insert_authorized p (host_fetch_bucket a) a host_pri_static gs in
    let one = tables-host_insert_authorized p (host_fetch_bucket a) a host_pri_static gs in
    elim (Option-cases r.0) [
      | inl e ↦ rw (load_hosts, e) one
      | inr (i, e) ↦ rw (load_hosts, e) (tables-load_hosts p hosts r.1 ∙ one)
    ]
