-- ===== src/Config/Slots.antt =====
-- What `ntfe_configure` does to the entries of the table of hosts, one by one.
use ntfw.Common.{ℕ, zero, suc, ◌+◌, ◌≡◌, arith, refl, ap, sym, ◌∙◌, ◌==◌}
use ntfw.Common.{List, [], ◌∷◌, length, set, length-set, get_or-set_ne, ◌⊎◌, inl, inr}
use ntfw.Common.{Bool-cases, Option-cases, update, update_self, update_ne, subst, ==_iff, InList}
use ntfw.Common.{u8, replicate}
use native.Mathlib.Decide.{ℕ_discrete}
use ntfw.State.{Htbucket, Gs, ctrl_at, with_reserved, htbl_size, host_pri_static}
use ntfw.State.{zero_desc, max_meters}
use ntfw.Rules.{load_rules, zero_table}
use ntfw.Host.{clear_entry, clear_bucket, clear_buckets, host_clear_statically_authorized}
use ntfw.Host.{host_fetch_bucket, host_insert_authorized}
use ntfw.Host.Bucket.{same_after_set}
use ntfw.Host.Slots.{key_at, pri_at, set_self}
use ntfw.Host.Slots.{Guarded}
use ntfw.Host.Guard.{
  Guarded-refl, Guarded-trans, Guarded-IsWide, IsWide, host_insert_authorized-Guarded,
}
use ntfw.Config.{ntfe_config, config_rules, config_hosts, clean, load_hosts}
use ntfw.Config.{load_config, pkey_size, ntfe_configure, ntfe_validate_configuration}

-- Every entry keeps its priority, and its key too, unless it is a static one.
pub record ClearedBucket (htb htb' : Htbucket) : Type 0 where
  pub wide : length htb'.saddr ≡ length htb.saddr
  pub pris : (j : ℕ) → pri_at htb' j ≡ pri_at htb j
  pub keys :
      (j : ℕ)
      → (key_at htb' j ≡ key_at htb j) ⊎ ((key_at htb' j ≡ 0) × (pri_at htb j ≡ host_pri_static))

abbrev pub Cleared : Gs → Gs → Type 0
Cleared gs gs' = (b : ℕ) → ClearedBucket (gs.host_tbl b) (gs'.host_tbl b)

ClearedBucket-refl : (htb : Htbucket) → ClearedBucket htb htb
ClearedBucket-refl htb = record { wide = refl; pris = λ j. refl; keys = λ j. inl refl }

Cleared-refl : (gs : Gs) → Cleared gs gs
Cleared-refl gs b = ClearedBucket-refl (gs.host_tbl b)

ClearedBucket-trans : (x y z : Htbucket) → ClearedBucket x y → ClearedBucket y z → ClearedBucket x z
ClearedBucket-trans x y z f g = record {
  wide = g.wide ∙ f.wide;
  pris = λ j. g.pris j ∙ f.pris j;
  keys = λ j. elim (g.keys j) [
    | inr (gone, static) ↦ inr (gone, sym (f.pris j) ∙ static)
    | inl same ↦ elim (f.keys j) [
      | inl same' ↦ inl (same ∙ same')
      | inr (gone, static) ↦ inr (same ∙ gone, static)
    ]
  ];
}

Cleared-trans : (x y z : Gs) → Cleared x y → Cleared y z → Cleared x z
Cleared-trans x y z f g b =
    ClearedBucket-trans (x.host_tbl b) (y.host_tbl b) (z.host_tbl b) (f b) (g b)

module _ (htb : Htbucket) (k : ℕ) (static : pri_at htb k ≡ host_pri_static) where
  abbrev without : Htbucket
  without = with_reserved (record htb { saddr = set htb.saddr k 0 }) 1 0

  without-ClearedBucket : ClearedBucket htb without
  without-ClearedBucket = record {
    wide = length-set htb.saddr k 0;
    pris = λ j.
        same_after_set (λ c. c.pri) htb.ctrl 1 j (record (ctrl_at htb 1) { reserved = 0 }) refl;
    keys = λ j. elim (ℕ_discrete k j) [
      | no ne ↦ inl (get_or-set_ne htb.saddr k j 0 0 ne)
      | yes e ↦ elim (set_self htb.saddr k 0 0) [
        | inl gone ↦ inr (ap (key_at without) (sym e) ∙ gone, ap (pri_at htb) (sym e) ∙ static)
        | inr gone ↦ inr (ap (key_at without) (sym e) ∙ gone.0, ap (pri_at htb) (sym e) ∙ static)
      ]
    ];
  }

clear_entry-Cleared : (b k : ℕ) (gs : Gs) → Cleared gs (clear_entry b k gs)
unfolding clear_entry
clear_entry-Cleared b k gs =
    elim (Bool-cases ((ctrl_at (gs.host_tbl b) k).pri == host_pri_static)) [
      | inr e ↦ rw e (Cleared-refl gs)
      | inl e ↦
          let htb = gs.host_tbl b in
          let static = (==_iff _ _).0 e in
          rw e (λ c. elim (ℕ_discrete b c) [
            | yes same ↦
                subst
                  (λ d.
                    ClearedBucket (gs.host_tbl d) (update gs.host_tbl b (without htb k static) d))
                  same
                  (rw (update_self gs.host_tbl b (without htb k static))
                    (without-ClearedBucket htb k static))
            | no ne ↦
                subst (ClearedBucket (gs.host_tbl c))
                  (sym (update_ne gs.host_tbl b c (without htb k static) ne))
                  (ClearedBucket-refl (gs.host_tbl c))
          ])
    ]

clear_bucket-Cleared : (n k b : ℕ) (gs : Gs) → Cleared gs (clear_bucket n k b gs)
unfolding clear_bucket
clear_bucket-Cleared zero k b gs = Cleared-refl gs
clear_bucket-Cleared (suc n) k b gs =
    Cleared-trans gs (clear_entry b k gs) (clear_bucket n (k + 1) b (clear_entry b k gs))
      (clear_entry-Cleared b k gs) (clear_bucket-Cleared n (k + 1) b (clear_entry b k gs))

clear_buckets-Cleared : (n b : ℕ) (gs : Gs) → Cleared gs (clear_buckets n b gs)
unfolding clear_buckets
clear_buckets-Cleared zero b gs = Cleared-refl gs
clear_buckets-Cleared (suc n) b gs =
    let one = clear_bucket 8 0 b gs in
    Cleared-trans gs one (clear_buckets n (b + 1) one) (clear_bucket-Cleared 8 0 b gs)
      (clear_buckets-Cleared n (b + 1) one)

clear-Cleared : (gs : Gs) → Cleared gs (host_clear_statically_authorized gs)
unfolding host_clear_statically_authorized
clear-Cleared gs = clear_buckets-Cleared htbl_size 0 gs

abbrev pub wiped : Gs → Gs
wiped gs = record gs {
  rules = zero_table;
  tbdesc = replicate max_meters zero_desc;
  pkey = replicate pkey_size 0;
}

clean-Cleared : (gs : Gs) → Cleared gs (clean gs)
unfolding clean
clean-Cleared gs b = clear-Cleared (wiped gs) b

load_hosts-Guarded :
    (p : ℕ) (S : ℕ → Type 0) (hosts : List ℕ) (gs : Gs)
    → ((a : ℕ) → InList a hosts → S a)
    → IsWide gs
    → Guarded S gs (load_hosts p hosts gs).1
unfolding load_hosts
load_hosts-Guarded p S [] gs allowed w = Guarded-refl S gs
load_hosts-Guarded p S (a ∷ hosts) gs allowed w =
    let r = host_insert_authorized p (host_fetch_bucket a) a host_pri_static gs in
    let one =
      host_insert_authorized-Guarded S p (host_fetch_bucket a) a host_pri_static
        (allowed a (inl refl)) (omega arith) gs w in
    elim (Option-cases r.0) [
      | inl e ↦ rw (load_hosts, e) one
      | inr (i, e) ↦
          rw (load_hosts, e)
            (Guarded-trans S gs r.1 (load_hosts p hosts r.1).1 one (
              load_hosts-Guarded p S hosts r.1 (λ c m. allowed c (inr m))
                (Guarded-IsWide S gs r.1 one w)))
    ]

-- Static entries are cleared, then the hosts of the image gain a priority.
pub record Restarted (S : ℕ → Type 0) (gs gs' : Gs) : Type 0 where
  pub between : Gs
  pub cleared : Cleared gs between
  pub loaded : Guarded S between gs'

module _ (p : ℕ) (img : List ℕ) (gs : Gs) (w : IsWide gs) where
  abbrev pub Listed : ℕ → Type 0
  Listed a = InList a (config_hosts (ntfe_config img))

  clean-IsWide : IsWide (clean gs)
  clean-IsWide b = (clean-Cleared gs b).wide ∙ w b

  load_config-Restarted : Restarted Listed gs (load_config p (ntfe_config img) gs).1
  unfolding load_config
  load_config-Restarted =
      let cfg = ntfe_config img in
      let rules =
        load_rules (clean gs).rules (config_rules cfg) cfg.rule_seed (u8 cfg.rule_hashsz) in
      elim (Bool-cases rules.0) [
        | inl e ↦ rw e (record {
          between = clean gs;
          cleared = clean-Cleared gs;
          loaded = load_hosts-Guarded p Listed (config_hosts cfg) _ (λ a m. m) clean-IsWide;
        })
        | inr e ↦ rw e (record {
          between = clean gs;
          cleared = clean-Cleared gs;
          loaded = Guarded-refl Listed (clean gs);
        })
      ]

  pub ntfe_configure-Restarted :
      (cfg_len : ℕ) → Restarted Listed gs (ntfe_configure p img cfg_len gs).1
  unfolding ntfe_configure
  ntfe_configure-Restarted cfg_len =
      elim (Bool-cases (ntfe_validate_configuration img cfg_len gs)) [
        | inl e ↦ rw e load_config-Restarted
        | inr e ↦
            rw e
              (record { between = gs; cleared = Cleared-refl gs; loaded = Guarded-refl Listed gs })
      ]
