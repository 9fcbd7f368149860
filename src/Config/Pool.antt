-- ===== src/Config/Pool.antt =====
-- The pool of host states as `ntfe_init` of ntfe/ntfe.cpp leaves it.
use ntfw.Common.{ℕ, true, ◌≡◌, arith, List, [], ◌∷◌, u8}
use ntfw.Common.{inl, inr, Bool-cases, Option-cases}
use ntfw.State.{Gs, ctrl_at, host_pri_static}
use ntfw.Rules.{load_rules}
use ntfw.Host.{host_pool_grow, host_fetch_bucket, host_insert_authorized}
use ntfw.Host.Pool.{PoolFits}
use ntfw.Host.Commit.{Tame, Tame-refl, Tame-trans, host_insert_authorized-Tame, clear-Tame}
use ntfw.Config.{ntfe_init, load_hosts, clean, load_config, ntfe_configure, load_meters}
use ntfw.Config.{NtfeConfig, ntfe_config, config_rules, config_meters, config_hosts}
use ntfw.Config.{ntfe_validate_configuration}
use ntfw.Config.Slots.{wiped}

-- From the zeroed global state, when the region can be allocated.
pub ntfe_init-PoolFits :
    (hz : ℕ) (gs : Gs)
    → gs.hp_size ≡ 0
    → gs.hp_true_sz ≡ 0
    → ((b i : ℕ) → (ctrl_at (gs.host_tbl b) i).ptr ≡ 0)
    → PoolFits (ntfe_init hz true gs).1
unfolding ntfe_init host_pool_grow
ntfe_init-PoolFits hz gs size sz ptrs = record {
  committed = rw (size, sz) (omega arith);
  inside = λ b i. rw (sz, ptrs b i) (omega arith);
}

load_hosts-Tame : (p : ℕ) (hosts : List ℕ) (gs : Gs) → Tame gs (load_hosts p hosts gs).1
unfolding load_hosts
load_hosts-Tame p [] gs = Tame-refl gs
load_hosts-Tame p (a ∷ hosts) gs =
    let r = host_insert_authorized p (host_fetch_bucket a) a host_pri_static gs in
    let one = host_insert_authorized-Tame p (host_fetch_bucket a) a host_pri_static gs in
    elim (Option-cases r.0) [
      | inl e ↦ rw (load_hosts, e) one
      | inr (i, e) ↦
          rw (load_hosts, e)
            (Tame-trans gs r.1 (load_hosts p hosts r.1).1 one (load_hosts-Tame p hosts r.1))
    ]

clean-Tame : (gs : Gs) → Tame gs (clean gs)
unfolding clean
clean-Tame gs =
    let t = clear-Tame (wiped gs) in
    record { size = t.size; true_size = t.true_size; ptrs = t.ptrs }

load_config-Tame : (p : ℕ) (cfg : NtfeConfig) (gs : Gs) → Tame gs (load_config p cfg gs).1
unfolding load_config
load_config-Tame p cfg gs =
    let rules = load_rules (clean gs).rules (config_rules cfg) cfg.rule_seed (u8 cfg.rule_hashsz) in
    let c = clean-Tame gs in
    elim (Bool-cases rules.0) [
      | inl e ↦ rw e (
          let with_meters = record (clean gs) {
            rule_hashsz = u8 cfg.rule_hashsz;
            rule_seed = cfg.rule_seed;
            rules = rules.1;
            tbdesc = load_meters (clean gs).tbdesc 0 (config_meters cfg);
          } in
          Tame-trans gs with_meters (load_hosts p (config_hosts cfg) with_meters).1
            (record { size = c.size; true_size = c.true_size; ptrs = c.ptrs })
            (load_hosts-Tame p (config_hosts cfg) with_meters))
      | inr e ↦ rw e (record { size = c.size; true_size = c.true_size; ptrs = c.ptrs })
    ]

-- No state of a host is taken by a configuration.
pub ntfe_configure-Tame :
    (p : ℕ) (img : List ℕ) (cfg_len : ℕ) (gs : Gs) → Tame gs (ntfe_configure p img cfg_len gs).1
unfolding ntfe_configure
ntfe_configure-Tame p img cfg_len gs =
    elim (Bool-cases (ntfe_validate_configuration img cfg_len gs)) [
      | inl e ↦ rw e (load_config-Tame p (ntfe_config img) gs)
      | inr e ↦ rw e (Tame-refl gs)
    ]
