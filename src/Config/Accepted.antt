-- ===== src/Config/Accepted.antt =====
-- Which images `ntfe_validate_configuration` accepts.
use ntfw.Common.{ℕ, Bool, true, false, ◌%◌, ◌^◌, ◌≤◌, ◌≡◌, ◌≢◌, ◌↔◌, ◌⊎◌, arith}
use ntfw.Common.{inl, inr, u8, refl, List, [], ◌∷◌, All}
use native.Mathlib.Nat.{pow-le-pow_right}
use ntfw.Rules.{NtfeRule, Table, test_rules, max_rules}
use ntfw.Rules.Load.{rule_insert_lem}
use ntfw.Rules.Perfect.{IsFree}
use ntfw.State.{Gs, max_meters}
use ntfw.Config.{NtfeConfig, ntfe_config, config_rules, needed_size, config_size, table_too_large}
use ntfw.Config.{ntfe_validate_configuration, ntfe_cfg_version}

two_pow : (a b : ℕ) → a ≤ b → 2 ^ a ≤ 2 ^ b
two_pow a b h = pow-le-pow_right {n = 2} (omega arith) h

-- The shift that the test of the table size makes, for each count.
table_too_large_iff :
    (bits : ℕ) → (table_too_large bits ≡ false) ↔ ((bits % 32 ≤ 7) ⊎ (bits % 32 ≡ 31))
unfolding table_too_large
table_too_large_iff bits = ground (
  arith,
  two_pow (bits % 32) 7,
  two_pow 8 (bits % 32),
  two_pow (bits % 32) 30,
  two_pow 31 (bits % 32),
  two_pow (bits % 32) 31,
)

test_rules_iff :
    (rules : Table) (rls : List NtfeRule) (seed hashsz : ℕ)
    → (test_rules rules rls seed hashsz ≡ true) ↔ All (IsFree seed hashsz rules) rls
unfolding test_rules
test_rules_iff rules [] seed hashsz = (λ h. tt, λ h. refl)
test_rules_iff rules (rl ∷ rls) seed hashsz =
    ground (arith, rule_insert_lem rules rl seed hashsz true, test_rules_iff rules rls seed hashsz)

-- What is required of an image of `cfg_len` bytes. The places that the rules hash to, by the
-- seed and the size of the image, are free in the current table of the engine.
pub record IsAccepted (cfg : NtfeConfig) (cfg_len : ℕ) (rules : Table) : Type 0 where
  pub header : config_size ≤ cfg_len
  pub inside : cfg.length ≤ cfg_len
  pub enough : needed_size cfg ≤ cfg.length
  pub reserved_zero : cfg.reserved ≡ 0
  pub right_version : cfg.version ≡ ntfe_cfg_version
  pub few_rules : cfg.rule_count ≤ max_rules
  pub table_size : (cfg.rule_hashsz % 32 ≤ 7) ⊎ (cfg.rule_hashsz % 32 ≡ 31)
  pub table_size_set : cfg.rule_hashsz ≢ 0
  pub few_meters : cfg.meter_count ≤ max_meters
  pub free : All (IsFree cfg.rule_seed (u8 cfg.rule_hashsz) rules) (config_rules cfg)

-- A size that is accepted and does not have the five low bits 31 keeps the places inside the table.
pub IsAccepted-inside :
    (cfg : NtfeConfig) (cfg_len : ℕ) (rules : Table)
    → IsAccepted cfg cfg_len rules
    → cfg.rule_hashsz % 32 ≢ 31
    → u8 cfg.rule_hashsz % 32 ≤ 7
IsAccepted-inside cfg cfg_len rules a ne = elim a.table_size [
  | inl few ↦ omega (arith, few)
  | inr all ↦ absurd (ne all)
]

module _ (img : List ℕ) (cfg_len : ℕ) (gs : Gs) where
  abbrev cfg : NtfeConfig
  cfg = ntfe_config img

  abbrev rules_free : Bool
  rules_free = test_rules gs.rules (config_rules cfg) cfg.rule_seed (u8 cfg.rule_hashsz)

  passed :
      ntfe_validate_configuration img cfg_len gs ≡ true
      → (config_size ≤ cfg_len)
        × (cfg.length ≤ cfg_len)
        × (needed_size cfg ≤ cfg.length)
        × (cfg.reserved ≡ 0)
        × (cfg.version ≡ ntfe_cfg_version)
        × (cfg.rule_count ≤ max_rules)
        × (table_too_large cfg.rule_hashsz ≡ false)
        × (cfg.rule_hashsz ≢ 0)
        × (cfg.meter_count ≤ max_meters)
        × (rules_free ≡ true)
  unfolding ntfe_validate_configuration
  passed h = ground arith

  passes :
      IsAccepted cfg cfg_len gs.rules
      → table_too_large cfg.rule_hashsz ≡ false
      → rules_free ≡ true
      → ntfe_validate_configuration img cfg_len gs ≡ true
  unfolding ntfe_validate_configuration
  passes a small free = ground (
    arith, a.header, a.inside, a.enough, a.reserved_zero, a.right_version, a.few_rules,
    a.table_size_set, a.few_meters,
  )

  accepted : ntfe_validate_configuration img cfg_len gs ≡ true → IsAccepted cfg cfg_len gs.rules
  accepted h =
      let q = passed h in
      record {
        header = q.0;
        inside = q.1;
        enough = q.2;
        reserved_zero = q.3;
        right_version = q.4;
        few_rules = q.5;
        table_size = (table_too_large_iff cfg.rule_hashsz).0 q.6;
        table_size_set = q.7;
        few_meters = q.8;
        free =
            (test_rules_iff gs.rules (config_rules cfg) cfg.rule_seed (u8 cfg.rule_hashsz)).0 q.9;
      }

pub ntfe_validate_configuration_iff :
    (img : List ℕ) (cfg_len : ℕ) (gs : Gs)
    → (ntfe_validate_configuration img cfg_len gs ≡ true)
      ↔ IsAccepted (ntfe_config img) cfg_len gs.rules
ntfe_validate_configuration_iff img cfg_len gs = (
  accepted img cfg_len gs,
  λ a.
      passes img cfg_len gs a ((table_too_large_iff (ntfe_config img).rule_hashsz).1 a.table_size) (
        (test_rules_iff gs.rules (config_rules (ntfe_config img)) (ntfe_config img).rule_seed
            (u8 (ntfe_config img).rule_hashsz)).1
          a.free),
)
