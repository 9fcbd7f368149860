-- ===== src/Tool/Saved.antt =====
-- A saved image is accepted by an engine without rules, and loaded.
use ntfw.Common.{ℕ, true, ◌+◌, ◌*◌, ◌^◌, ◌<◌, ◌≤◌, ◌≡◌, inl, arith, refl, sym, ap, ◌∙◌}
use ntfw.Common.{◌%◌, ◌≢◌, subst, List, All, length, u8}
use ntfw.Rules.{NtfeRule, zero_table}
use ntfw.Rules.Load.{IsStored}
use ntfw.Rules.Perfect.{NoClash, All-IsFree}
use ntfw.State.{Gs}
use ntfw.Config.{NtfeConfig, ntfe_config, config_rules, config_hosts, config_size, rule_size}
use ntfw.Config.{ntfe_configure, load_hosts, read_hosts}
use ntfw.Config.Accepted.{IsAccepted, ntfe_validate_configuration_iff}
use ntfw.Config.Apply.{configured, ntfe_configure_iff, ntfe_configure_lem}
use ntfw.Engine.Outgoing.{HasRules}
use ntfw.Tool.{image_bytes, rules_bytes}
use ntfw.Tool.Encode.{ntfe_config-image_bytes, config_rules-image_bytes, length-image_bytes}
use ntfw.Tool.Encode.{image_bytes-IsBytes}

module _ (rls : List NtfeRule) (seed bits : ℕ) (few : length rls ≤ 128) (s : seed < 2 ^ 32)
    (low : 1 ≤ bits) (high : bits ≤ 7) where
  abbrev image : List ℕ
  image = image_bytes rls seed bits

  -- The header, as it is read.
  abbrev read : NtfeConfig
  read = record {
    reserved = 0;
    version = 1;
    length = config_size + rule_size * length rls;
    rule_seed = seed;
    rule_hashsz = bits;
    rule_count = length rls;
    meter_count = 0;
    host_count = 0;
    ect = rules_bytes rls;
  }

  header : ntfe_config image ≡ read
  header = ntfe_config-image_bytes rls seed bits few s (omega arith)

  accepted : IsAccepted read (length image) zero_table
  accepted =
      let long = length-image_bytes rls seed bits in
      record {
        header = omega (arith, long);
        inside = omega (arith, long);
        enough = omega arith;
        reserved_zero = refl;
        right_version = refl;
        few_rules = few;
        table_size = inl (omega arith);
        table_size_set = λ e. omega (arith, e);
        few_meters = omega arith;
        free = All-IsFree seed (u8 bits) (config_rules read);
      }

  no_hosts : (p : ℕ) (gs : Gs) → (load_hosts p (config_hosts read) gs).0 ≡ true
  unfolding load_hosts read_hosts
  no_hosts p gs = refl

  module _ (stored : All IsStored rls) (apart : NoClash seed bits rls) where
    rules_back : config_rules read ≡ rls
    rules_back =
        sym (ap config_rules header)
        ∙ config_rules-image_bytes rls seed bits few s (omega arith) stored

    apart_read : NoClash seed (u8 bits) (config_rules read)
    apart_read =
        let same : u8 bits ≡ bits = omega arith in
        subst (λ b. NoClash seed b (config_rules read)) (sym same)
          (subst (NoClash seed bits) (sym rules_back) apart)

    small : (ntfe_config image).rule_hashsz % 32 ≢ 31
    small = subst (λ c. c.rule_hashsz % 32 ≢ 31) (sym header) (omega arith)

    loads :
        (p : ℕ) (gs : Gs)
        → gs.rules ≡ zero_table
        → (ntfe_configure p image (length image) gs).0 ≡ true
    loads p gs empty =
        (ntfe_configure_iff p image (length image) gs (image_bytes-IsBytes rls seed bits) small).1 (
          (ntfe_validate_configuration_iff image (length image) gs).1 (rw (header, empty) accepted),
          subst (λ c. NoClash c.rule_seed (u8 c.rule_hashsz) (config_rules c)) (sym header)
              apart_read,
          ap (λ c. (load_hosts p (config_hosts c) (configured p (ntfe_config image) gs)).0) header
              ∙ no_hosts p (configured p (ntfe_config image) gs),
        )

-- The image of at most 128 rules that fit their fields, with a seed that keeps them apart in a
-- table of 1 to 7 bits, configures an engine whose rule table is empty, and the engine then has
-- the table of these rules.
pub ntfe_configure-image_bytes :
    (rls : List NtfeRule) (seed bits p : ℕ) (gs : Gs)
    → length rls ≤ 128
    → seed < 2 ^ 32
    → 1 ≤ bits
    → bits ≤ 7
    → All IsStored rls
    → NoClash seed bits rls
    → gs.rules ≡ zero_table
    → let img = image_bytes rls seed bits in
      let (ok, gs') = ntfe_configure p img (length img) gs in (ok ≡ true) × HasRules gs' rls
ntfe_configure-image_bytes rls seed bits p gs few s low high stored apart empty =
    let ok = loads rls seed bits few s low high stored apart p gs empty in
    let img = image_bytes rls seed bits in
    let holds =
      ntfe_configure_lem p img (length img) gs (image_bytes-IsBytes rls seed bits)
        (small rls seed bits few s low high stored apart) ok in
    (
      ok,
      subst (HasRules (ntfe_configure p img (length img) gs).1)
          (config_rules-image_bytes rls seed bits few s (omega arith) stored) holds.0,
    )
