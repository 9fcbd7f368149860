-- ===== src/Config/Apply.antt =====
-- What `ntfe_configure` leaves, and when it succeeds.
use ntfw.Common.{ℕ, zero, suc, Bool, true, false, ◌+◌, ◌*◌, ◌≤◌, ◌<◌, ◌≡◌, ◌↔◌, arith, u8}
use ntfw.Common.{
  refl, sym, ◌∙◌, ap, subst, List, [], ◌∷◌, Bool-cases, inl, inr, length, get_or, set, replicate,
  length-set,
}
use ntfw.Common.{get_or-set_self, get_or-set_ne, if◌then◌else◌}
use native.Mathlib.Nat.{zero-add}
use ntfw.Meter.{TbucketDesc}
use ntfw.Common.{◌%◌, ◌≢◌, ◌≤◌}
use ntfw.Config.Accepted.{IsAccepted-inside}
use ntfw.Rules.{Table, load_rules, zero_table}
use ntfw.Rules.Perfect.{NoClash, load_rules_iff}
use ntfw.State.{Gs, zero_desc, max_meters}
use ntfw.Engine.Outgoing.{HasRules}
use ntfw.Config.{NtfeConfig, NtfeMeter, ntfe_config, config_rules, config_meters, config_hosts}
use ntfw.Config.{
  clean, load_meters, load_hosts, load_config, ntfe_configure, ntfe_validate_configuration,
}
use ntfw.Config.{pkey_size, read_meters, meter_size, rule_size, advance}
use ntfw.Config.Accepted.{ntfe_validate_configuration_iff}
use ntfw.Config.Image.{IsBytes, config_rules-IsRule}
use ntfw.Config.Frame.{Tables, tables, tables-clear, tables-load_hosts}

abbrev pub zero_meter : NtfeMeter
zero_meter = record { rate = 0; size = 0; level = 0 }

-- The parameters of the bucket that a meter of the image describes.
abbrev pub desc_of : NtfeMeter → TbucketDesc
desc_of m = record { rate = m.rate; capacity = m.size; level = m.level }

-- The first parameters are those of the meters.
abbrev pub IsMetered : List TbucketDesc → List NtfeMeter → Type 0
IsMetered descs ms =
    (j : ℕ) → j < length ms → get_or descs j zero_desc ≡ desc_of (get_or ms j zero_meter)

load_meters_below :
    (ms : List NtfeMeter) (descs : List TbucketDesc) (i j : ℕ)
    → j < i
    → get_or (load_meters descs i ms) j zero_desc ≡ get_or descs j zero_desc
unfolding load_meters
load_meters_below [] descs i j h = refl
load_meters_below (m ∷ ms) descs i j h =
    load_meters_below ms (set descs i (desc_of m)) (i + 1) j (omega arith)
    ∙ get_or-set_ne descs i j (desc_of m) zero_desc (omega arith)

load_meters_lem :
    (ms : List NtfeMeter) (descs : List TbucketDesc) (i j : ℕ)
    → i + length ms ≤ length descs
    → j < length ms
    → get_or (load_meters descs i ms) (i + j) zero_desc ≡ desc_of (get_or ms j zero_meter)
unfolding load_meters
load_meters_lem [] descs i j fits h = absurd (omega arith)
load_meters_lem (m ∷ ms) descs i zero fits h =
    ap (λ k. get_or (load_meters (set descs i (desc_of m)) (i + 1) ms) k zero_desc) (omega arith)
    ∙ load_meters_below ms (set descs i (desc_of m)) (i + 1) i (omega arith)
    ∙ get_or-set_self descs i (desc_of m) zero_desc (omega arith)
load_meters_lem (m ∷ ms) descs i (suc j) fits h =
    ap (λ k. get_or (load_meters (set descs i (desc_of m)) (i + 1) ms) k zero_desc) (omega arith)
    ∙ load_meters_lem ms (set descs i (desc_of m)) (i + 1) j
        (omega (arith, length-set descs i (desc_of m))) (omega arith)

length-read_meters : (n : ℕ) (bytes : List ℕ) → length (read_meters n bytes) ≡ n
unfolding read_meters
length-read_meters zero bytes = refl
length-read_meters (suc n) bytes = ap suc (length-read_meters n (advance meter_size bytes))

tables-clean :
    (gs : Gs)
    → tables (clean gs) ≡ record {
      rules = zero_table;
      rule_seed = gs.rule_seed;
      rule_hashsz = gs.rule_hashsz;
      tbdesc = replicate max_meters zero_desc;
      pkey = replicate pkey_size 0;
    }
unfolding clean
tables-clean gs = tables-clear _

module _ (p : ℕ) (cfg : NtfeConfig) (gs : Gs) where
  abbrev loaded_rules : Bool × Table
  loaded_rules = load_rules zero_table (config_rules cfg) cfg.rule_seed (u8 cfg.rule_hashsz)

  -- The state in which the static hosts are inserted: the old one without its static hosts, with
  -- the rules and the meters of the image.
  abbrev pub configured : Gs
  configured = record (clean gs) {
    rule_hashsz = u8 cfg.rule_hashsz;
    rule_seed = cfg.rule_seed;
    rules = loaded_rules.1;
    tbdesc = load_meters (clean gs).tbdesc 0 (config_meters cfg);
  }

  -- The state left when the rules clash.
  abbrev half_loaded : Gs
  half_loaded = record (clean gs) {
    rule_hashsz = u8 cfg.rule_hashsz;
    rule_seed = cfg.rule_seed;
    rules = loaded_rules.1;
  }

  abbrev after_rules : Bool → Bool × Gs
  after_rules ok = if ok then load_hosts p (config_hosts cfg) configured else (false, half_loaded)

  load_config_open : load_config p cfg gs ≡ after_rules loaded_rules.0
  unfolding load_config
  load_config_open = rw (ap (λ t. t.rules) (tables-clean gs)) refl

  load_config_at : (ok : Bool) → loaded_rules.0 ≡ ok → load_config p cfg gs ≡ after_rules ok
  load_config_at ok e = load_config_open ∙ ap after_rules e

  load_config_iff :
      ((load_config p cfg gs).0 ≡ true)
      ↔ ((loaded_rules.0 ≡ true) × ((load_hosts p (config_hosts cfg) configured).0 ≡ true))
  load_config_iff = (
    λ h. elim (Bool-cases loaded_rules.0) [
      | inl e ↦ (e, sym (ap (λ r. r.0) (load_config_at true e)) ∙ h)
      | inr e ↦ cc (sym (ap (λ r. r.0) (load_config_at false e)) ∙ h)
    ],
    λ h. ap (λ r. r.0) (load_config_at true h.0) ∙ h.1,
  )

  tables-configured : tables configured ≡ record {
    rules = loaded_rules.1;
    rule_seed = cfg.rule_seed;
    rule_hashsz = u8 cfg.rule_hashsz;
    tbdesc = load_meters (replicate max_meters zero_desc) 0 (config_meters cfg);
    pkey = replicate pkey_size 0;
  }
  tables-configured =
      ap
        (λ t. record {
          rules = loaded_rules.1;
          rule_seed = cfg.rule_seed;
          rule_hashsz = u8 cfg.rule_hashsz;
          tbdesc = load_meters t.tbdesc 0 (config_meters cfg);
          pkey = t.pkey;
        })
        (tables-clean gs)

  tables-load_config : loaded_rules.0 ≡ true → tables (load_config p cfg gs).1 ≡ tables configured
  tables-load_config e =
      ap (λ r. tables r.1) (load_config_at true e)
      ∙ tables-load_hosts p (config_hosts cfg) configured

-- What a configuration asks of the configured part of the state.
abbrev Holds : NtfeConfig → Tables → Type 0
Holds cfg t =
    ((load_rules zero_table (config_rules cfg) t.rule_seed t.rule_hashsz).0 ≡ true)
    × (t.rules ≡ (load_rules zero_table (config_rules cfg) t.rule_seed t.rule_hashsz).1)
    × IsMetered t.tbdesc (config_meters cfg)
    × (t.pkey ≡ replicate pkey_size 0)
    × (t.rule_seed ≡ cfg.rule_seed)
    × (t.rule_hashsz ≡ u8 cfg.rule_hashsz)

Holds-load :
    (p : ℕ) (cfg : NtfeConfig) (gs : Gs)
    → (loaded_rules p cfg gs).0 ≡ true
    → cfg.meter_count ≤ max_meters
    → Holds cfg (record {
      rules = (loaded_rules p cfg gs).1;
      rule_seed = cfg.rule_seed;
      rule_hashsz = u8 cfg.rule_hashsz;
      tbdesc = load_meters (replicate max_meters zero_desc) 0 (config_meters cfg);
      pkey = replicate pkey_size 0;
    })
Holds-load p cfg gs loaded few = (
  loaded,
  refl,
  λ j h.
      let few_read =
        length-read_meters cfg.meter_count (advance (rule_size * cfg.rule_count) cfg.ect) in
      let descs = load_meters (replicate max_meters zero_desc) 0 (config_meters cfg) in
      ap (λ k. get_or descs k zero_desc) (sym (zero-add j))
      ∙ load_meters_lem (config_meters cfg) (replicate max_meters zero_desc) 0 j
          (omega (arith, few_read, few)) h,
  refl,
  refl,
  refl,
)

module _ (p : ℕ) (img : List ℕ) (cfg_len : ℕ) (gs : Gs) where
  pub configure_valid :
      ntfe_validate_configuration img cfg_len gs ≡ true
      → ntfe_configure p img cfg_len gs ≡ load_config p (ntfe_config img) gs
  unfolding ntfe_configure
  configure_valid e = rw e refl

  pub configure_invalid :
      ntfe_validate_configuration img cfg_len gs ≡ false
      → ntfe_configure p img cfg_len gs ≡ (false, gs)
  unfolding ntfe_configure
  configure_invalid e = rw e refl

  pub valid_of_configure :
      (ntfe_configure p img cfg_len gs).0 ≡ true → ntfe_validate_configuration img cfg_len gs ≡ true
  valid_of_configure h = elim (Bool-cases (ntfe_validate_configuration img cfg_len gs)) [
    | inl e ↦ e
    | inr e ↦ cc (sym (ap (λ r. r.0) (configure_invalid e)) ∙ h)
  ]

-- The configuration of an image of bytes succeeds exactly when the image is accepted, no two of
-- its rules have the same place in the table, and each of its hosts can be inserted in turn. The
-- five low bits of its size of the table are not 31, which the validation lets pass.
pub ntfe_configure_iff :
    (p : ℕ) (img : List ℕ) (cfg_len : ℕ) (gs : Gs)
    → IsBytes img
    → (ntfe_config img).rule_hashsz % 32 ≢ 31
    → let cfg = ntfe_config img in
      ((ntfe_configure p img cfg_len gs).0 ≡ true) ↔ (
        (ntfe_validate_configuration img cfg_len gs ≡ true)
        × NoClash cfg.rule_seed (u8 cfg.rule_hashsz) (config_rules cfg)
        × ((load_hosts p (config_hosts cfg) (configured p cfg gs)).0 ≡ true))
ntfe_configure_iff p img cfg_len gs v small =
    let cfg = ntfe_config img in
    let inside : ntfe_validate_configuration img cfg_len gs ≡ true → u8 cfg.rule_hashsz % 32 ≤ 7 =
      λ valid.
        IsAccepted-inside cfg cfg_len gs.rules
          ((ntfe_validate_configuration_iff img cfg_len gs).0 valid) small in
    let fit = config_rules-IsRule img v in
    let rules = config_rules cfg in
    let seed = cfg.rule_seed in
    let bits = u8 cfg.rule_hashsz in
    let ends = load_config_iff p cfg gs in
    (
      λ h.
          let valid = valid_of_configure p img cfg_len gs h in
          let done = ends.0 (sym (ap (λ r. r.0) (configure_valid p img cfg_len gs valid)) ∙ h) in
          (valid, (load_rules_iff rules seed bits (inside valid) fit).0 done.0, done.1),
      λ h.
          ap (λ r. r.0) (configure_valid p img cfg_len gs h.0)
          ∙ ends.1 ((load_rules_iff rules seed bits (inside h.0) fit).1 h.1, h.2),
    )

-- After a configuration that succeeds, the seed and the size of the rule table are those of the
-- image, the table is the one loaded from its rules, the parameters of the buckets are those of
-- its meters, and the public key is zero. The five low bits of the size that the image gives for
-- the table are not 31, so that its rules lie inside the table.
pub ntfe_configure_lem :
    (p : ℕ) (img : List ℕ) (cfg_len : ℕ) (gs : Gs)
    → IsBytes img
    → (ntfe_config img).rule_hashsz % 32 ≢ 31
    → (ntfe_configure p img cfg_len gs).0 ≡ true
    → let cfg = ntfe_config img in
      let gs' = (ntfe_configure p img cfg_len gs).1 in
      HasRules gs' (config_rules cfg)
      × IsMetered gs'.tbdesc (config_meters cfg)
      × (gs'.pkey ≡ replicate pkey_size 0)
      × (gs'.rule_seed ≡ cfg.rule_seed)
      × (gs'.rule_hashsz ≡ u8 cfg.rule_hashsz)
ntfe_configure_lem p img cfg_len gs v small h =
    let cfg = ntfe_config img in
    let valid = valid_of_configure p img cfg_len gs h in
    let done = configure_valid p img cfg_len gs valid in
    let loaded = ((load_config_iff p cfg gs).0 (sym (ap (λ r. r.0) done) ∙ h)).0 in
    let same =
      ap (λ r. tables r.1) done ∙ tables-load_config p cfg gs loaded ∙ tables-configured p cfg gs in
    let end = subst (Holds cfg) (sym same) (
      Holds-load p cfg gs loaded
        ((ntfe_validate_configuration_iff img cfg_len gs).0 valid).few_meters) in
    (
      record { fit = config_rules-IsRule img v; loaded = end.0; table_eq = end.1 },
      end.2,
      end.3,
      end.4,
      end.5,
    )
