-- ===== src/Config/Tail.antt =====
-- What stands behind the end of an accepted image is not read.
use ntfw.Common.{ℕ, ◌+◌, ◌*◌, ◌≡◌, ◌≤◌, arith, refl, ap₂, sym, ◌∙◌, true}
use ntfw.Common.{List, ◌++◌, length, length-append}
use ntfw.Rules.{Table}
use ntfw.State.{Gs}
use ntfw.Config.{advance, field, read_rules, read_meters, read_hosts, NtfeConfig}
use ntfw.Config.{ntfe_config, config_rules, config_meters, config_hosts, load_config}
use ntfw.Config.{rule_size, meter_size, config_size, needed_size}
use ntfw.Config.{ntfe_validate_configuration, ntfe_configure}
use ntfw.Config.Accepted.{IsAccepted, ntfe_validate_configuration_iff}
use ntfw.Config.Apply.{configure_valid}
use ntfw.Config.Walk.{advance-append, length-advance, field-append}
use ntfw.Config.Walk.{read_rules-append, read_meters-append, read_hosts-append}

-- Two configurations with the same fields, but for the pointer to the arrays, and equal arrays.
record Same (cfg cfg' : NtfeConfig) : Type 0 where
  reserved : cfg'.reserved ≡ cfg.reserved
  version : cfg'.version ≡ cfg.version
  length : cfg'.length ≡ cfg.length
  rule_seed : cfg'.rule_seed ≡ cfg.rule_seed
  rule_hashsz : cfg'.rule_hashsz ≡ cfg.rule_hashsz
  rule_count : cfg'.rule_count ≡ cfg.rule_count
  meter_count : cfg'.meter_count ≡ cfg.meter_count
  host_count : cfg'.host_count ≡ cfg.host_count
  rules : config_rules cfg' ≡ config_rules cfg
  meters : config_meters cfg' ≡ config_meters cfg
  hosts : config_hosts cfg' ≡ config_hosts cfg

load_config-Same :
    (p : ℕ) (cfg cfg' : NtfeConfig) (gs : Gs)
    → Same cfg cfg'
    → load_config p cfg' gs ≡ load_config p cfg gs
unfolding load_config
load_config-Same p cfg cfg' gs s = rw (s.rules, s.meters, s.hosts, s.rule_seed, s.rule_hashsz) refl

IsAccepted-Same :
    (cfg cfg' : NtfeConfig) (len len' : ℕ) (rules : Table)
    → Same cfg cfg'
    → len ≤ len'
    → IsAccepted cfg len rules
    → IsAccepted cfg' len' rules
IsAccepted-Same cfg cfg' len len' rules s h a = record {
  header = omega (arith, a.header);
  inside = omega (arith, a.inside, s.length);
  enough = omega (arith, a.enough, s.length, s.rule_count, s.meter_count, s.host_count);
  reserved_zero = s.reserved ∙ a.reserved_zero;
  right_version = s.version ∙ a.right_version;
  few_rules = omega (arith, a.few_rules, s.rule_count);
  table_size = rw (s.rule_hashsz) a.table_size;
  table_size_set = rw (s.rule_hashsz) a.table_size_set;
  few_meters = omega (arith, a.few_meters, s.meter_count);
  free = rw (s.rules, s.rule_seed, s.rule_hashsz) a.free;
}

-- An image whose arrays lie within it reads the same with a tail.
module _ (img tail : List ℕ) (enough : needed_size (ntfe_config img) ≤ length img) where
  abbrev cfg : NtfeConfig
  cfg = ntfe_config img

  scalar : (off n : ℕ) → off + n ≤ config_size → field (img ++ tail) off n ≡ field img off n
  scalar off n h = field-append img tail off n (omega arith)

  behind_header : advance config_size (img ++ tail) ≡ advance config_size img ++ tail
  behind_header = advance-append config_size img tail (omega arith)

  header_length : config_size + length (advance config_size img) ≡ length img
  header_length = length-advance config_size img (omega arith)

  abbrev rules_end : ℕ
  rules_end = rule_size * cfg.rule_count

  behind_rules :
      advance (rule_size * field (img ++ tail) 88 4) (advance config_size (img ++ tail))
      ≡ advance rules_end (advance config_size img) ++ tail
  unfolding ntfe_config
  behind_rules =
      ap₂ (λ n xs. advance (rule_size * n) xs) (scalar 88 4 (omega arith)) behind_header
      ∙ advance-append rules_end (advance config_size img) tail
          (omega (arith, header_length, enough))

  rules_length :
      rules_end + length (advance rules_end (advance config_size img))
      ≡ length (advance config_size img)
  rules_length =
      length-advance rules_end (advance config_size img) (omega (arith, header_length, enough))

  abbrev meters_end : ℕ
  meters_end = meter_size * cfg.meter_count

  abbrev from_meters : List ℕ
  from_meters = advance rules_end (advance config_size img)

  behind_meters :
      advance
        (meter_size * field (img ++ tail) 92 4)
        (advance (rule_size * field (img ++ tail) 88 4) (advance config_size (img ++ tail)))
      ≡ advance meters_end from_meters ++ tail
  unfolding ntfe_config
  behind_meters =
      ap₂ (λ n xs. advance (meter_size * n) xs) (scalar 92 4 (omega arith)) behind_rules
      ∙ advance-append meters_end from_meters tail
          (omega (arith, header_length, rules_length, enough))

  meters_length : meters_end + length (advance meters_end from_meters) ≡ length from_meters
  meters_length =
      length-advance meters_end from_meters (omega (arith, header_length, rules_length, enough))

  ntfe_config-append : Same cfg (ntfe_config (img ++ tail))
  unfolding ntfe_config
  ntfe_config-append = record {
    reserved = scalar 0 4 (omega arith);
    version = scalar 4 2 (omega arith);
    length = scalar 6 2 (omega arith);
    rule_seed = scalar 80 4 (omega arith);
    rule_hashsz = scalar 84 4 (omega arith);
    rule_count = scalar 88 4 (omega arith);
    meter_count = scalar 92 4 (omega arith);
    host_count = scalar 96 4 (omega arith);
    rules =
        ap₂ read_rules (scalar 88 4 (omega arith)) behind_header
        ∙ read_rules-append (field img 88 4) (advance config_size img) tail
            (omega (arith, header_length, enough));
    meters =
        ap₂ read_meters (scalar 92 4 (omega arith)) behind_rules
        ∙ read_meters-append (field img 92 4) (advance rules_end (advance config_size img)) tail
            (omega (arith, header_length, rules_length, enough));
    hosts =
        ap₂ read_hosts (scalar 96 4 (omega arith)) behind_meters
        ∙ read_hosts-append (field img 96 4) (advance meters_end from_meters) tail
            (omega (arith, header_length, rules_length, meters_length, enough));
  }

pub config_rules-append :
    (img tail : List ℕ)
    → needed_size (ntfe_config img) ≤ length img
    → config_rules (ntfe_config (img ++ tail)) ≡ config_rules (ntfe_config img)
config_rules-append img tail enough = (ntfe_config-append img tail enough).rules

-- An accepted image configures the engine in the same way when more bytes follow it: its length is
-- that of its header, and nothing behind its arrays is read.
pub ntfe_configure-append :
    (p : ℕ) (img tail : List ℕ) (gs : Gs)
    → ntfe_validate_configuration img (length img) gs ≡ true
    → ntfe_configure p (img ++ tail) (length (img ++ tail)) gs
      ≡ ntfe_configure p img (length img) gs
ntfe_configure-append p img tail gs ok =
    let file = img ++ tail in
    let a = (ntfe_validate_configuration_iff img (length img) gs).0 ok in
    let same = ntfe_config-append img tail (omega (arith, a.inside, a.enough)) in
    let accepted =
      IsAccepted-Same (ntfe_config img) (ntfe_config file) (length img) (length file) gs.rules same
        (omega (arith, length-append img tail)) a in
    configure_valid p file (length file) gs
      ((ntfe_validate_configuration_iff file (length file) gs).1 accepted)
    ∙ load_config-Same p (ntfe_config img) (ntfe_config file) gs same
    ∙ sym (configure_valid p img (length img) gs ok)
