-- ===== src/Config.antt =====
-- ntfe/ntfeusr.h and ntfe/ntfe.cpp: the configuration image, its validation and its application,
-- and the start and end of the engine. The image is a list of bytes.
pub mod Slots
pub mod Pool
pub mod Accepted
pub mod Image
pub mod Frame
pub mod Apply
pub mod Walk
pub mod Tail
pub mod Restart
use ntfw.Common.{
  ℕ, zero, suc, Bool, true, false, not, ◌&&◌, ◌||◌, ◌+◌, ◌*◌, ◌%◌, ◌^◌, ltb, ◌==◌, u8, u32,
}
use ntfw.Common.{if◌then◌else◌, List, [], ◌∷◌, Option, none, some, set, replicate, ◌<<<◌}
use ntfw.Meter.{TbucketDesc}
use ntfw.Rules.{NtfeRule, load_rules, test_rules, zero_table, max_rules}
use ntfw.State.{Gs, zero_desc, max_meters, host_pri_static}
use ntfw.Host.{
  host_fetch_bucket, host_insert_authorized, host_clear_statically_authorized, host_pool_grow,
}
use ntfw.Engine.{le_word}

-- `struct ntfe_meter`
pub record NtfeMeter : Type 0 where
  pub rate : ℕ
  pub size : ℕ
  pub level : ℕ

-- `struct ntfe_config`
pub record NtfeConfig : Type 0 where
  pub reserved : ℕ
  pub version : ℕ
  pub length : ℕ
  pub rule_seed : ℕ
  pub rule_hashsz : ℕ
  pub rule_count : ℕ
  pub meter_count : ℕ
  pub host_count : ℕ
  pub ect : List ℕ

-- the sizes of the packed structures
abbrev pub config_size : ℕ
config_size = 100

abbrev pub rule_size : ℕ
rule_size = 26

abbrev pub meter_size : ℕ
meter_size = 16

abbrev pub host_size : ℕ
host_size = 32

abbrev pub ntfe_cfg_version : ℕ
ntfe_cfg_version = 1

abbrev pub pkey_size : ℕ
pkey_size = 32

-- A pointer into the image is what it points to: `n` bytes further on.
abbrev pub advance : ℕ → List ℕ → List ℕ
advance zero bytes = bytes
advance (suc n) [] = []
advance (suc n) (x ∷ bytes) = advance n bytes

-- The field of `n` bytes at an offset.
abbrev pub field : List ℕ → ℕ → ℕ → ℕ
field bytes off n = le_word n (advance off bytes)

unfoldable pub ntfe_config : List ℕ → NtfeConfig
ntfe_config img = record {
  reserved = field img 0 4;
  version = field img 4 2;
  length = field img 6 2;
  rule_seed = field img 80 4;
  rule_hashsz = field img 84 4;
  rule_count = field img 88 4;
  meter_count = field img 92 4;
  host_count = field img 96 4;
  ect = advance 100 img;
}

unfoldable pub read_rule : List ℕ → NtfeRule
read_rule bytes = record {
  ether = field bytes 0 2;
  dport = field bytes 2 2;
  byte_scale = field bytes 4 2;
  packet_scale = field bytes 6 2;
  syn_scale = field bytes 8 2;
  proto = field bytes 10 1;
  byte_tb = field bytes 11 1;
  packet_tb = field bytes 12 1;
  syn_tb = field bytes 13 1;
}

-- The `n` records that a pointer walks over.
unfoldable pub read_rules : ℕ → List ℕ → List NtfeRule
read_rules zero bytes = []
read_rules (suc n) bytes = read_rule bytes ∷ read_rules n (advance rule_size bytes)

unfoldable pub read_meters : ℕ → List ℕ → List NtfeMeter
read_meters zero bytes = []
read_meters (suc n) bytes =
    record { rate = field bytes 0 4; size = field bytes 4 4; level = field bytes 8 4 }
    ∷ read_meters n (advance meter_size bytes)

unfoldable pub read_hosts : ℕ → List ℕ → List ℕ
read_hosts zero bytes = []
read_hosts (suc n) bytes = field bytes 28 4 ∷ read_hosts n (advance host_size bytes)

-- The three arrays follow one another.
abbrev pub config_rules : NtfeConfig → List NtfeRule
config_rules cfg = read_rules cfg.rule_count cfg.ect

abbrev pub config_meters : NtfeConfig → List NtfeMeter
config_meters cfg = read_meters cfg.meter_count (advance (rule_size * cfg.rule_count) cfg.ect)

abbrev pub config_hosts : NtfeConfig → List ℕ
config_hosts cfg =
    read_hosts cfg.host_count
      (advance (meter_size * cfg.meter_count) (advance (rule_size * cfg.rule_count) cfg.ect))

-- `(1 << bits) > MAX_RULES`, where `1` is a signed word: the machine uses the five low bits of
-- the count, and a word of 2^31 or more is negative.
unfoldable pub table_too_large : ℕ → Bool
table_too_large bits = let size = u32 (1 <<< (bits % 32)) in ltb size (2 ^ 31) && ltb max_rules size

-- The size that the counts call for; in 64 bits the sum does not wrap.
abbrev pub needed_size : NtfeConfig → ℕ
needed_size cfg =
    config_size
    + cfg.rule_count * rule_size
    + cfg.meter_count * meter_size
    + cfg.host_count * host_size

unfoldable pub ntfe_validate_configuration : List ℕ → ℕ → Gs → Bool
ntfe_validate_configuration img cfg_len gs =
    let cfg = ntfe_config img in
    let free = test_rules gs.rules (config_rules cfg) cfg.rule_seed (u8 cfg.rule_hashsz) in
    if ltb cfg_len config_size || ltb cfg_len cfg.length
    then false
    else if ltb cfg.length (needed_size cfg)
    then false
    else if not (cfg.reserved == 0)
    then false
    else if not (cfg.version == ntfe_cfg_version)
    then false
    else if ltb max_rules cfg.rule_count
        || (table_too_large cfg.rule_hashsz || cfg.rule_hashsz == 0)
    then false
    else if not free
    then false
    else if ltb max_meters cfg.meter_count
    then false
    else true

-- The loop over the meters, from index `i` on.
unfoldable pub load_meters : List TbucketDesc → ℕ → List NtfeMeter → List TbucketDesc
load_meters descs i [] = descs
load_meters descs i (src ∷ rest) =
    load_meters (set descs i (record { rate = src.rate; capacity = src.size; level = src.level }))
      (i + 1) rest

-- What is cleaned before a configuration is loaded.
unfoldable pub clean : Gs → Gs
clean gs = host_clear_statically_authorized (record gs {
  rules = zero_table;
  tbdesc = replicate max_meters zero_desc;
  pkey = replicate pkey_size 0;
})

module _ (p : ℕ) where
  -- The loop over the statically authorized hosts: it stops at the first failure.
  unfoldable pub load_hosts : List ℕ → Gs → Bool × Gs
  load_hosts [] gs = (true, gs)
  load_hosts (saddr ∷ rest) gs =
      let (idx, gs') =
        host_insert_authorized p (host_fetch_bucket saddr) saddr host_pri_static gs in
      let more = load_hosts rest gs' in elim idx [ none ↦ (false, gs') | some i ↦ more ]

  -- The part of `ntfe_configure` after the validation.
  unfoldable pub load_config : NtfeConfig → Gs → Bool × Gs
  load_config cfg gs =
      let hashsz = u8 cfg.rule_hashsz in
      let cleaned = clean gs in
      let (ok, rules) = load_rules cleaned.rules (config_rules cfg) cfg.rule_seed hashsz in
      let with_rules = record cleaned {
        rule_hashsz = hashsz;
        rule_seed = cfg.rule_seed;
        rules = rules;
      } in
      let with_meters = record with_rules {
        tbdesc = load_meters with_rules.tbdesc 0 (config_meters cfg);
      } in
      let loaded = load_hosts (config_hosts cfg) with_meters in
      if ok then loaded else (false, with_rules)

  unfoldable pub ntfe_configure : List ℕ → ℕ → Gs → Bool × Gs
  ntfe_configure img cfg_len gs =
      if not (ntfe_validate_configuration img cfg_len gs)
      then (false, gs)
      else load_config (ntfe_config img) gs

-- `hz` is what `HPCHz` returns, and `allocated` whether `RegionAllocate` succeeds.
unfoldable pub ntfe_init : ℕ → Bool → Gs → Bool × Gs
ntfe_init hz allocated gs =
    let gs' = record gs { hpc_hz = hz; hpool = allocated } in
    if not allocated then (false, gs') else (true, host_pool_grow gs')

-- The number of host states for which it calls `RegionFree`, if it does, and the state. The result
-- of that call is not looked at.
unfoldable pub ntfe_cleanup : Gs → Option ℕ × Gs
ntfe_cleanup gs = (if gs.hpool then some gs.hp_true_sz else none, record gs { hpool = false })
