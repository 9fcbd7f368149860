-- ===== src/Tests/Configure.antt =====
-- Tests of the configuration of the engine on small images, and its theorems applied to them.
use ntfw.Common.{
  ℕ, true, false, List, [], ◌∷◌, ◌≡◌, ◌↔◌, arith, refl, replicate, ◌++◌, length, u8, ◌%◌, ◌≢◌,
}
use ntfw.Flow.{sig_data, rule_hashfn, ntfe_rule_hashfn, ether_le16_to_fs}
use ntfw.Rules.{rule_insert, test_rules, zero_table}
use ntfw.Rules.Perfect.{NoClash}
use ntfw.State.{Gs}
use ntfw.Engine.Outgoing.{HasRules}
use ntfw.Config.{
  ntfe_config, read_rule, read_rules, read_hosts, table_too_large, config_rules, config_meters,
}
use ntfw.Config.{ntfe_validate_configuration, ntfe_configure, load_hosts, config_hosts, pkey_size}
use ntfw.Config.Image.{IsBytes}
use ntfw.Config.Apply.{IsMetered, configured, ntfe_configure_iff, ntfe_configure_lem}
use ntfw.Config.Restart.{ntfe_configure-again}
use ntfw.Tests.{state, empty_bucket}

-- An engine without rules.
abbrev fresh : Gs
fresh = record (state empty_bucket) { rules = zero_table }

-- The fixed part of an image: its length, the size of its table in bits, and three counts.
abbrev header : ℕ → ℕ → ℕ → ℕ → ℕ → List ℕ
header len bits rules meters hosts =
    0 ∷ 0 ∷ 0 ∷ 0 ∷ 1 ∷ 0 ∷ len ∷ 0 ∷ []
    ++ replicate 8 0
    ++ replicate 32 7
    ++ replicate 32 0
    ++ 1 ∷ 0 ∷ 0 ∷ 0 ∷ bits ∷ 0 ∷ 0 ∷ 0 ∷ []
    ++ rules ∷ 0 ∷ 0 ∷ 0 ∷ meters ∷ 0 ∷ 0 ∷ 0 ∷ hosts ∷ 0 ∷ 0 ∷ 0 ∷ []

-- HTTP over TCP
abbrev http_bytes : List ℕ
http_bytes = 0 ∷ 8 ∷ 80 ∷ 0 ∷ 1 ∷ 0 ∷ 10 ∷ 0 ∷ 0 ∷ 0 ∷ 6 ∷ 0 ∷ 1 ∷ 0 ∷ [] ++ replicate 12 0

abbrev meter_bytes : List ℕ
meter_bytes = 2 ∷ 0 ∷ 0 ∷ 0 ∷ 100 ∷ 0 ∷ 0 ∷ 0 ∷ 10 ∷ 0 ∷ 0 ∷ 0 ∷ [] ++ replicate 4 0

abbrev pub image : List ℕ
image = header 142 7 1 1 0 ++ http_bytes ++ meter_bytes

-- the same rule twice
abbrev clashing : List ℕ
clashing = header 152 7 2 0 0 ++ http_bytes ++ http_bytes

image_size : (length image ≡ 142) × (length clashing ≡ 152)
image_size = (refl, refl)

image-IsBytes : IsBytes image
image-IsBytes = omega arith

clashing-IsBytes : IsBytes clashing
clashing-IsBytes = omega arith

image_accepted : ntfe_validate_configuration image 142 fresh ≡ true
unfolding ntfe_validate_configuration ntfe_config test_rules read_rules read_rule table_too_large
    rule_insert ntfe_rule_hashfn rule_hashfn sig_data ether_le16_to_fs
image_accepted = refl

-- a clash is not noticed
clashing_accepted : ntfe_validate_configuration clashing 152 fresh ≡ true
unfolding ntfe_validate_configuration ntfe_config test_rules read_rules read_rule table_too_large
    rule_insert ntfe_rule_hashfn rule_hashfn sig_data ether_le16_to_fs
clashing_accepted = refl

-- a table of 2^31 places is accepted
huge_table_accepted : ntfe_validate_configuration (header 100 31 0 0 0) 100 fresh ≡ true
unfolding ntfe_validate_configuration ntfe_config test_rules read_rules table_too_large
huge_table_accepted = refl

-- The size of the table is 7.
pub image_small : (ntfe_config image).rule_hashsz % 32 ≢ 31
unfolding ntfe_config
image_small = omega arith

image_apart :
    NoClash
      (ntfe_config image).rule_seed
      (u8 (ntfe_config image).rule_hashsz)
      (config_rules (ntfe_config image))
unfolding ntfe_config read_rules read_rule
image_apart = (tt, tt)

no_hosts :
    (load_hosts 0 (config_hosts (ntfe_config image)) (configured 0 (ntfe_config image) fresh)).0
    ≡ true
unfolding ntfe_config read_hosts load_hosts
no_hosts = refl

configures : (ntfe_configure 0 image 142 fresh).0 ≡ true
configures =
    (ntfe_configure_iff 0 image 142 fresh image-IsBytes image_small).1
      (image_accepted, image_apart, no_hosts)

ntfe_configure_iff_example : ((ntfe_configure 0 image 142 fresh).0 ≡ true) ↔ (
    (ntfe_validate_configuration image 142 fresh ≡ true)
    × NoClash
        (ntfe_config image).rule_seed
        (u8 (ntfe_config image).rule_hashsz)
        (config_rules (ntfe_config image))
    × ((load_hosts 0 (config_hosts (ntfe_config image)) (configured 0 (ntfe_config image) fresh)).0
        ≡ true))
ntfe_configure_iff_example = ntfe_configure_iff 0 image 142 fresh image-IsBytes image_small

ntfe_configure_lem_example :
    let gs' = (ntfe_configure 0 image 142 fresh).1 in
    HasRules gs' (config_rules (ntfe_config image))
    × IsMetered gs'.tbdesc (config_meters (ntfe_config image))
    × (gs'.pkey ≡ replicate pkey_size 0)
    × (gs'.rule_seed ≡ (ntfe_config image).rule_seed)
    × (gs'.rule_hashsz ≡ u8 (ntfe_config image).rule_hashsz)
ntfe_configure_lem_example =
    ntfe_configure_lem 0 image 142 fresh image-IsBytes image_small configures

ntfe_configure-again_example :
    let gs' = (ntfe_configure 0 image 142 fresh).1 in ntfe_configure 0 image 142 gs' ≡ (false, gs')
unfolding ntfe_config
ntfe_configure-again_example =
    ntfe_configure-again 0 image 142 fresh image-IsBytes image_small (omega arith) configures
