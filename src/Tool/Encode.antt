-- ===== src/Tool/Encode.antt =====
-- The image that is saved reads back: its header, and its rules.
use ntfw.Common.{ℕ, zero, suc, ◌+◌, ◌*◌, ◌/◌, ◌%◌, ◌^◌, ◌<◌, ◌≤◌, ◌≡◌, arith, refl, ap, ap₂, ◌∙◌}
use ntfw.Common.{List, [], ◌∷◌, ◌++◌, All, length, replicate}
use native.Mathlib.Nat.{pow-suc}
use ntfw.Rules.{NtfeRule}
use ntfw.Rules.Load.{IsStored}
use ntfw.Engine.{le_word}
use ntfw.Config.{ntfe_config, read_rule, read_rules, config_rules, config_size, rule_size}
use ntfw.Config.{advance, ntfe_cfg_version}
use ntfw.Config.Image.{IsBytes}
use ntfw.Tool.{le_bytes, rule_bytes, rules_bytes, image_bytes}

pub le_word-le_bytes : (n x : ℕ) (ys : List ℕ) → x < 256 ^ n → le_word n (le_bytes n x ++ ys) ≡ x
le_word-le_bytes zero x ys h = omega arith
le_word-le_bytes (suc n) x ys h =
    let low : x / 256 < 256 ^ n = omega (arith, pow-suc 256 n) in
    omega (arith, le_word-le_bytes n (x / 256) ys low)

two : (x : ℕ) → x < 2 ^ 16 → x % 256 + 256 * (x / 256 % 256 + 256 * 0) ≡ x
two x h = omega arith

one : (x : ℕ) → x < 2 ^ 8 → x % 256 + 256 * 0 ≡ x
one x h = omega arith

four :
    (x : ℕ)
    → x < 2 ^ 32
    → x % 256
        + 256
          * (x / 256 % 256
              + 256 * (x / 256 / 256 % 256 + 256 * (x / 256 / 256 / 256 % 256 + 256 * 0)))
      ≡ x
four x h = omega arith

read_rule-rule_bytes :
    (rl : NtfeRule) (rest : List ℕ) → IsStored rl → read_rule (rule_bytes rl ++ rest) ≡ rl
unfolding read_rule rule_bytes
read_rule-rule_bytes rl rest v =
    rw
      (
        two rl.ether v.ether_fits,
        two rl.dport v.dport_fits,
        two rl.byte_scale v.byte_scale_fits,
        two rl.packet_scale v.packet_scale_fits,
        two rl.syn_scale v.syn_scale_fits,
        one rl.proto v.proto_fits,
        one rl.byte_tb v.byte_tb_fits,
        one rl.packet_tb v.packet_tb_fits,
        one rl.syn_tb v.syn_tb_fits,
      )
      refl

advance-rule_bytes :
    (rl : NtfeRule) (rest : List ℕ) → advance rule_size (rule_bytes rl ++ rest) ≡ rest
unfolding rule_bytes
advance-rule_bytes rl rest = refl

read_rules-rules_bytes :
    (rls : List NtfeRule) → All IsStored rls → read_rules (length rls) (rules_bytes rls) ≡ rls
unfolding read_rules rules_bytes
read_rules-rules_bytes [] v = refl
read_rules-rules_bytes (rl ∷ rls) v =
    ap₂ (λ x l. x ∷ l) (read_rule-rule_bytes rl (rules_bytes rls) v.0)
      (ap (read_rules (length rls)) (advance-rule_bytes rl (rules_bytes rls))
        ∙ read_rules-rules_bytes rls v.1)

length-rules_bytes : (rls : List NtfeRule) → length (rules_bytes rls) ≡ rule_size * length rls
unfolding rules_bytes rule_bytes
length-rules_bytes [] = refl
length-rules_bytes (rl ∷ rls) = omega (arith, length-rules_bytes rls)

IsBytes-append : (xs ys : List ℕ) → IsBytes xs → IsBytes ys → IsBytes (xs ++ ys)
IsBytes-append [] ys v w = w
IsBytes-append (x ∷ xs) ys v w = (v.0, IsBytes-append xs ys v.1 w)

rule_bytes-IsBytes : (rl : NtfeRule) → IsBytes (rule_bytes rl)
unfolding rule_bytes
rule_bytes-IsBytes rl = omega arith

rules_bytes-IsBytes : (rls : List NtfeRule) → IsBytes (rules_bytes rls)
unfolding rules_bytes
rules_bytes-IsBytes [] = tt
rules_bytes-IsBytes (rl ∷ rls) =
    IsBytes-append (rule_bytes rl) (rules_bytes rls) (rule_bytes-IsBytes rl)
      (rules_bytes-IsBytes rls)

module _ (rls : List NtfeRule) (seed bits : ℕ) where
  abbrev image : List ℕ
  image = image_bytes rls seed bits

  pub length-image_bytes : length image ≡ config_size + rule_size * length rls
  unfolding image_bytes
  length-image_bytes = omega (arith, length-rules_bytes rls)

  -- What the engine reads in the header of a saved image.
  pub ntfe_config-image_bytes :
      length rls ≤ 128
      → seed < 2 ^ 32
      → bits < 2 ^ 32
      → ntfe_config image ≡ record {
        reserved = 0;
        version = ntfe_cfg_version;
        length = config_size + rule_size * length rls;
        rule_seed = seed;
        rule_hashsz = bits;
        rule_count = length rls;
        meter_count = 0;
        host_count = 0;
        ect = rules_bytes rls;
      }
  unfolding ntfe_config image_bytes
  ntfe_config-image_bytes few s b =
      rw
        (
          two (100 + 26 * length rls) (omega arith),
          four seed s,
          four bits b,
          four (length rls) (omega arith),
        )
        refl

  pub config_rules-image_bytes :
      length rls ≤ 128
      → seed < 2 ^ 32
      → bits < 2 ^ 32
      → All IsStored rls
      → config_rules (ntfe_config image) ≡ rls
  config_rules-image_bytes few s b v =
      ap config_rules (ntfe_config-image_bytes few s b) ∙ read_rules-rules_bytes rls v

  -- the fixed part
  abbrev header : List ℕ
  header =
      le_bytes 4 0
      ++ (le_bytes 2 ntfe_cfg_version
          ++ (le_bytes 2 (config_size + rule_size * length rls)
              ++ (replicate 72 0
                  ++ (le_bytes 4 seed
                      ++ (le_bytes 4 bits
                          ++ (le_bytes 4 (length rls) ++ (le_bytes 4 0 ++ le_bytes 4 0)))))))

  header-IsBytes : IsBytes header
  header-IsBytes = omega arith

  pub image_bytes-IsBytes : IsBytes (image_bytes rls seed bits)
  unfolding image_bytes
  image_bytes-IsBytes =
      IsBytes-append header (rules_bytes rls) header-IsBytes (rules_bytes-IsBytes rls)
