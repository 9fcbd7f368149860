-- ===== src/Config/Image.antt =====
-- What is read from an image of bytes fits its types.
use ntfw.Common.{ℕ, zero, suc, ◌^◌, ◌<◌, arith, List, [], ◌∷◌, All}
use native.Mathlib.Nat.{pow-suc, one-le-pow}
use ntfw.Rules.Load.{IsRule}
use ntfw.Engine.{le_word}
use ntfw.Config.{advance, field, read_rule, read_rules, ntfe_config, config_rules, rule_size}

abbrev pub IsBytes : List ℕ → Type 0
IsBytes bytes = All (λ b. b < 256) bytes

le_word-lt : (n : ℕ) (bytes : List ℕ) → IsBytes bytes → le_word n bytes < 256 ^ n
le_word-lt zero bytes v = omega arith
le_word-lt (suc n) [] v = omega (arith, one-le-pow (suc n) 256 (omega arith))
le_word-lt (suc n) (b ∷ bytes) v = omega (arith, v.0, le_word-lt n bytes v.1, pow-suc 256 n)

advance-IsBytes : (n : ℕ) (bytes : List ℕ) → IsBytes bytes → IsBytes (advance n bytes)
advance-IsBytes zero bytes v = v
advance-IsBytes (suc n) [] v = tt
advance-IsBytes (suc n) (b ∷ bytes) v = advance-IsBytes n bytes v.1

field-lt : (bytes : List ℕ) (off n : ℕ) → IsBytes bytes → field bytes off n < 256 ^ n
field-lt bytes off n v = le_word-lt n (advance off bytes) (advance-IsBytes off bytes v)

read_rule-IsRule : (bytes : List ℕ) → IsBytes bytes → IsRule (read_rule bytes)
unfolding read_rule
read_rule-IsRule bytes v = record {
  ether_fits = field-lt bytes 0 2 v;
  dport_fits = field-lt bytes 2 2 v;
  proto_fits = field-lt bytes 10 1 v;
}

read_rules-IsRule : (n : ℕ) (bytes : List ℕ) → IsBytes bytes → All IsRule (read_rules n bytes)
unfolding read_rules
read_rules-IsRule zero bytes v = tt
read_rules-IsRule (suc n) bytes v = (
  read_rule-IsRule bytes v,
  read_rules-IsRule n (advance rule_size bytes) (advance-IsBytes rule_size bytes v),
)

pub config_rules-IsRule : (img : List ℕ) → IsBytes img → All IsRule (config_rules (ntfe_config img))
unfolding ntfe_config
config_rules-IsRule img v =
    read_rules-IsRule (field img 88 4) (advance 100 img) (advance-IsBytes 100 img v)
