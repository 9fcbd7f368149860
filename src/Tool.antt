-- ===== src/Tool.antt =====
-- ntfw/ntfw.cpp: the configuration tool loads a configuration into the editor of rules, and saves
-- the rules of the editor as the image that the engine reads.
pub mod Encode
pub mod Saved
pub mod Cycle
use ntfw.Common.{ℕ, zero, suc, Bool, true, false, not, ◌&&◌, ◌+◌, ◌*◌, ◌/◌, ◌%◌, ◌==◌}
use ntfw.Common.{if◌then◌else◌, List, [], ◌∷◌, ◌++◌, Option, none, some, length, replicate}
use ntfw.Net.{eth_p_arp}
use ntfw.Rules.{NtfeRule}
use ntfw.Config.{ntfe_config, config_rules, config_size, rule_size, ntfe_cfg_version}
use ntfw.Pages.{Dialog, rules_upload, rules_download}

-- A number in the bytes of a field, the lowest first.
abbrev pub le_bytes : ℕ → ℕ → List ℕ
le_bytes zero x = []
le_bytes (suc n) x = x % 256 ∷ le_bytes n (x / 256)

-- `struct ntfe_rule` in memory
unfoldable pub rule_bytes : NtfeRule → List ℕ
rule_bytes rl =
    le_bytes 2 rl.ether
    ++ (le_bytes 2 rl.dport
        ++ (le_bytes 2 rl.byte_scale
            ++ (le_bytes 2 rl.packet_scale
                ++ (le_bytes 2 rl.syn_scale
                    ++ (le_bytes 1 rl.proto
                        ++ (le_bytes 1 rl.byte_tb
                            ++ (le_bytes 1 rl.packet_tb
                                ++ (le_bytes 1 rl.syn_tb ++ replicate 12 0))))))))

unfoldable pub rules_bytes : List NtfeRule → List ℕ
rules_bytes [] = []
rules_bytes (rl ∷ rls) = rule_bytes rl ++ rules_bytes rls

-- The bytes of the configuration up to its length, with a seed and a size of the table. The rest
-- of the structure stays zero.
unfoldable pub image_bytes : List NtfeRule → ℕ → ℕ → List ℕ
image_bytes rls seed bits =
    le_bytes 4 0
    ++ (le_bytes 2 ntfe_cfg_version
        ++ (le_bytes 2 (config_size + rule_size * length rls)
            ++ (replicate 72 0
                ++ (le_bytes 4 seed
                    ++ (le_bytes 4 bits
                        ++ (le_bytes 4 (length rls)
                            ++ (le_bytes 4 0 ++ (le_bytes 4 0 ++ rules_bytes rls))))))))

-- The loop that looks for a rule for ARP.
unfoldable pub has_arp : List NtfeRule → Bool
has_arp [] = false
has_arp (rl ∷ rls) = let more = has_arp rls in if rl.ether == eth_p_arp then true else more

-- The answers of the user to the two questions, and whether the file is written whole.
pub record SaveEnv : Type 0 where
  pub no_rules_yes : Bool
  pub no_arp_yes : Bool
  pub written : Bool

-- `SaveNtfeConfiguration` on the editor: whether it succeeds, the bytes that are to be written, if
-- it comes to that, and the editor that is left. `find` is `FindRuleMagic`. The
-- result of `RulesDownload` is not looked at.
module _ (find : List NtfeRule → Option (ℕ × ℕ)) (env : SaveEnv) where
  unfoldable pub save_image : List NtfeRule → ℕ → ℕ → Bool × Option (List ℕ)
  save_image rls seed bits =
      if not (has_arp rls) && not env.no_arp_yes
      then (false, none)
      else (env.written, some (image_bytes rls seed bits))

  unfoldable pub save_ntfe_configuration : Dialog → Bool × Option (List ℕ) × Dialog
  save_ntfe_configuration d =
      let (_, rls, left) = rules_download d in
      let (ok0, out0) = save_image rls 0 0 in
      if length rls == 0
      then (if not env.no_rules_yes then (false, none, left) else (ok0, out0, left))
      else elim (find rls) [
        | none ↦ (false, none, left)
        | some (seed, bits) ↦ let (ok, out) = save_image rls seed bits in (ok, out, left)
      ]

-- `LoadNtfeConfiguration` on the bytes of a file that could be read: the editor afterwards. What is
-- behind the end of the file is zero.
unfoldable pub load_ntfe_configuration : List ℕ → Dialog → Dialog
load_ntfe_configuration file d = rules_upload (config_rules (ntfe_config file)) d
