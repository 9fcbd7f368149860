-- ===== src/Tests/Saving.antt =====
-- Tests of the editor of rules and of the configuration tool, and their theorems applied to a few
-- entries.
use ntfw.Common.{
  ℕ, zero, suc, true, false, ◌≡◌, arith, refl, inl, inr, List, [], ◌∷◌, ◌++◌, All, none, some,
  length, replicate,
}
use ntfw.Flow.{sig_data, rule_hashfn, ntfe_rule_hashfn, ether_le16_to_fs}
use ntfw.Rules.{NtfeRule, zero_table}
use ntfw.Rules.Load.{IsStored}
use ntfw.State.{Gs}
use ntfw.Config.{ntfe_configure, ntfe_validate_configuration}
use ntfw.Engine.Outgoing.{HasRules}
use ntfw.Search.{
  works, stop, Event, find_rule_magic, search_run, new_search, search_step, worker_step,
}
use ntfw.Search.{
  keeps_apart, find_result, new_workers, bsr_below, xoro_seed, xoro_rand, splitmix64, finished,
}
use ntfw.Editor.{EditorRule, empty_rule, download_rules, download_rule, after_entry, custom_rule}
use ntfw.Editor.{read_hex}
use ntfw.Editor.RoundTrip.{IsEditable}
use ntfw.Editor.Stored.{IsEditorRule}
use ntfw.Tool.{
  SaveEnv, has_arp, save_image, image_bytes, save_ntfe_configuration, load_ntfe_configuration,
}
use ntfw.Tool.Cycle.{
  ntfe_configure-save_ntfe_configuration, ntfe_validate_configuration-save_none,
  rules_download-load_ntfe_configuration,
}
use ntfw.Pages.{
  Dialog, on_scroll, line_down, synchronize_up, synchronize_down, store_rows, rules_download,
}
use ntfw.Pages.View.{IsDialog, IsEntry, entry, stored, on_scroll-stored}
use ntfw.Tests.{http_rule, state, empty_bucket}

-- "TCP" on port 80, "arp", and "88cc", a custom ethertype
abbrev entries : List EditorRule
entries =
    record empty_rule {
      proto = 84 ∷ 67 ∷ 80 ∷ [];
      port = 80;
      byte_cost = 1;
      packet_cost = 10;
      packet_meter = 1;
    }
    ∷ record empty_rule { proto = 97 ∷ 114 ∷ 112 ∷ [] }
    ∷ record empty_rule { proto = 56 ∷ 56 ∷ 99 ∷ 99 ∷ [] }
    ∷ empty_rule
    ∷ []

abbrev custom : NtfeRule
custom = record zero_arp { ether = 0x88cc }
  where
    zero_arp : NtfeRule
    zero_arp = record http_rule {
      dport = 0;
      byte_scale = 0;
      packet_scale = 0;
      proto = 0;
      packet_tb = 0;
    }

downloads : (download_rules entries).1 ≡ http_rule ∷ record custom { ether = 0x0806 } ∷ custom ∷ []
unfolding download_rules download_rule after_entry custom_rule read_hex
downloads = refl

abbrev three_rules : List NtfeRule
three_rules = http_rule ∷ record custom { ether = 0x0806 } ∷ custom ∷ []

abbrev events : List Event
events = replicate 5 (works 0) ++ stop ∷ replicate 5 (works 0)

abbrev agreed : SaveEnv
agreed = record { no_rules_yes = true; no_arp_yes = true; written = true }

abbrev fresh : Gs
fresh = record (state empty_bucket) { rules = zero_table }

finds : find_rule_magic three_rules (5 ∷ []) events ≡ some (924908114, 7)
unfolding find_rule_magic search_run search_step worker_step keeps_apart find_result new_search
    new_workers bsr_below ntfe_rule_hashfn rule_hashfn sig_data ether_le16_to_fs xoro_seed xoro_rand
    splitmix64
finds = refl

done : (search_run three_rules events (new_search (5 ∷ []))).workers 0 ≡ finished
unfolding search_run search_step worker_step keeps_apart new_search new_workers bsr_below
    ntfe_rule_hashfn rule_hashfn sig_data ether_le16_to_fs xoro_seed xoro_rand splitmix64
done = refl

small_entry : IsEditorRule empty_rule
small_entry = record {
  port_fits = omega arith;
  costs_fit = (omega arith, omega arith, omega arith);
  meters_fit = (omega arith, omega arith, omega arith);
}

empty-IsEntry : IsEntry empty_rule
empty-IsEntry = record { text_fits = omega arith; numbers = small_entry }

replicate-IsEntry : (n j : ℕ) → IsEntry (entry (replicate n empty_rule) j)
replicate-IsEntry zero j = empty-IsEntry
replicate-IsEntry (suc n) zero = empty-IsEntry
replicate-IsEntry (suc n) (suc j) = replicate-IsEntry n j

-- The entries are on the screen, and not yet in the array.
abbrev typed : Dialog
typed = record {
  rules = replicate 32 empty_rule;
  rows = λ i. synchronize_up (entry entries i);
  scroll_pos = 0;
}

abbrev untouched : Dialog
untouched = record typed { rows = λ i. synchronize_up empty_rule }

typed-IsDialog : IsDialog typed
typed-IsDialog = record { size = refl; position = omega arith; entries = replicate-IsEntry 32 }

saves :
    (save_ntfe_configuration (λ l. find_rule_magic l (5 ∷ []) events) agreed typed).1
    ≡ some (image_bytes three_rules 924908114 7)
unfolding save_ntfe_configuration save_image download_rules download_rule after_entry custom_rule
    read_hex has_arp rules_download store_rows synchronize_down synchronize_up
saves = rw finds refl

ntfe_configure-save_ntfe_configuration_example :
    let file = image_bytes three_rules 924908114 7 ++ (9 ∷ 9 ∷ []) in
    let (ok, gs') = ntfe_configure 0 file (length file) fresh in
    (ok ≡ true) × HasRules gs' three_rules
unfolding download_rules download_rule after_entry custom_rule read_hex rules_download store_rows
    synchronize_down synchronize_up
ntfe_configure-save_ntfe_configuration_example =
    ntfe_configure-save_ntfe_configuration typed 5 events agreed
      (image_bytes three_rules 924908114 7) (9 ∷ 9 ∷ []) 0 fresh typed-IsDialog (omega arith) done
      saves refl

saves_none : (save_ntfe_configuration (λ l. none) agreed untouched).1 ≡ some (image_bytes [] 0 0)
unfolding save_ntfe_configuration save_image download_rules download_rule after_entry has_arp
    rules_download store_rows synchronize_down synchronize_up
saves_none = refl

ntfe_validate_configuration-save_none_example :
    ntfe_validate_configuration (image_bytes [] 0 0) (length (image_bytes [] 0 0)) fresh ≡ false
unfolding download_rules download_rule after_entry rules_download store_rows synchronize_down
    synchronize_up
ntfe_validate_configuration-save_none_example =
    ntfe_validate_configuration-save_none (λ l. none) agreed untouched (image_bytes [] 0 0) fresh
      refl saves_none

three_rules-IsStored : All IsStored three_rules
three_rules-IsStored = omega arith

three_rules-IsEditable : All IsEditable three_rules
three_rules-IsEditable = (
  record {
    ether_fits = omega arith;
    proto_fits = omega arith;
    meters = (omega arith, omega arith, omega arith);
    shape = inl (refl, inr λ e. cc);
  },
  (
    record {
      ether_fits = omega arith;
      proto_fits = omega arith;
      meters = (omega arith, omega arith, omega arith);
      shape = inr ((λ e. omega arith), omega arith, refl, refl);
    },
    (
      record {
        ether_fits = omega arith;
        proto_fits = omega arith;
        meters = (omega arith, omega arith, omega arith);
        shape = inr ((λ e. omega arith), omega arith, refl, refl);
      },
      tt,
    ),
  ),
)

rules_download-load_ntfe_configuration_example :
    let (ok, got, _) =
      rules_download (load_ntfe_configuration (image_bytes three_rules 9 7 ++ (9 ∷ [])) typed) in
    (ok ≡ true) × (got ≡ three_rules)
rules_download-load_ntfe_configuration_example =
    rules_download-load_ntfe_configuration three_rules 9 7 (9 ∷ []) typed (omega arith)
      (omega arith) (omega arith) three_rules-IsStored three_rules-IsEditable

on_scroll-stored_example :
    let d' = on_scroll line_down typed in
    IsDialog d' × ((j : ℕ) → entry (stored d') j ≡ entry (stored typed) j)
on_scroll-stored_example = on_scroll-stored line_down typed typed-IsDialog
