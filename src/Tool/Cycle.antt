-- ===== src/Tool/Cycle.antt =====
-- The tool and the engine together: what is saved from the editor, the engine loads, and the tool
-- loads again.
use ntfw.Common.{ℕ, true, false, not, ◌&&◌, ◌==◌, ◌^◌, ◌<◌, ◌≤◌, ◌≡◌, arith}
use ntfw.Common.{
  ap, subst, Bool-cases, Option-cases, inl, inr, List, [], ◌∷◌, All, Option, none, some,
}
use ntfw.Common.{length, ◌++◌, ◌∙◌, sym}
use ntfw.Rules.{NtfeRule, zero_table}
use ntfw.Rules.Load.{IsStored}
use ntfw.State.{Gs}
use ntfw.Config.{ntfe_configure, ntfe_validate_configuration}
use ntfw.Config.Apply.{valid_of_configure}
use ntfw.Config.{ntfe_config, config_rules, needed_size}
use ntfw.Config.Tail.{ntfe_configure-append, config_rules-append}
use ntfw.Config.Accepted.{ntfe_validate_configuration_iff}
use ntfw.Engine.Outgoing.{HasRules}
use ntfw.Search.{Event, finished, search_run, new_search, find_rule_magic}
use ntfw.Search.Alone.{find_rule_magic-Fits}
use ntfw.Editor.{editor_rules}
use ntfw.Editor.RoundTrip.{IsEditable}
use ntfw.Pages.{Dialog, rules_download}
use ntfw.Pages.View.{IsDialog}
use ntfw.Pages.Transfer.{rules_download-upload, rules_download-IsStored}
use ntfw.Tool.{
  SaveEnv, has_arp, image_bytes, save_image, save_ntfe_configuration, load_ntfe_configuration,
}
use ntfw.Tool.Encode.{config_rules-image_bytes, ntfe_config-image_bytes, length-image_bytes}
use ntfw.Tool.Saved.{ntfe_configure-image_bytes}

some_inj : {A : Type 0} {a b : A} → some a ≡ some b → a ≡ b
some_inj {A} {a} {b} e = ap (λ o. elim o as (λ _. A) [ none ↦ a | some x ↦ x ]) e

module _ (find : List NtfeRule → Option (ℕ × ℕ)) (env : SaveEnv) where
  -- What is written is the image of the rules.
  save_image-some :
      (rls : List NtfeRule) (seed bits : ℕ) (img : List ℕ)
      → (save_image find env rls seed bits).1 ≡ some img
      → image_bytes rls seed bits ≡ img
  unfolding save_image
  save_image-some rls seed bits img e =
      elim (Bool-cases (not (has_arp rls) && not env.no_arp_yes)) [
        | inl ask ↦ cc (rw ask at e)
        | inr go ↦ some_inj (rw go at e)
      ]

  -- With rules, the seed is that of the search.
  saved_rules :
      (d : Dialog) (img : List ℕ)
      → let (_, rls, _) = rules_download d in
        1 ≤ length rls
        → (save_ntfe_configuration find env d).1 ≡ some img
        → (seed : ℕ) × (bits : ℕ) × (find rls ≡ some (seed, bits))
          × (image_bytes rls seed bits ≡ img)
  unfolding save_ntfe_configuration
  saved_rules d img many e =
      let rls = (rules_download d).1 in
      let some_rules : (length rls == 0) ≡ false = ground arith in
      elim (Option-cases (find rls)) [
        | inl n ↦ cc (rw (n, some_rules) at e)
        | inr ((seed, bits), f) ↦
            (seed, bits, f, save_image-some rls seed bits img (rw (f, some_rules) at e))
      ]

  -- Without rules, the seed and the size stay zero.
  saved_none :
      (d : Dialog) (img : List ℕ)
      → (rules_download d).1 ≡ []
      → (save_ntfe_configuration find env d).1 ≡ some img
      → image_bytes [] 0 0 ≡ img
  unfolding save_ntfe_configuration save_image
  saved_none d img n e = elim (Bool-cases env.no_rules_yes) [
    | inl agreed ↦ save_image-some [] 0 0 img (rw (n, agreed) at e)
    | inr refused ↦ cc (rw (n, refused) at e)
  ]

ntfe_configure-saved :
    (d : Dialog) (id : ℕ) (events : List Event) (env : SaveEnv) (img : List ℕ) (p : ℕ) (gs : Gs)
    → let (_, rls, _) = rules_download d in
      IsDialog d
      → 1 ≤ length rls
      → (search_run rls events (new_search (id ∷ []))).workers 0 ≡ finished
      → (save_ntfe_configuration (λ l. find_rule_magic l (id ∷ []) events) env d).1 ≡ some img
      → gs.rules ≡ zero_table
      → let (ok, gs') = ntfe_configure p img (length img) gs in (ok ≡ true) × HasRules gs' rls
ntfe_configure-saved d id events env img p gs v many done saved empty =
    let rls = (rules_download d).1 in
    let stored = rules_download-IsStored d v in
    let (seed, bits, found, same) =
      saved_rules (λ l. find_rule_magic l (id ∷ []) events) env d img many saved in
    let f = find_rule_magic-Fits rls id events seed bits done found in
    subst (λ i. let (ok, gs') = ntfe_configure p i (length i) gs in (ok ≡ true) × HasRules gs' rls)
      same
      (ntfe_configure-image_bytes rls seed bits p gs (omega (arith, stored.1)) f.3
        (omega (arith, f.0)) f.1 stored.0 f.2 empty)

-- What the tool saves, the engine loads. When the image of one rule or more is to be written, the
-- array of the editor has its 32 entries and their texts and numbers fit, and the seed is that of a
-- search by one worker that has finished, the file configures an engine whose rule table is
-- empty, and the engine then has the table of the rules that were downloaded from the editor. This
-- holds of the image with any bytes behind it, which an older and longer file leaves, since the
-- file is opened without being cut off.
pub ntfe_configure-save_ntfe_configuration :
    (d : Dialog) (id : ℕ) (events : List Event) (env : SaveEnv) (img tail : List ℕ) (p : ℕ)
    (gs : Gs)
    → let (_, rls, _) = rules_download d in
      let file = img ++ tail in
      IsDialog d
      → 1 ≤ length rls
      → (search_run rls events (new_search (id ∷ []))).workers 0 ≡ finished
      → (save_ntfe_configuration (λ l. find_rule_magic l (id ∷ []) events) env d).1 ≡ some img
      → gs.rules ≡ zero_table
      → let (ok, gs') = ntfe_configure p file (length file) gs in (ok ≡ true) × HasRules gs' rls
ntfe_configure-save_ntfe_configuration d id events env img tail p gs v many done saved empty =
    let alone = ntfe_configure-saved d id events env img p gs v many done saved empty in
    let whole =
      ntfe_configure-append p img tail gs (valid_of_configure p img (length img) gs alone.0) in
    subst (λ r. (r.0 ≡ true) × HasRules r.1 (rules_download d).1) (sym whole) alone

-- When no rule is defined, the image that the tool writes once the user agrees is refused by
-- every engine, because its table has no bits.
pub ntfe_validate_configuration-save_none :
    (find : List NtfeRule → Option (ℕ × ℕ)) (env : SaveEnv) (d : Dialog) (img : List ℕ) (gs : Gs)
    → (rules_download d).1 ≡ []
    → (save_ntfe_configuration find env d).1 ≡ some img
    → ntfe_validate_configuration img (length img) gs ≡ false
ntfe_validate_configuration-save_none find env d img gs n saved =
    subst (λ i. ntfe_validate_configuration i (length i) gs ≡ false)
      (saved_none find env d img n saved) refused
  where
    empty : List ℕ
    empty = image_bytes [] 0 0

    refused : ntfe_validate_configuration empty (length empty) gs ≡ false
    refused = elim (Bool-cases (ntfe_validate_configuration empty (length empty) gs)) [
      | inr e ↦ e
      | inl e ↦
          let a = (ntfe_validate_configuration_iff empty (length empty) gs).0 e in
          absurd (
            a.table_size_set (
              ap (λ c. c.rule_hashsz)
                (ntfe_config-image_bytes [] 0 0 (omega arith) (omega arith) (omega arith))))
    ]

-- The rules of a saved image are read back, whatever stands behind it in the file.
config_rules-saved :
    (rls : List NtfeRule) (seed bits : ℕ) (tail : List ℕ)
    → length rls ≤ 128
    → seed < 2 ^ 32
    → bits < 2 ^ 32
    → All IsStored rls
    → config_rules (ntfe_config (image_bytes rls seed bits ++ tail)) ≡ rls
config_rules-saved rls seed bits tail few s b stored =
    let img = image_bytes rls seed bits in
    config_rules-append img tail (
      subst (λ c. needed_size c ≤ length img) (sym (ntfe_config-image_bytes rls seed bits few s b))
        (omega (arith, length-image_bytes rls seed bits)))
    ∙ config_rules-image_bytes rls seed bits few s b stored

-- What the tool saves, it loads again: of a file that begins with a saved image of at most 32
-- rules that the editor can show, the tool fills and shows its array so that a download, through
-- the rows on the screen, succeeds and gives the same rules, whatever the editor held before.
pub rules_download-load_ntfe_configuration :
    (rls : List NtfeRule) (seed bits : ℕ) (tail : List ℕ) (d : Dialog)
    → length rls ≤ editor_rules
    → seed < 2 ^ 32
    → bits < 2 ^ 32
    → All IsStored rls
    → All IsEditable rls
    → let file = image_bytes rls seed bits ++ tail in
      let (ok, got, _) = rules_download (load_ntfe_configuration file d) in
      (ok ≡ true) × (got ≡ rls)
unfolding load_ntfe_configuration
rules_download-load_ntfe_configuration rls seed bits tail d few s b stored shows =
    rw (config_rules-saved rls seed bits tail (omega arith) s b stored)
      (rules_download-upload rls d few stored shows)
