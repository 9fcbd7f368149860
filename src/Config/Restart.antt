-- ===== src/Config/Restart.antt =====
-- Validation looks at the table that the engine has, not at the image alone.
use ntfw.Common.{
  length-replicate, ◌%◌, ◌≤◌, arith, ℕ, zero, suc, length, true, false, ◌≡◌, ◌≢◌, refl, sym, ◌∙◌,
  ap, List, [], ◌∷◌, All, Bool-cases, inl, inr,
}
use ntfw.Flow.{sig_data}
use ntfw.Rules.{NtfeRule, Table, zero_rule, zero_table, max_rules}
use ntfw.Rules.Load.{IsRule, IsLoaded, compile_rule-ne-zero, load_rules-IsLoaded}
use ntfw.Rules.Perfect.{IsFree}
use ntfw.State.{Gs}
use ntfw.Config.{ntfe_config, config_rules, ntfe_configure, ntfe_validate_configuration}
use ntfw.Config.{read_rules, rule_size, advance}
use ntfw.Config.Accepted.{ntfe_validate_configuration_iff, IsAccepted-inside}
use ntfw.Config.Image.{IsBytes, config_rules-IsRule}
use ntfw.Config.Apply.{valid_of_configure, ntfe_configure_lem, configure_invalid}

-- The places of loaded rules are not free.
not-All-IsFree :
    (seed hashsz : ℕ) (rls : List NtfeRule) (table : Table)
    → All IsRule rls
    → length rls ≢ 0
    → hashsz % 32 ≤ 7
    → IsLoaded seed hashsz rls zero_table table
    → ¬ All (IsFree seed hashsz table) rls
not-All-IsFree seed hashsz [] table v ne few l free = ne refl
not-All-IsFree seed hashsz (rl ∷ rest) table v ne few l free = compile_rule-ne-zero rl v.0 (
    sym (ap (λ r. sig_data r.fsig) (l.places few (length-replicate max_rules zero_rule)).0)
    ∙ free.0)

length-read_rules : (n : ℕ) (bytes : List ℕ) → length (read_rules n bytes) ≡ n
unfolding read_rules
length-read_rules zero bytes = refl
length-read_rules (suc n) bytes = ap suc (length-read_rules n (advance rule_size bytes))

-- Applying an image that is already applied, one with a rule at least, fails: the second call is
-- refused by the validation and changes nothing. The five low bits of its size of the table are
-- not 31.
pub ntfe_configure-again :
    (p : ℕ) (img : List ℕ) (cfg_len : ℕ) (gs : Gs)
    → IsBytes img
    → (ntfe_config img).rule_hashsz % 32 ≢ 31
    → (ntfe_config img).rule_count ≢ 0
    → (ntfe_configure p img cfg_len gs).0 ≡ true
    → let gs' = (ntfe_configure p img cfg_len gs).1 in
      ntfe_configure p img cfg_len gs' ≡ (false, gs')
ntfe_configure-again p img cfg_len gs v small ne h =
    let cfg = ntfe_config img in
    let gs' = (ntfe_configure p img cfg_len gs).1 in
    let holds = ntfe_configure_lem p img cfg_len gs v small h in
    let rules = config_rules-IsRule img v in
    let few : gs'.rule_hashsz % 32 ≤ 7 = omega (
      arith,
      holds.4,
      IsAccepted-inside cfg cfg_len gs.rules
          ((ntfe_validate_configuration_iff img cfg_len gs).0
            (valid_of_configure p img cfg_len gs h))
          small,
    ) in
    let some_rule : length (config_rules cfg) ≢ 0 =
      λ e. ne (sym (length-read_rules cfg.rule_count cfg.ect) ∙ e) in
    let loaded =
      load_rules-IsLoaded (config_rules cfg) zero_table gs'.rule_seed gs'.rule_hashsz rules
        holds.0.loaded in
    let taken =
      not-All-IsFree gs'.rule_seed gs'.rule_hashsz (config_rules cfg) _ rules some_rule few
        loaded in
    elim (Bool-cases (ntfe_validate_configuration img cfg_len gs')) [
      | inl e ↦ absurd (
          taken (
            rw (holds.0.table_eq, ← holds.3, ← holds.4) at
              ((ntfe_validate_configuration_iff img cfg_len gs').0 e).free))
      | inr e ↦ configure_invalid p img cfg_len gs' e
    ]
