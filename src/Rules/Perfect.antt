-- ===== src/Rules/Perfect.antt =====
-- When a list of rules loads: exactly when the hash keeps their places apart.
use native.Mathlib.Decide.{ℕ_discrete}
use ntfw.Common.{ℕ, true, ◌≡◌, ◌≢◌, ◌↔◌, refl, ◌∙◌, ap}
use ntfw.Common.{List, [], ◌∷◌, All, get_or-set_self, get_or-set_ne, get_or-replicate, length}
use ntfw.Common.{length-set, length-replicate, ◌%◌, ◌≤◌, ◌<◌, arith}
use ntfw.Flow.{sig_data}
use ntfw.Rules.{NtfeRule, Table, hash_flowsig, rule_sig, compile_rule, load_rules, zero_rule}
use ntfw.Rules.{rule_at, zero_table, max_rules}
use ntfw.Rules.Load.{
  hash_flowsig-lt, IsRule, load_rules-cons, load_rules_stops, with_rule, compile_rule-ne-zero,
}

module _ (seed hashsz : ℕ) where
  abbrev pub place : NtfeRule → ℕ
  place rl = hash_flowsig seed hashsz (rule_sig rl)

  abbrev pub IsFree : Table → NtfeRule → Type 0
  IsFree rules rl = sig_data (rule_at rules (place rl)).fsig ≡ 0

  -- No two rules of the list have the same place.
  abbrev pub NoClash : List NtfeRule → Type 0
  NoClash [] = Unit
  NoClash (rl ∷ rest) = All (λ x. place rl ≢ place x) rest × NoClash rest

  -- The place of a rule is inside the table.
  inside :
      (rules : Table) (rl : NtfeRule)
      → hashsz % 32 ≤ 7
      → length rules ≡ max_rules
      → place rl < length rules
  inside rules rl few size = omega (arith, size, hash_flowsig-lt seed hashsz (rule_sig rl) few)

  module _ (rules : Table) (rl : NtfeRule) (v : IsRule rl) where
    IsFree-after :
        (xs : List NtfeRule)
        → All (λ x. place rl ≢ place x) xs
        → All (IsFree rules) xs
        → All (IsFree (with_rule seed hashsz rl rules)) xs
    IsFree-after [] apart free = tt
    IsFree-after (x ∷ xs) apart free = (
      rw (get_or-set_ne rules (place rl) (place x) (compile_rule rl) zero_rule apart.0) free.0,
      IsFree-after xs apart.1 free.1,
    )

    IsFree-one :
        (x : NtfeRule)
        → place rl < length rules
        → IsFree (with_rule seed hashsz rl rules) x
        → (place rl ≢ place x) × IsFree rules x
    IsFree-one x within free = elim (ℕ_discrete (place rl) (place x)) [
      | yes e ↦ absurd (compile_rule-ne-zero rl v (taken e))
      | no ne ↦
          (ne, rw (get_or-set_ne rules (place rl) (place x) (compile_rule rl) zero_rule ne) at free)
    ]
      where
        taken : place rl ≡ place x → sig_data (compile_rule rl).fsig ≡ 0
        taken e =
            rw (← get_or-set_self rules (place rl) (compile_rule rl) zero_rule within)
              (ap (λ k. sig_data (rule_at (with_rule seed hashsz rl rules) k).fsig) e ∙ free)

    IsFree-before :
        (xs : List NtfeRule)
        → place rl < length rules
        → All (IsFree (with_rule seed hashsz rl rules)) xs
        → All (λ x. place rl ≢ place x) xs × All (IsFree rules) xs
    IsFree-before [] within free = (tt, tt)
    IsFree-before (x ∷ xs) within free =
        let one = IsFree-one x within free.0 in
        let more = IsFree-before xs within free.1 in ((one.0, more.0), (one.1, more.1))

  loads_of_apart :
      (rls : List NtfeRule) (rules : Table)
      → All IsRule rls
      → All (IsFree rules) rls
      → NoClash rls
      → (load_rules rules rls seed hashsz).0 ≡ true
  loads_of_apart [] rules v free apart = unfold load_rules in refl
  loads_of_apart (rl ∷ rest) rules v free apart =
      rw (load_rules-cons rl rest rules seed hashsz free.0)
        (loads_of_apart rest _ v.1 (IsFree-after rules rl v.0 rest apart.0 free.1) apart.1)

  apart_of_loads :
      (rls : List NtfeRule) (rules : Table)
      → hashsz % 32 ≤ 7
      → length rules ≡ max_rules
      → All IsRule rls
      → (load_rules rules rls seed hashsz).0 ≡ true
      → All (IsFree rules) rls × NoClash rls
  apart_of_loads [] rules few size v ok = (tt, tt)
  apart_of_loads (rl ∷ rest) rules few size v ok =
      elim (ℕ_discrete (sig_data (rule_at rules (place rl)).fsig) 0) [
        | yes e ↦
            let ih =
              apart_of_loads rest _ few (length-set rules (place rl) (compile_rule rl) ∙ size) v.1
                (rw (load_rules-cons rl rest rules seed hashsz e) at ok) in
            let back = IsFree-before rules rl v.0 rest (inside rules rl few size) ih.0 in
            ((e, back.1), (back.0, ih.1))
        | no ne ↦ cc (rw (load_rules_stops rl rest rules seed hashsz ne) at ok)
      ]

  pub All-IsFree : (rls : List NtfeRule) → All (IsFree zero_table) rls
  All-IsFree [] = tt
  All-IsFree (rl ∷ rest) = (
    ap (λ r. sig_data r.fsig) (get_or-replicate max_rules (place rl) zero_rule)
        ∙ unfold sig_data in refl,
    All-IsFree rest,
  )

-- A list of rules loads into an empty table exactly when the hash of the signatures, cut to the
-- size of the table, gives no two of them the same place. The size is at most seven bits.
pub load_rules_iff :
    (rls : List NtfeRule) (seed hashsz : ℕ)
    → hashsz % 32 ≤ 7
    → All IsRule rls
    → ((load_rules zero_table rls seed hashsz).0 ≡ true) ↔ NoClash seed hashsz rls
load_rules_iff rls seed hashsz few v = (
  λ ok.
      (apart_of_loads seed hashsz rls zero_table few (length-replicate max_rules zero_rule) v ok).1,
  λ apart. loads_of_apart seed hashsz rls zero_table v (All-IsFree seed hashsz rls) apart,
)
