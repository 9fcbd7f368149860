-- ===== src/Search/Apart.antt =====
-- The test of one seed: it passes when the hash gives no two rules the same place.
use ntfw.Common.{ℕ, true, ◌≤◌, ◌≡◌, ◌≢◌, ◌↔◌, arith}
use ntfw.Common.{
  sym, ap, ◌∙◌, refl, List, [], ◌∷◌, All, update, update_self, update_ne, u16, bit_and,
}
use native.Mathlib.Decide.{ℕ_discrete}
use ntfw.Flow.{ntfe_rule_hashfn}
use ntfw.Rules.{NtfeRule, hash_mask, rule_sig}
use ntfw.Rules.Load.{hash_rule, hash_flowsig-lt}
use ntfw.Rules.Perfect.{place, NoClash}
use ntfw.Search.{keeps_apart, no_place}

module _ (seed bits : ℕ) (small : bits ≤ 7) where
  -- The place that the loop computes.
  loop_place :
      (rl : NtfeRule)
      → u16 (bit_and (ntfe_rule_hashfn seed rl.ether rl.dport rl.proto) (hash_mask bits))
        ≡ place seed bits rl
  loop_place rl =
      rw (hash_rule seed bits rl)
        (omega (arith, hash_flowsig-lt seed bits (rule_sig rl) (omega arith)))

  abbrev Unseen : (ℕ → ℕ) → NtfeRule → Type 0
  Unseen table rl = table (place seed bits rl) ≡ 0

  module _ (table : ℕ → ℕ) (rl : NtfeRule) where
    abbrev marked : ℕ → ℕ
    marked = update table (place seed bits rl) 1

    Unseen-marked :
        (xs : List NtfeRule)
        → All (Unseen marked) xs
          ↔ (All (Unseen table) xs × All (λ x. place seed bits rl ≢ place seed bits x) xs)
    Unseen-marked [] = (λ h. (tt, tt), λ h. tt)
    Unseen-marked (x ∷ xs) =
        let ih = Unseen-marked xs in
        elim (ℕ_discrete (place seed bits rl) (place seed bits x)) [
          | yes e ↦ (λ h. absurd (seen e h.0), λ h. absurd (h.1.0 e))
          | no ne ↦ (
            λ h. (
              (
                sym (update_ne table (place seed bits rl) (place seed bits x) 1 ne) ∙ h.0,
                (ih.0 h.1).0,
              ),
              (ne, (ih.0 h.1).1),
            ),
            λ h. (
              update_ne table (place seed bits rl) (place seed bits x) 1 ne ∙ h.0.0,
              ih.1 (h.0.1, h.1.1),
            ),
          )
        ]
      where
        seen : place seed bits rl ≡ place seed bits x → Unseen marked x → ⊥
        seen e h = omega (arith, ap marked e, update_self table (place seed bits rl) 1, h)

  keeps_apart_from :
      (table : ℕ → ℕ) (rls : List NtfeRule)
      → (keeps_apart seed bits table rls ≡ true) ↔ (All (Unseen table) rls × NoClash seed bits rls)
  unfolding keeps_apart
  keeps_apart_from table [] = (λ h. (tt, tt), λ h. refl)
  keeps_apart_from table (rl ∷ rest) =
      let ih = keeps_apart_from (marked table rl) rest in
      let split = Unseen-marked table rl rest in rw (loop_place rl) (ground (arith, ih, split))

-- The loop over the rules finds no place taken exactly when no two rules have the same place in a
-- table of at most 2^7 places.
pub keeps_apart_iff :
    (seed bits : ℕ) (rules : List NtfeRule)
    → bits ≤ 7
    → (keeps_apart seed bits no_place rules ≡ true) ↔ NoClash seed bits rules
keeps_apart_iff seed bits rules small = (
  λ h. ((keeps_apart_from seed bits small no_place rules).0 h).1,
  λ h. (keeps_apart_from seed bits small no_place rules).1 (none_seen rules, h),
)
  where
    none_seen : (xs : List NtfeRule) → All (λ x. no_place (place seed bits x) ≡ 0) xs
    none_seen [] = tt
    none_seen (x ∷ xs) = (refl, none_seen xs)
