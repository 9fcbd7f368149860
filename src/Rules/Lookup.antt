-- ===== src/Rules/Lookup.antt =====
-- `rule_lookup` on a loaded table, and when loading succeeds.
use ntfw.Common.{ℕ, true, ◌≡◌, ◌≢◌, inl, inr, arith, refl, sym, ◌∙◌, ap}
use ntfw.Common.{List, [], ◌∷◌, some, All, InList, get_or-replicate, length-replicate, ◌%◌, ◌≤◌}
use ntfw.Flow.{Flowsig, sig_data}
use ntfw.Rules.{NtfeRule, Rule, Table, hash_flowsig, rule_lookup, rule_sig, compile_rule}
use ntfw.Rules.{load_rules, zero_rule, zero_table, rule_at, max_rules}
use ntfw.Rules.Load.{IsRule, IsLoaded, load_rules-IsLoaded}

-- A rule is found under its signature.
abbrev pub Finds : Table → ℕ → ℕ → NtfeRule → Type 0
Finds rules seed hashsz rl = rule_lookup rules seed hashsz (rule_sig rl) ≡ some (compile_rule rl)

rule_lookup_place :
    (rules : Table) (seed hashsz : ℕ) (rl : NtfeRule)
    → rule_at rules (hash_flowsig seed hashsz (rule_sig rl)) ≡ compile_rule rl
    → Finds rules seed hashsz rl
unfolding rule_lookup compile_rule
rule_lookup_place rules seed hashsz rl e = rw e (ground arith)

All-Finds :
    (rules : Table) (seed hashsz : ℕ) (rls : List NtfeRule)
    → All (λ rl. rule_at rules (hash_flowsig seed hashsz (rule_sig rl)) ≡ compile_rule rl) rls
    → All (Finds rules seed hashsz) rls
All-Finds rules seed hashsz [] h = tt
All-Finds rules seed hashsz (rl ∷ rls) h =
    (rule_lookup_place rules seed hashsz rl h.0, All-Finds rules seed hashsz rls h.1)

-- What a lookup returns stands in the table under the signature looked up.
pub rule_lookup-some :
    (rules : Table) (seed hashsz : ℕ) (fs : Flowsig) (r : Rule)
    → rule_lookup rules seed hashsz fs ≡ some r
    → (rule_at rules (hash_flowsig seed hashsz fs) ≡ r) × (sig_data r.fsig ≡ sig_data fs)
unfolding rule_lookup
rule_lookup-some rules seed hashsz fs r h = ground arith

zero_rule_data : sig_data zero_rule.fsig ≡ 0
unfolding sig_data
zero_rule_data = refl

found_source :
    (rls : List NtfeRule) (seed hashsz : ℕ) (rules : Table) (fs : Flowsig) (r : Rule)
    → IsLoaded seed hashsz rls zero_table rules
    → sig_data fs ≢ 0
    → rule_lookup rules seed hashsz fs ≡ some r
    → (rl : NtfeRule) × InList rl rls × (r ≡ compile_rule rl)
found_source rls seed hashsz rules fs r l ne found =
    let at = rule_lookup-some rules seed hashsz fs r found in
    let empty_place = get_or-replicate max_rules (hash_flowsig seed hashsz fs) zero_rule in
    elim (l.sources (hash_flowsig seed hashsz fs)) [
      | inl e ↦
          absurd (
            ne (sym at.1 ∙ ap (λ x. sig_data x.fsig) (sym at.0 ∙ e ∙ empty_place) ∙ zero_rule_data))
      | inr (rl, m, e) ↦ (rl, m, sym at.0 ∙ e)
    ]

-- A table of at most seven bits that was loaded with success from the rules of a configuration
-- finds each of them under its signature, and finds under a signature that is not zero nothing but
-- a rule of the configuration with that signature.
pub load_rules-rule_lookup :
    (rls : List NtfeRule) (seed hashsz : ℕ)
    → hashsz % 32 ≤ 7
    → All IsRule rls
    → (load_rules zero_table rls seed hashsz).0 ≡ true
    → let rules = (load_rules zero_table rls seed hashsz).1 in
      All (Finds rules seed hashsz) rls
      × ((fs : Flowsig) (r : Rule)
          → sig_data fs ≢ 0
          → rule_lookup rules seed hashsz fs ≡ some r
          → (sig_data r.fsig ≡ sig_data fs)
            × ((rl : NtfeRule) × InList rl rls × (r ≡ compile_rule rl)))
load_rules-rule_lookup rls seed hashsz few v ok =
    let l = load_rules-IsLoaded rls zero_table seed hashsz v ok in
    (
      All-Finds _ seed hashsz rls (l.places few (length-replicate max_rules zero_rule)),
      λ fs r ne found. (
        (rule_lookup-some _ seed hashsz fs r found).1,
        found_source rls seed hashsz _ fs r l ne found,
      ),
    )
