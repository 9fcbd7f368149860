-- ===== src/Rules/Load.antt =====
-- What a rule table loaded from a configuration answers.
use ntfw.Common.{
  ℕ, Bool, true, false, ◌<◌, ◌≤◌, ◌^◌, ◌≡◌, ◌≢◌, ◌⊎◌, inl, inr, arith, refl, sym, ◌==◌,
}
use ntfw.Common.{
  List, [], ◌∷◌, length, ltb, Bool-cases, set, length-set, set_outside, get_or-set_self,
  get_or-set_ne, ◌%◌, ◌*◌, bit_and, not, if◌then◌else◌, ◌∙◌, ap,
}
use ntfw.Common.{All, InList}
use native.Mathlib.Nat.{mod-lt, one-le-pow, pow-le-pow_right}
use native.Mathlib.Decide.{ℕ_discrete}
use ntfw.Common.Bits.{bit_and_mask}
use ntfw.Flow.{Flowsig, sig_data, rule_hashfn, ntfe_rule_hashfn}
use ntfw.Flow.Encoding.{sig_data-ne-zero, ether_le16_to_fs_lem}
use ntfw.Rules.{NtfeRule, Table, hash_flowsig, rule_sig, compile_rule}
use ntfw.Rules.{rule_insert, load_rules, hash_mask, max_rules, rule_at, zero_rule}

-- The fields of an image rule fit their types.
pub record IsRule (rl : NtfeRule) : Type 0 where
  pub ether_fits : rl.ether < 2 ^ 16
  pub dport_fits : rl.dport < 2 ^ 16
  pub proto_fits : rl.proto < 2 ^ 8

-- All fields of a rule fit those of the image.
pub record IsStored (rl : NtfeRule) : Type 0 where
  pub ether_fits : rl.ether < 2 ^ 16
  pub dport_fits : rl.dport < 2 ^ 16
  pub byte_scale_fits : rl.byte_scale < 2 ^ 16
  pub packet_scale_fits : rl.packet_scale < 2 ^ 16
  pub syn_scale_fits : rl.syn_scale < 2 ^ 16
  pub proto_fits : rl.proto < 2 ^ 8
  pub byte_tb_fits : rl.byte_tb < 2 ^ 8
  pub packet_tb_fits : rl.packet_tb < 2 ^ 8
  pub syn_tb_fits : rl.syn_tb < 2 ^ 8

-- With a size of at most seven bits, an index is inside `gs.rules`.
pub hash_flowsig-lt :
    (seed hashsz : ℕ) (fs : Flowsig) → hashsz % 32 ≤ 7 → hash_flowsig seed hashsz fs < max_rules
unfolding hash_flowsig
hash_flowsig-lt seed hashsz fs h =
    rw (one_shl (hashsz % 32), bit_and_mask (hashsz % 32) (rule_hashfn fs seed))
      (below (hashsz % 32) (omega arith))
  where
    one_shl : (k : ℕ) → 1 * 2 ^ k ≡ 2 ^ k
    one_shl k = omega arith

    below : (k : ℕ) → k ≤ 7 → rule_hashfn fs seed % 2 ^ k < 128
    below k p = omega (
      arith,
      mod-lt (rule_hashfn fs seed) (one-le-pow k 2 (omega arith)),
      pow-le-pow_right {n = 2} (omega arith) p,
    )

-- The hash of a rule of the image is that of its signature.
pub hash_rule :
    (seed hashsz : ℕ) (rl : NtfeRule)
    → bit_and (ntfe_rule_hashfn seed rl.ether rl.dport rl.proto) (hash_mask hashsz)
      ≡ hash_flowsig seed hashsz (rule_sig rl)
unfolding hash_flowsig ntfe_rule_hashfn rule_sig
hash_rule seed hashsz rl = refl

-- The signature of a rule is never zero, so that its place counts as taken.
pub rule_sig-ne-zero : (rl : NtfeRule) → IsRule rl → sig_data (rule_sig rl) ≢ 0
unfolding rule_sig
rule_sig-ne-zero rl v =
    sig_data-ne-zero (rule_sig rl) (omega (arith, ether_le16_to_fs_lem rl.ether v.ether_fits))

pub compile_rule-ne-zero : (rl : NtfeRule) → IsRule rl → sig_data (compile_rule rl).fsig ≢ 0
unfolding compile_rule
compile_rule-ne-zero rl v = rule_sig-ne-zero rl v

pub rule_insert_lem :
    (rules : Table) (rl : NtfeRule) (seed hashsz : ℕ) (test : Bool)
    → let at = hash_flowsig seed hashsz (rule_sig rl) in
      rule_insert rules rl seed hashsz test ≡ (
        if not (sig_data (rule_at rules at).fsig == 0)
        then (false, rules)
        else (if test then (true, rules) else (true, set rules at (compile_rule rl))))
unfolding rule_insert hash_flowsig ntfe_rule_hashfn rule_sig
rule_insert_lem rules rl seed hashsz test = refl

-- A rule goes in exactly where its place is free.
rule_insert_free :
    (rules : Table) (rl : NtfeRule) (seed hashsz : ℕ)
    → let at = hash_flowsig seed hashsz (rule_sig rl) in
      sig_data (rule_at rules at).fsig ≡ 0
      → rule_insert rules rl seed hashsz false ≡ (true, set rules at (compile_rule rl))
rule_insert_free rules rl seed hashsz h = rule_insert_lem rules rl seed hashsz false ∙ ground arith

rule_insert_taken :
    (rules : Table) (rl : NtfeRule) (seed hashsz : ℕ) (test : Bool)
    → let at = hash_flowsig seed hashsz (rule_sig rl) in
      sig_data (rule_at rules at).fsig ≢ 0 → rule_insert rules rl seed hashsz test ≡ (false, rules)
rule_insert_taken rules rl seed hashsz test h =
    rule_insert_lem rules rl seed hashsz test ∙ ground arith

-- What a loaded table holds: the places that were taken are as they were, each rule of the list
-- is in its place when the places are inside the table, and a place that was free holds a rule of the list or is free.
pub record IsLoaded (seed hashsz : ℕ) (rls : List NtfeRule) (old new : Table) : Type 0 where
  pub keeps : (i : ℕ) → sig_data (rule_at old i).fsig ≢ 0 → rule_at new i ≡ rule_at old i
  pub places :
      hashsz % 32 ≤ 7
      → length old ≡ max_rules
      → All (λ rl. rule_at new (hash_flowsig seed hashsz (rule_sig rl)) ≡ compile_rule rl) rls
  pub sources :
      (i : ℕ)
      → (rule_at new i ≡ rule_at old i)
        ⊎ ((rl : NtfeRule) × InList rl rls × (rule_at new i ≡ compile_rule rl))

-- The table with the rule in its place.
abbrev pub with_rule : ℕ → ℕ → NtfeRule → Table → Table
with_rule seed hashsz rl old = set old (hash_flowsig seed hashsz (rule_sig rl)) (compile_rule rl)

module _ (seed hashsz : ℕ) (rl : NtfeRule) (rest : List NtfeRule) (old new : Table) where
  abbrev place : ℕ
  place = hash_flowsig seed hashsz (rule_sig rl)

  abbrev extended : Table
  extended = with_rule seed hashsz rl old

  own_rule : place < length old → rule_at extended place ≡ compile_rule rl
  own_rule h = get_or-set_self old place (compile_rule rl) zero_rule h

  source_cons :
      (i : ℕ)
      → (rule_at new i ≡ rule_at extended i)
        ⊎ ((x : NtfeRule) × InList x rest × (rule_at new i ≡ compile_rule x))
      → (rule_at new i ≡ rule_at old i)
        ⊎ ((x : NtfeRule) × InList x (rl ∷ rest) × (rule_at new i ≡ compile_rule x))
  source_cons i (inr (x, m, q)) = inr (x, inr m, q)
  source_cons i (inl q) = elim (ℕ_discrete place i) [
    | yes here ↦ elim (Bool-cases (ltb place (length old))) [
      | inr outside ↦
          inl (q ∙ ap (λ t. rule_at t i) (set_outside old place (compile_rule rl) (ground arith)))
      | inl inside ↦
          inr (rl, inl refl, q ∙ ap (rule_at extended) (sym here) ∙ own_rule (ground arith))
    ]
    | no there ↦ inl (q ∙ get_or-set_ne old place i (compile_rule rl) zero_rule there)
  ]

  IsLoaded-cons :
      IsRule rl
      → sig_data (rule_at old place).fsig ≡ 0
      → IsLoaded seed hashsz rest extended new
      → IsLoaded seed hashsz (rl ∷ rest) old new
  IsLoaded-cons v e l = record {
    keeps = λ i h.
        let ne : place ≢ i = λ q. h (ap (λ k. sig_data (rule_at old k).fsig) (sym q) ∙ e) in
        let other = get_or-set_ne old place i (compile_rule rl) zero_rule ne in
        l.keeps i (rw other h) ∙ other;
    places = λ few size.
        let own = own_rule (omega (arith, size, hash_flowsig-lt seed hashsz (rule_sig rl) few)) in
        (
          l.keeps place (rw own (compile_rule-ne-zero rl v)) ∙ own,
          l.places few (length-set old place (compile_rule rl) ∙ size),
        );
    sources = λ i. source_cons i (l.sources i);
  }

-- The loop stops with success only when every place was free in its turn.
pub load_rules-cons :
    (rl : NtfeRule) (rest : List NtfeRule) (rules : Table) (seed hashsz : ℕ)
    → sig_data (rule_at rules (hash_flowsig seed hashsz (rule_sig rl))).fsig ≡ 0
    → load_rules rules (rl ∷ rest) seed hashsz
      ≡ load_rules (with_rule seed hashsz rl rules) rest seed hashsz
unfolding load_rules
load_rules-cons rl rest rules seed hashsz e = rw (rule_insert_free rules rl seed hashsz e)

pub load_rules_stops :
    (rl : NtfeRule) (rest : List NtfeRule) (rules : Table) (seed hashsz : ℕ)
    → sig_data (rule_at rules (hash_flowsig seed hashsz (rule_sig rl))).fsig ≢ 0
    → load_rules rules (rl ∷ rest) seed hashsz ≡ (false, rules)
unfolding load_rules
load_rules_stops rl rest rules seed hashsz ne = rw (rule_insert_taken rules rl seed hashsz false ne)

pub load_rules-IsLoaded :
    (rls : List NtfeRule) (rules : Table) (seed hashsz : ℕ)
    → All IsRule rls
    → (load_rules rules rls seed hashsz).0 ≡ true
    → IsLoaded seed hashsz rls rules (load_rules rules rls seed hashsz).1
load_rules-IsLoaded [] rules seed hashsz v ok = record {
  keeps = λ i h. unfold load_rules in refl;
  places = λ few size. tt;
  sources = λ i. unfold load_rules in inl refl;
}
load_rules-IsLoaded (rl ∷ rest) rules seed hashsz v ok =
    elim (ℕ_discrete (sig_data (rule_at rules (hash_flowsig seed hashsz (rule_sig rl))).fsig) 0) [
      | yes e ↦
          let eq = load_rules-cons rl rest rules seed hashsz e in
          rw eq (
            IsLoaded-cons seed hashsz rl rest rules _ v.0 e
              (load_rules-IsLoaded rest _ seed hashsz v.1 (rw eq at ok)))
      | no ne ↦ cc (rw (load_rules_stops rl rest rules seed hashsz ne) at ok)
    ]
