-- ===== src/Editor/Stored.antt =====
-- What is downloaded fits the fields of the image.
use ntfw.Common.{ℕ, suc, Bool, true, false, not, ◌||◌, ◌+◌, ◌^◌, ◌<◌, ◌≤◌, ◌≡◌, ◌==◌, ltb}
use ntfw.Common.{arith, refl, if◌then◌else◌, Bool-cases, Option-cases, inl, inr, u8, u16, ◌<<<◌}
use ntfw.Common.{List, [], ◌∷◌, All, Option, none, some, bit_and, length}
use ntfw.Net.{eth_p_ip}
use ntfw.Rules.{NtfeRule}
use ntfw.Rules.Load.{IsStored}
use ntfw.Editor.{EditorRule, Downloaded, undefined, unrecognized, defined, rule_of, Text}
use ntfw.Editor.{
  custom_rule, download_rule, download_rules, after_entry, normalize, find_text, str_to_l4,
  str_to_l3,
}
use ntfw.Editor.{read_hex, union, is_hex}

-- The numbers of an entry fit their fields.
pub record IsEditorRule (r : EditorRule) : Type 0 where
  pub port_fits : r.port < 2 ^ 16
  pub costs_fit : (r.byte_cost < 2 ^ 16) × (r.packet_cost < 2 ^ 16) × (r.syn_cost < 2 ^ 16)
  pub meters_fit : (r.byte_meter < 4) × (r.packet_meter < 4) × (r.syn_meter < 4)

-- The values of a map are below a bound.
find_text-lt :
    (n : ℕ) (s : Text) (l : List (Text × ℕ))
    → All (λ e. e.1 < n) l
    → (v : ℕ) → find_text s l ≡ some v
    → v < n
find_text-lt n s [] h v e = cc
find_text-lt n s (p ∷ rest) h v e = ground (arith, h.0, find_text-lt n s rest h.1 v)

read_hex-lt : (k e : ℕ) (s : Text) (v : ℕ) → e < 2 ^ 16 → read_hex k e s ≡ some v → v < 2 ^ 16
unfolding read_hex
read_hex-lt k e [] v h q = ground arith
read_hex-lt k e (c ∷ cs) v h q =
    let value = if bit_and c 0x40 == 0 then bit_and c 0x0f else bit_and c 0x0f + 9 in
    let ih = read_hex-lt (u8 (k + 1)) (u16 (u16 (e <<< 4) + value)) cs v (omega arith) in
    ends (not (is_hex c) || ltb 4 k) (read_hex (u8 (k + 1)) (u16 (u16 (e <<< 4) + value)) cs) ih q
  where
    ends :
        (b : Bool) (o : Option ℕ)
        → (o ≡ some v → v < 2 ^ 16)
        → if◌then◌else◌ {A = Option ℕ} b none o ≡ some v
        → v < 2 ^ 16
    ends true o ih q = cc
    ends false o ih q = ih q

abbrev Fine : Downloaded → Type 0
Fine (defined rl) = IsStored rl
Fine _ = Unit

module _ (src : EditorRule) (v : IsEditorRule src) where
  rule_of-IsStored :
      (a b c : ℕ) → a < 2 ^ 16 → b < 2 ^ 8 → c < 2 ^ 16 → IsStored (rule_of src a b c)
  rule_of-IsStored a b c ha hb hc = record {
    ether_fits = ha;
    dport_fits = hc;
    byte_scale_fits = v.costs_fit.0;
    packet_scale_fits = v.costs_fit.1;
    syn_scale_fits = v.costs_fit.2;
    proto_fits = hb;
    byte_tb_fits = omega (arith, v.meters_fit);
    packet_tb_fits = omega (arith, v.meters_fit);
    syn_tb_fits = omega (arith, v.meters_fit);
  }

  custom_rule-Fine : (o : Option ℕ) → ((x : ℕ) → o ≡ some x → x < 2 ^ 16) → Fine (custom_rule src o)
  unfolding custom_rule
  custom_rule-Fine none h = tt
  custom_rule-Fine (some ether) h = elim (Bool-cases (bit_and ether 0xff00 == 0)) [
    | inl e ↦
        rw e (rule_of-IsStored eth_p_ip (u8 ether) 0 (omega arith) (omega arith) (omega arith))
    | inr e ↦ rw e (rule_of-IsStored ether 0 0 (h ether refl) (omega arith) (omega arith))
  ]

  download_rule-Fine : Fine (download_rule src)
  unfolding download_rule
  download_rule-Fine = elim (Bool-cases (bit_and (union src.proto) 0xe0 == 0)) [
    | inl e ↦ rw e tt
    | inr e ↦ elim (Option-cases (find_text src.proto str_to_l4)) [
      | inr (l4, e4) ↦
          rw (e, e4)
            (rule_of-IsStored eth_p_ip l4 src.port (omega arith)
              (find_text-lt 256 src.proto str_to_l4 (omega arith) l4 e4) v.port_fits)
      | inl n4 ↦ elim (Option-cases (find_text src.proto str_to_l3)) [
        | inr (l3, e3) ↦
            rw (e, n4, e3)
              (rule_of-IsStored l3 0 0
                (find_text-lt (2 ^ 16) src.proto str_to_l3 (omega arith) l3 e3) (omega arith)
                (omega arith))
        | inl n3 ↦
            rw (e, n4, n3)
              (custom_rule-Fine (read_hex 0 0 src.proto)
                (λ x q. read_hex-lt 0 0 src.proto x (omega arith) q))
      ]
    ]
  ]

after_entry-IsStored :
    (d : Downloaded) (src : EditorRule) (rest : List EditorRule)
    (more : Bool × List NtfeRule × List EditorRule)
    → Fine d
    → All IsStored more.1 × (length more.1 ≤ length rest)
    → let rls = (after_entry d src rest more).1 in
      All IsStored rls × (length rls ≤ suc (length rest))
unfolding after_entry
after_entry-IsStored undefined src rest (ok, rls, left) f ih = (ih.0, omega (arith, ih.1))
after_entry-IsStored unrecognized src rest (ok, rls, left) f ih = (tt, omega arith)
after_entry-IsStored (defined rl) src rest (ok, rls, left) f ih = ((f, ih.0), omega (arith, ih.1))

-- Of an array of entries that fit, rules are downloaded that fit, no more than there are entries.
pub download_rules-IsStored :
    (rules : List EditorRule)
    → All IsEditorRule rules
    → let (_, rls, _) = download_rules rules in All IsStored rls × (length rls ≤ length rules)
unfolding download_rules
download_rules-IsStored [] v = (tt, omega arith)
download_rules-IsStored (r ∷ rest) v =
    let u : IsEditorRule (normalize r) = record {
      port_fits = v.0.port_fits;
      costs_fit = v.0.costs_fit;
      meters_fit = v.0.meters_fit;
    } in
    after_entry-IsStored (download_rule (normalize r)) (normalize r) rest (download_rules rest)
      (download_rule-Fine (normalize r) u) (download_rules-IsStored rest v.1)
