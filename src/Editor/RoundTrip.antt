-- ===== src/Editor/RoundTrip.antt =====
-- Rules that are uploaded to the editor and downloaded again.
use ntfw.Common.{ℕ, zero, suc, true, false, ◌+◌, ◌-◌, ◌*◌, ◌/◌, ◌%◌, ◌^◌, ◌<◌, ◌≤◌, ◌≡◌, ◌≢◌, ◌⊎◌}
use ntfw.Common.{arith, refl, sym, ap, ap₂, ◌∙◌, ◌==◌, ==_iff, Option-cases, inl, inr}
use ntfw.Common.{
  List, [], ◌∷◌, ◌++◌, All, none, some, bit_and, length, length-append, replicate, set, map,
}
use ntfw.Common.Bits.{bit_and_high, bit_and_mask}
use ntfw.Net.{eth_p_ip}
use ntfw.Rules.{NtfeRule}
use ntfw.Editor.{EditorRule, defined, rule_of, empty_rule}
use ntfw.Editor.{
  upload_rule, upload_from, upload_rules, proto_text, custom_rule, download_rule, download_rules,
  after_entry,
}
use ntfw.Editor.{
  normalize, find_text, find_value, str_to_l4, str_to_l3, l4_to_str, l3_to_str, lower,
}
use ntfw.Editor.{union, hex_text, read_hex, editor_rules, Text}
use ntfw.Editor.Names.{l4_to_str-IsL4, l3_to_str-IsL3, find_text-all_hex, names_not_hex, all_hex}
use ntfw.Editor.Hex.{all_hex-hex_text, hex_text_shows, read_hex-word, lower_shows}

-- The rules that the editor can show as they are: of a protocol over IP, with a port only when
-- the protocol has a name; or of another ethertype of at least 0x100, without protocol and port.
-- The meters have two bits.
pub record IsEditable (rl : NtfeRule) : Type 0 where
  pub ether_fits : rl.ether < 2 ^ 16
  pub proto_fits : rl.proto < 2 ^ 8
  pub meters : (rl.byte_tb < 4) × (rl.packet_tb < 4) × (rl.syn_tb < 4)
  pub shape :
      ((rl.ether ≡ eth_p_ip) × ((rl.dport ≡ 0) ⊎ (find_value rl.proto l4_to_str ≢ none)))
      ⊎ ((rl.ether ≢ eth_p_ip) × (0x100 ≤ rl.ether) × (rl.proto ≡ 0) × (rl.dport ≡ 0))

-- What is downloaded of an entry that has been turned to lower case, by the look of its text.
module _ (src : EditorRule) where
  download_l4 :
      (v : ℕ)
      → (bit_and (union src.proto) 0xe0 == 0) ≡ false
      → find_text src.proto str_to_l4 ≡ some v
      → download_rule src ≡ defined (rule_of src eth_p_ip v src.port)
  unfolding download_rule
  download_l4 v shows e = rw (shows, e) refl

  download_l3 :
      (v : ℕ)
      → (bit_and (union src.proto) 0xe0 == 0) ≡ false
      → find_text src.proto str_to_l4 ≡ none
      → find_text src.proto str_to_l3 ≡ some v
      → download_rule src ≡ defined (rule_of src v 0 0)
  unfolding download_rule
  download_l3 v shows e4 e = rw (shows, e4, e) refl

  download_custom :
      (bit_and (union src.proto) 0xe0 == 0) ≡ false
      → all_hex src.proto ≡ true
      → download_rule src ≡ custom_rule src (read_hex 0 0 src.proto)
  unfolding download_rule
  download_custom shows hex =
      rw
        (
          shows,
          find_text-all_hex src.proto str_to_l4 hex names_not_hex.0,
          find_text-all_hex src.proto str_to_l3 hex names_not_hex.1,
        )
        refl

high_byte : (v : ℕ) → v < 2 ^ 16 → bit_and v 0xff00 ≡ v / 256 * 256
high_byte v h = omega (arith, bit_and_high 8 v 255, bit_and_mask 8 (v / 256))

custom_rule-proto :
    (src : EditorRule) (v : ℕ)
    → v < 2 ^ 8
    → custom_rule src (some v) ≡ defined (rule_of src eth_p_ip v 0)
unfolding custom_rule
custom_rule-proto src v h =
    rw (high_byte v (omega arith), small)
      (ap (λ x. defined (rule_of src eth_p_ip x 0)) (omega arith))
  where
    small : v / 256 * 256 ≡ 0
    small = omega arith

custom_rule-ether :
    (src : EditorRule) (v : ℕ)
    → v < 2 ^ 16
    → 0x100 ≤ v
    → custom_rule src (some v) ≡ defined (rule_of src v 0 0)
unfolding custom_rule
custom_rule-ether src v h big = rw (high_byte v h, high) refl
  where
    high : (v / 256 * 256 == 0) ≡ false
    high = ground arith

-- The text that is uploaded, in the four cases.
module _ (rl : NtfeRule) where
  text_l4 :
      (s : Text)
      → (rl.ether == eth_p_ip) ≡ true
      → find_value rl.proto l4_to_str ≡ some s
      → proto_text rl ≡ s
  unfolding proto_text
  text_l4 s e found = rw (e, found) refl

  text_custom_l4 :
      (rl.ether == eth_p_ip) ≡ true
      → find_value rl.proto l4_to_str ≡ none
      → proto_text rl ≡ hex_text 3 rl.proto
  unfolding proto_text
  text_custom_l4 e found = rw (e, found) refl

  text_l3 :
      (s : Text)
      → (rl.ether == eth_p_ip) ≡ false
      → find_value rl.ether l3_to_str ≡ some s
      → proto_text rl ≡ s
  unfolding proto_text
  text_l3 s e found = rw (found, e) refl

  text_custom_l3 :
      (rl.ether == eth_p_ip) ≡ false
      → find_value rl.ether l3_to_str ≡ none
      → proto_text rl ≡ hex_text 3 rl.ether
  unfolding proto_text
  text_custom_l3 e found = rw (found, e) refl

module _ (rl : NtfeRule) (v : IsEditable rl) where
  abbrev entry : EditorRule
  entry = normalize (upload_rule rl)

  same_rule : (a b c : ℕ) → a ≡ rl.ether → b ≡ rl.proto → c ≡ rl.dport → rule_of entry a b c ≡ rl
  unfolding upload_rule
  same_rule a b c ea eb ec =
      let m0 : rl.byte_tb % 2 ^ 2 ≡ rl.byte_tb = omega (arith, v.meters.0) in
      let m1 : rl.packet_tb % 2 ^ 2 ≡ rl.packet_tb = omega (arith, v.meters.1) in
      let m2 : rl.syn_tb % 2 ^ 2 ≡ rl.syn_tb = omega (arith, v.meters.2) in
      rw (ea, eb, ec, m0, m1, m2) refl

  entry_text : (s : Text) → proto_text rl ≡ s → entry.proto ≡ lower s
  unfolding upload_rule
  entry_text s e = ap lower e

  entry_port : entry.port ≡ rl.dport
  unfolding upload_rule
  entry_port = refl

  shows_named :
      (s : Text)
      → proto_text rl ≡ s
      → 1 ≤ length s
      → (bit_and (union entry.proto) 0xe0 == 0) ≡ false
  shows_named s e long = rw (entry_text s e) (lower_shows s long)

  back_l4 :
      (s : Text)
      → rl.ether ≡ eth_p_ip
      → find_value rl.proto l4_to_str ≡ some s
      → download_rule entry ≡ defined rl
  back_l4 s e found =
      let text = text_l4 rl s ((==_iff rl.ether eth_p_ip).1 e) found in
      let l4 = l4_to_str-IsL4 rl.proto s found in
      download_l4 entry rl.proto (shows_named s text l4.0) (rw (entry_text s text) l4.1)
      ∙ ap defined (same_rule eth_p_ip rl.proto entry.port (sym e) refl entry_port)

  back_l3 :
      (s : Text)
      → (rl.ether == eth_p_ip) ≡ false
      → rl.proto ≡ 0
      → rl.dport ≡ 0
      → find_value rl.ether l3_to_str ≡ some s
      → download_rule entry ≡ defined rl
  back_l3 s e no_proto no_port found =
      let text = text_l3 rl s e found in
      let l3 = l3_to_str-IsL3 rl.ether s found in
      download_l3 entry rl.ether (shows_named s text l3.0) (rw (entry_text s text) l3.1)
        (rw (entry_text s text) l3.2)
      ∙ ap defined (same_rule rl.ether 0 0 refl (sym no_proto) (sym no_port))

  shows_custom :
      (x : ℕ)
      → proto_text rl ≡ hex_text 3 x
      → x < 2 ^ 16
      → download_rule entry ≡ custom_rule entry (some x)
  shows_custom x e h =
      let text = entry_text (hex_text 3 x) e in
      download_custom entry (rw text (hex_text_shows x)) (rw text (all_hex-hex_text 3 x))
      ∙ ap (custom_rule entry) (rw text (read_hex-word x h))

  back_proto :
      rl.ether ≡ eth_p_ip
      → rl.dport ≡ 0
      → find_value rl.proto l4_to_str ≡ none
      → download_rule entry ≡ defined rl
  back_proto e no_port found =
      shows_custom rl.proto (text_custom_l4 rl ((==_iff rl.ether eth_p_ip).1 e) found)
        (omega (arith, v.proto_fits))
      ∙ custom_rule-proto entry rl.proto v.proto_fits
      ∙ ap defined (same_rule eth_p_ip rl.proto 0 (sym e) refl (sym no_port))

  back_ether :
      (rl.ether == eth_p_ip) ≡ false
      → 0x100 ≤ rl.ether
      → rl.proto ≡ 0
      → rl.dport ≡ 0
      → find_value rl.ether l3_to_str ≡ none
      → download_rule entry ≡ defined rl
  back_ether e big no_proto no_port found =
      shows_custom rl.ether (text_custom_l3 rl e found) v.ether_fits
      ∙ custom_rule-ether entry rl.ether v.ether_fits big
      ∙ ap defined (same_rule rl.ether 0 0 refl (sym no_proto) (sym no_port))

  back : download_rule entry ≡ defined rl
  back = elim v.shape [
    | inl (e, port) ↦ elim (Option-cases (find_value rl.proto l4_to_str)) [
      | inr (s, found) ↦ back_l4 s e found
      | inl found ↦ elim port [ inl p ↦ back_proto e p found | inr named ↦ absurd (named found) ]
    ]
    | inr (ne, big, no_proto, no_port) ↦
        let other : (rl.ether == eth_p_ip) ≡ false = ground (arith, ne) in
        elim (Option-cases (find_value rl.ether l3_to_str)) [
          | inr (s, found) ↦ back_l3 s other no_proto no_port found
          | inl found ↦ back_ether other big no_proto no_port found
        ]
  ]

set-append :
    (done : List EditorRule) (x y : EditorRule) (rest : List EditorRule)
    → set (done ++ (x ∷ rest)) (length done) y ≡ done ++ (y ∷ rest)
set-append [] x y rest = refl
set-append (r ∷ done) x y rest = ap (λ l. r ∷ l) (set-append done x y rest)

snoc-append :
    (done : List EditorRule) (x : EditorRule) (rest : List EditorRule)
    → (done ++ (x ∷ [])) ++ rest ≡ done ++ (x ∷ rest)
snoc-append [] x rest = refl
snoc-append (r ∷ done) x rest = ap (λ l. r ∷ l) (snoc-append done x rest)

-- What the loop of the upload leaves in an array: the entries before, the rules, and the rest.
upload_from-append :
    (done : List EditorRule) (rls : List NtfeRule) (rest : List EditorRule)
    → upload_from (length done) rls (done ++ (replicate (length rls) empty_rule ++ rest))
      ≡ done ++ (map upload_rule rls ++ rest)
unfolding upload_from
upload_from-append done [] rest = refl
upload_from-append done (rl ∷ rls) rest =
    let x = upload_rule rl in
    let after = replicate (length rls) empty_rule ++ rest in
    let last = done ++ (x ∷ []) in
    ap₂ (λ i l. upload_from i rls l) (omega (arith, length-append done (x ∷ [])))
      (set-append done empty_rule x after ∙ sym (snoc-append done x after))
    ∙ upload_from-append last rls rest
    ∙ snoc-append done x (map upload_rule rls ++ rest)

download_rules-defined :
    (r : EditorRule) (rest : List EditorRule) (rl : NtfeRule)
    → download_rule (normalize r) ≡ defined rl
    → let (ok, more, _) = download_rules rest in
      let (ok', got, _) = download_rules (r ∷ rest) in (ok' ≡ ok) × (got ≡ rl ∷ more)
unfolding download_rules after_entry
download_rules-defined r rest rl e = rw (download_rules, e) (refl, refl)

download_rules-map :
    (rls : List NtfeRule) (rest : List EditorRule)
    → All IsEditable rls
    → let (ok, more, _) = download_rules rest in
      let (ok', got, _) = download_rules (map upload_rule rls ++ rest) in
      (ok' ≡ ok) × (got ≡ rls ++ more)
download_rules-map [] rest v = (refl, refl)
download_rules-map (rl ∷ rls) rest v =
    let one =
      download_rules-defined (upload_rule rl) (map upload_rule rls ++ rest) rl (back rl v.0) in
    let ih = download_rules-map rls rest v.1 in (one.0 ∙ ih.0, one.1 ∙ ap (λ l. rl ∷ l) ih.1)

download_rules-empty :
    (n : ℕ) → let (ok, got, _) = download_rules (replicate n empty_rule) in (ok ≡ true) × (got ≡ [])
unfolding download_rules download_rule after_entry
download_rules-empty zero = (refl, refl)
download_rules-empty (suc n) = download_rules-empty n

replicate-split :
    (n k : ℕ) → replicate (n + k) empty_rule ≡ replicate n empty_rule ++ replicate k empty_rule
replicate-split zero k = ap (λ m. replicate m empty_rule) (omega arith)
replicate-split (suc n) k =
    let next : suc n + k ≡ suc (n + k) = omega arith in
    ap (λ m. replicate m empty_rule) next ∙ ap (λ l. empty_rule ∷ l) (replicate-split n k)

append-none : (l : List NtfeRule) → l ++ [] ≡ l
append-none [] = refl
append-none (x ∷ l) = ap (λ t. x ∷ t) (append-none l)

-- The array after an upload.
pub upload_rules_lem :
    (rls : List NtfeRule)
    → length rls ≤ editor_rules
    → upload_rules rls ≡ map upload_rule rls ++ replicate (editor_rules - length rls) empty_rule
unfolding upload_rules
upload_rules_lem rls few =
    ap (upload_from 0 rls) (
      ap (λ m. replicate m empty_rule) (sum (length rls) few)
      ∙ replicate-split (length rls) (editor_rules - length rls))
    ∙ upload_from-append [] rls (replicate (editor_rules - length rls) empty_rule)
  where
    sum : (n : ℕ) → n ≤ 32 → 32 ≡ n + (32 - n)
    sum n h = omega arith

-- At most 32 rules that the editor can show come back from it as they were, and the download
-- succeeds: when the protocols are IP, with a port only for a named protocol, or another
-- ethertype of at least 0x100 without protocol and port, and the meters fit two bits.
pub download_rules-upload :
    (rls : List NtfeRule)
    → length rls ≤ editor_rules
    → All IsEditable rls
    → let (ok, got, _) = download_rules (upload_rules rls) in (ok ≡ true) × (got ≡ rls)
download_rules-upload rls few v = rw (upload_rules_lem rls few) (
    let clear = download_rules-empty (editor_rules - length rls) in
    let back_all = download_rules-map rls (replicate (editor_rules - length rls) empty_rule) v in
    (back_all.0 ∙ clear.0, back_all.1 ∙ ap (λ l. rls ++ l) clear.1 ∙ append-none rls))
