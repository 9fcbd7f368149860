-- ===== src/Pages/Transfer.antt =====
-- Rules that are uploaded to the editor, shown, read back and downloaded.
use ntfw.Common.{
  ℕ, zero, suc, Bool, true, false, not, ◌==◌, ◌+◌, ◌-◌, ◌/◌, ◌%◌, ◌≤◌, ◌≡◌, arith, refl, sym, ap,
  ap₂, ◌∙◌, subst,
}
use ntfw.Common.{
  if◌then◌else◌, ltb, Bool-cases, Option-cases, inl, inr, List, [], ◌∷◌, ◌++◌, All, none, some,
}
use ntfw.Common.{length, length-append, length-set, replicate, set, map}
use ntfw.Net.{eth_p_ip}
use ntfw.Rules.{NtfeRule}
use ntfw.Rules.Load.{IsStored}
use ntfw.Editor.{Text, EditorRule, empty_rule, editor_rules, upload_rule, upload_from}
use ntfw.Editor.{
  upload_rules, download_rules, proto_text, hex_text, upper_digit, find_value, l3_to_str, l4_to_str,
}
use ntfw.Editor.Names.{find_value-All}
use ntfw.Editor.RoundTrip.{IsEditable, upload_rules_lem, download_rules-upload}
use ntfw.Editor.Stored.{IsEditorRule, download_rules-IsStored}
use ntfw.Pages.{Dialog, rules_upload, rules_download, synchronize_down}
use ntfw.Pages.View.{IsEntry, IsDialog, entry, stored, page_cases, show_rows-inside}
use ntfw.Pages.View.{
  synchronize_down-up, length-store_rows, store_rows-outside, stored-inside, stored-IsEntry,
}

length-hex_text : (n v : ℕ) → length (hex_text n v) ≤ suc n
unfolding hex_text
length-hex_text zero v = omega arith
length-hex_text (suc n) v = elim (Bool-cases (ltb v 16)) [
  | inl one ↦ rw one (omega arith)
  | inr more ↦ rw more (
      omega (
        arith,
        length-hex_text n (v / 16),
        length-append (hex_text n (v / 16)) (upper_digit (v % 16) ∷ []),
      ))
]

-- What is shown for a protocol, when the map has a name and when it has none.
shown-short :
    (v : ℕ) (l : List (ℕ × Text))
    → All (λ e. length e.1 ≤ 15) l
    → length (elim (find_value v l) as (λ _. Text) [ none ↦ hex_text 3 v | some s ↦ s ]) ≤ 15
shown-short v l h = elim (Option-cases (find_value v l)) [
  | inl n ↦ rw n (omega (arith, length-hex_text 3 v))
  | inr (s, e) ↦ rw e (find_value-All (λ _ t. length t ≤ 15) l v s h e)
]

proto_text-short : (rl : NtfeRule) → length (proto_text rl) ≤ 15
unfolding proto_text
proto_text-short rl = by_layer (not (rl.ether == eth_p_ip))
  where
    by_layer :
        (b : Bool)
        → length (
            if◌then◌else◌ {A = Text} b
              (elim (find_value rl.ether l3_to_str) as (λ _. Text) [
                | none ↦ hex_text 3 rl.ether
                | some s ↦ s
              ])
              (elim (find_value rl.proto l4_to_str) as (λ _. Text) [
                | none ↦ hex_text 3 rl.proto
                | some s ↦ s
              ]))
          ≤ 15
    by_layer true = shown-short rl.ether l3_to_str (omega arith)
    by_layer false = shown-short rl.proto l4_to_str (omega arith)

upload_rule-IsEntry : (rl : NtfeRule) → IsStored rl → IsEntry (upload_rule rl)
unfolding upload_rule
upload_rule-IsEntry rl v = record {
  text_fits = proto_text-short rl;
  numbers = record {
    port_fits = v.dport_fits;
    costs_fit = (v.byte_scale_fits, v.packet_scale_fits, v.syn_scale_fits);
    meters_fit = (omega arith, omega arith, omega arith);
  };
}

empty_rule-IsEntry : IsEntry empty_rule
empty_rule-IsEntry = record {
  text_fits = omega arith;
  numbers = record {
    port_fits = omega arith;
    costs_fit = (omega arith, omega arith, omega arith);
    meters_fit = (omega arith, omega arith, omega arith);
  };
}

entry-IsEntry :
    (rls : List NtfeRule) (k j : ℕ)
    → All IsStored rls
    → IsEntry (entry (map upload_rule rls ++ replicate k empty_rule) j)
entry-IsEntry [] zero j v = empty_rule-IsEntry
entry-IsEntry [] (suc k) zero v = empty_rule-IsEntry
entry-IsEntry [] (suc k) (suc j) v = entry-IsEntry [] k j v
entry-IsEntry (rl ∷ rls) k zero v = upload_rule-IsEntry rl v.0
entry-IsEntry (rl ∷ rls) k (suc j) v = entry-IsEntry rls k j v.1

length-upload_from :
    (i : ℕ) (rls : List NtfeRule) (rules : List EditorRule)
    → length (upload_from i rls rules) ≡ length rules
unfolding upload_from
length-upload_from i [] rules = refl
length-upload_from i (rl ∷ rls) rules =
    length-upload_from (i + 1) rls (set rules i (upload_rule rl))
    ∙ length-set rules i (upload_rule rl)

length-upload_rules : (rls : List NtfeRule) → length (upload_rules rls) ≡ editor_rules
unfolding upload_rules
length-upload_rules rls = length-upload_from 0 rls (replicate editor_rules empty_rule)

-- Arrays with the same entries are the same.
same_entries :
    (xs ys : List EditorRule)
    → length xs ≡ length ys
    → ((j : ℕ) → entry xs j ≡ entry ys j)
    → xs ≡ ys
same_entries [] [] long same = refl
same_entries [] (y ∷ ys) long same = absurd (omega arith)
same_entries (x ∷ xs) [] long same = absurd (omega arith)
same_entries (x ∷ xs) (y ∷ ys) long same =
    ap₂ (λ a l. a ∷ l) (same 0) (same_entries xs ys (omega arith) (λ j. same (suc j)))

All-entries :
    (P : EditorRule → Type 0) (xs : List EditorRule) → ((j : ℕ) → P (entry xs j)) → All P xs
All-entries P [] h = tt
All-entries P (x ∷ xs) h = (h 0, All-entries P xs λ j. h (suc j))

module _ (rls : List NtfeRule) (d : Dialog) (few : length rls ≤ editor_rules)
    (v : All IsStored rls) where
  abbrev uploaded : Dialog
  uploaded = rules_upload rls d

  uploaded-IsDialog : IsDialog uploaded
  unfolding rules_upload
  uploaded-IsDialog = record {
    size = length-upload_rules rls;
    position = omega arith;
    entries = λ j.
        subst (λ l. IsEntry (entry l j)) (sym (upload_rules_lem rls few))
          (entry-IsEntry rls (editor_rules - length rls) j v);
  }

  -- Storing the rows that are shown changes nothing.
  stored-uploaded : stored uploaded ≡ upload_rules rls
  unfolding rules_upload
  stored-uploaded =
      same_entries (stored uploaded) (upload_rules rls)
        (length-store_rows 8 0 0 _ (upload_rules rls))
        λ j. elim (page_cases 0 j) [
          | inl out ↦ store_rows-outside 8 0 0 j _ (upload_rules rls) out
          | inr (k, small, at_k) ↦
              ap (entry (stored uploaded)) at_k
              ∙ stored-inside uploaded uploaded-IsDialog k small
              ∙ ap synchronize_down (show_rows-inside 0 k (upload_rules rls) d.rows small)
              ∙ synchronize_down-up (entry (upload_rules rls) (0 + k))
                  (uploaded-IsDialog.entries (0 + k))
              ∙ ap (entry (upload_rules rls)) (sym at_k)
        ]

  -- Rules that the editor can show come back from it, through the rows on the screen.
  pub rules_download-upload :
      All IsEditable rls → let (ok, got, _) = rules_download uploaded in (ok ≡ true) × (got ≡ rls)
  unfolding rules_download
  rules_download-upload shows =
      subst (λ l. ((download_rules l).0 ≡ true) × ((download_rules l).1 ≡ rls))
        (sym stored-uploaded) (download_rules-upload rls few shows)

-- What is downloaded fits the image.
pub rules_download-IsStored :
    (d : Dialog)
    → IsDialog d
    → let (_, rls, _) = rules_download d in All IsStored rls × (length rls ≤ editor_rules)
unfolding rules_download
rules_download-IsStored d v =
    let fit = All-entries IsEditorRule (stored d) (λ j. (stored-IsEntry d v j).numbers) in
    let got = download_rules-IsStored (stored d) fit in
    (got.0, omega (arith, got.1, length-store_rows 8 0 d.scroll_pos d.rows d.rules, v.size))
