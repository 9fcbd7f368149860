-- ===== src/Pages/View.antt =====
-- What scrolling keeps: the entries that are edited.
use ntfw.Common.{ℕ, zero, suc, ◌+◌, ◌-◌, ◌%◌, ◌^◌, ◌<◌, ◌≤◌, ◌≡◌, ◌⊎◌, arith, refl, sym}
use ntfw.Common.{ap, ◌∙◌, ltb, lt→ltb, inl, inr, List, [], ◌∷◌, get_or, set, length, length-set}
use ntfw.Common.{get_or-set_self, get_or-set_ne, Bool-cases, subst}
use native.Mathlib.Decide.{ℕ_discrete}
use ntfw.Editor.{Text, EditorRule, empty_rule, editor_rules, rule_page_sz}
use ntfw.Editor.Stored.{IsEditorRule}
use ntfw.Pages.{Row, ℤ, pos, negsuc, take, synchronize_down, synchronize_up, Dialog, store_rows}
use ntfw.Pages.{show_rows, clamp_pos, scroll, ScrollRequest, on_scroll, minus, wheel_pos}
use ntfw.Pages.{end_scroll, line_down, line_up, page_down, page_up, thumb, other, wheel}

-- Entry `j` of the array.
abbrev pub entry : List EditorRule → ℕ → EditorRule
entry rules j = get_or rules j empty_rule

pub length-store_rows :
    (n i cur : ℕ) (rows : ℕ → Row) (rules : List EditorRule)
    → length (store_rows n i cur rows rules) ≡ length rules
unfolding store_rows
length-store_rows zero i cur rows rules = refl
length-store_rows (suc n) i cur rows rules =
    length-store_rows n (i + 1) cur rows (set rules (cur + i) (synchronize_down (rows i)))
    ∙ length-set rules (cur + i) (synchronize_down (rows i))

-- Entries outside the page are as they were.
pub store_rows-outside :
    (n i cur j : ℕ) (rows : ℕ → Row) (rules : List EditorRule)
    → (j < cur + i) ⊎ (cur + i + n ≤ j)
    → entry (store_rows n i cur rows rules) j ≡ entry rules j
unfolding store_rows
store_rows-outside zero i cur j rows rules h = refl
store_rows-outside (suc n) i cur j rows rules h =
    let rest = set rules (cur + i) (synchronize_down (rows i)) in
    store_rows-outside n (i + 1) cur j rows rest (omega arith)
    ∙ get_or-set_ne rules (cur + i) j (synchronize_down (rows i)) empty_rule (λ e. omega arith)

-- Entries of the page are what the rows held.
store_rows-inside :
    (n i cur k : ℕ) (rows : ℕ → Row) (rules : List EditorRule)
    → i ≤ k
    → k < i + n
    → cur + i + n ≤ length rules
    → entry (store_rows n i cur rows rules) (cur + k) ≡ synchronize_down (rows k)
unfolding store_rows
store_rows-inside zero i cur k rows rules from below fits = absurd (omega arith)
store_rows-inside (suc n) i cur k rows rules from below fits =
    let rest = set rules (cur + i) (synchronize_down (rows i)) in
    let long = length-set rules (cur + i) (synchronize_down (rows i)) in
    elim (ℕ_discrete i k) [
      | yes e ↦
          store_rows-outside n (i + 1) cur (cur + k) rows rest (inl (omega arith))
          ∙ subst (λ x. entry rest (cur + x) ≡ synchronize_down (rows x)) e
              (get_or-set_self rules (cur + i) (synchronize_down (rows i)) empty_rule (omega arith))
      | no ne ↦
          store_rows-inside n (i + 1) cur k rows rest (omega arith) (omega arith) (omega arith)
    ]

length-take : (n : ℕ) (s : Text) → length (take n s) ≤ n
length-take zero s = omega arith
length-take (suc n) [] = omega arith
length-take (suc n) (c ∷ s) = omega (arith, length-take n s)

take-all : (n : ℕ) (s : Text) → length s ≤ n → take n s ≡ s
take-all zero [] h = refl
take-all zero (c ∷ s) h = absurd (omega arith)
take-all (suc n) [] h = refl
take-all (suc n) (c ∷ s) h = ap (λ t. c ∷ t) (take-all n s (omega arith))

-- An entry whose text and numbers fit.
pub record IsEntry (r : EditorRule) : Type 0 where
  pub text_fits : length r.proto ≤ 15
  pub numbers : IsEditorRule r

synchronize_down-IsEntry : (row : Row) → IsEntry (synchronize_down row)
unfolding synchronize_down
synchronize_down-IsEntry row = record {
  text_fits = length-take 15 row.proto;
  numbers = record {
    port_fits = omega arith;
    costs_fit = (omega arith, omega arith, omega arith);
    meters_fit = (omega arith, omega arith, omega arith);
  };
}

-- An entry is what is read from the row that shows it.
pub synchronize_down-up : (r : EditorRule) → IsEntry r → synchronize_down (synchronize_up r) ≡ r
unfolding synchronize_down synchronize_up
synchronize_down-up r v =
    let costs = v.numbers.costs_fit in
    let meters = v.numbers.meters_fit in
    rw
      (
        take-all 15 r.proto v.text_fits,
        small_word r.port v.numbers.port_fits,
        small_word r.byte_cost costs.0,
        small_word r.packet_cost costs.1,
        small_word r.syn_cost costs.2,
        small_meter r.byte_meter meters.0,
        small_meter r.packet_meter meters.1,
        small_meter r.syn_meter meters.2,
      )
      refl
  where
    small_word : (x : ℕ) → x < 2 ^ 16 → x % 2 ^ 16 ≡ x
    small_word x h = omega arith

    small_meter : (x : ℕ) → x < 4 → x % 2 ^ 16 % 2 ^ 2 ≡ x
    small_meter x h = omega arith

-- The editor between two messages.
pub record IsDialog (d : Dialog) : Type 0 where
  pub size : length d.rules ≡ editor_rules
  pub position : d.scroll_pos + rule_page_sz ≤ editor_rules
  pub entries : (j : ℕ) → IsEntry (entry d.rules j)

-- The array once the rows on the screen are stored, with which `RulesDownload` begins.
abbrev pub stored : Dialog → List EditorRule
stored d = store_rows rule_page_sz 0 d.scroll_pos d.rows d.rules

pub page_cases :
    (cur j : ℕ) → ((j < cur + 0) ⊎ (cur + 0 + 8 ≤ j)) ⊎ ((k : ℕ) × (k < 8) × (j ≡ cur + k))
page_cases cur j = elim (Bool-cases (ltb j cur)) [
  | inl e ↦ inl (inl (ground arith))
  | inr e ↦ elim (Bool-cases (ltb j (cur + 8))) [
    | inl e' ↦ inr (j - cur, ground arith, ground arith)
    | inr e' ↦ inl (inr (ground arith))
  ]
]

clamp_pos-le : (new : ℤ) → clamp_pos new + rule_page_sz ≤ editor_rules
unfolding clamp_pos
clamp_pos-le (pos n) = omega arith
clamp_pos-le (negsuc n) = omega arith

pub show_rows-inside :
    (new k : ℕ) (rules : List EditorRule) (rows : ℕ → Row)
    → k < 8
    → show_rows new rules rows k ≡ synchronize_up (entry rules (new + k))
unfolding show_rows
show_rows-inside new k rules rows h = rw (lt→ltb k 8 h) refl

module _ (d : Dialog) (v : IsDialog d) where
  pub stored-inside :
      (k : ℕ) → k < 8 → entry (stored d) (d.scroll_pos + k) ≡ synchronize_down (d.rows k)
  stored-inside k h =
      store_rows-inside 8 0 d.scroll_pos k d.rows d.rules (omega arith) (omega arith)
        (omega (arith, v.size, v.position))

  pub stored-IsEntry : (j : ℕ) → IsEntry (entry (stored d) j)
  stored-IsEntry j = elim (page_cases d.scroll_pos j) [
    | inl out ↦
        subst IsEntry (sym (store_rows-outside 8 0 d.scroll_pos j d.rows d.rules out)) (v.entries j)
    | inr (k, small, at_k) ↦
        subst IsEntry (sym (ap (entry (stored d)) at_k ∙ stored-inside k small))
          (synchronize_down-IsEntry (d.rows k))
  ]

module _ (d : Dialog) (v : IsDialog d) (new : ℤ) where
  abbrev after : Dialog
  after = scroll d.scroll_pos new d

  scroll-IsDialog : IsDialog after
  unfolding scroll
  scroll-IsDialog = record {
    size = length-store_rows 8 0 d.scroll_pos d.rows d.rules ∙ v.size;
    position = clamp_pos-le new;
    entries = stored-IsEntry d v;
  }

  -- Storing the rows after scrolling changes nothing more.
  scroll-stored : (j : ℕ) → entry (stored after) j ≡ entry (stored d) j
  unfolding scroll
  scroll-stored j = elim (page_cases (clamp_pos new) j) [
    | inl out ↦ store_rows-outside 8 0 (clamp_pos new) j _ (stored d) out
    | inr (k, small, at_k) ↦
        ap (entry (stored after)) at_k
        ∙ stored-inside after scroll-IsDialog k small
        ∙ shown k small
        ∙ ap (entry (stored d)) (sym at_k)
  ]
    where
      shown :
          (k : ℕ) → k < 8 → synchronize_down (after.rows k) ≡ entry (stored d) (clamp_pos new + k)
      shown k small =
          ap synchronize_down (show_rows-inside (clamp_pos new) k (stored d) d.rows small)
          ∙ synchronize_down-up (entry (stored d) (clamp_pos new + k))
              (stored-IsEntry d v (clamp_pos new + k))

  scrolled : IsDialog after × ((j : ℕ) → entry (stored after) j ≡ entry (stored d) j)
  scrolled = (scroll-IsDialog, scroll-stored)

-- A message that scrolls keeps the form of the editor, and it loses no edit: the array, with the
-- rows on the screen stored into it, is the same before and after it, entry by entry.
pub on_scroll-stored :
    (r : ScrollRequest) (d : Dialog)
    → IsDialog d
    → let d' = on_scroll r d in IsDialog d' × ((j : ℕ) → entry (stored d') j ≡ entry (stored d) j)
unfolding on_scroll
on_scroll-stored end_scroll d v = (v, λ j. refl)
on_scroll-stored line_down d v = scrolled d v (pos (d.scroll_pos + 1))
on_scroll-stored line_up d v = scrolled d v (minus d.scroll_pos 1)
on_scroll-stored page_down d v = scrolled d v (pos (d.scroll_pos + rule_page_sz))
on_scroll-stored page_up d v = scrolled d v (minus d.scroll_pos rule_page_sz)
on_scroll-stored (thumb n) d v = scrolled d v (pos n)
on_scroll-stored other d v = scrolled d v (pos d.scroll_pos)
on_scroll-stored (wheel turns) d v = scrolled d v (wheel_pos d.scroll_pos turns)
