-- ===== src/Pages/Choices.antt =====
-- ntfw/dlgrules.cpp: the choices that `OnRulesDlgMsg` puts into the controls of the rows when the
-- dialog starts, and the range of the scroll bar. The maps are given as they are iterated.
use ntfw.Common.{ℕ, zero, suc, ◌+◌, ◌-◌, ◌≡◌, inl, inr, refl, List, [], ◌∷◌, ◌++◌, All, InList}
use ntfw.Common.{replicate, subst, sym}
use ntfw.Net.{eth_p_ip}
use ntfw.Editor.{Text, EditorRule, rule_page_sz, editor_rules, str_to_l4, str_to_l3}
use ntfw.Editor.{download_rule, normalize, rule_of, defined, unrecognized, read_hex, custom_rule}

-- `">> L4 Protocols"` and `">> L3 Protocols"`
abbrev heading : ℕ → Text
heading layer =
    62 ∷ 62 ∷ 32 ∷ 76 ∷ layer ∷ 32 ∷ 80 ∷ 114 ∷ 111 ∷ 116 ∷ 111 ∷ 99 ∷ 111 ∷ 108 ∷ 115 ∷ []

abbrev l4_heading : Text
l4_heading = heading 52

abbrev l3_heading : Text
l3_heading = heading 51

abbrev names : List (Text × ℕ) → List Text
names [] = []
names (e ∷ rest) = e.0 ∷ names rest

-- The choices of protocols in one row.
abbrev proto_choices : List (Text × ℕ) → List (Text × ℕ) → List Text
proto_choices l4 l3 = (l4_heading ∷ names l4) ++ (l3_heading ∷ names l3)

-- The loop over the identifiers of meters: `n` rounds from the character `k` on.
abbrev meter_choices : ℕ → ℕ → List Text
meter_choices zero k = []
meter_choices (suc n) k = (k ∷ []) ∷ meter_choices n (k + 1)

-- The choices in the controls of one row.
record Choices : Type 0 where
  pub proto : List Text
  pub byte_meter : List Text
  pub packet_meter : List Text
  pub syn_meter : List Text

abbrev row_choices : List (Text × ℕ) → List (Text × ℕ) → Choices
row_choices l4 l3 = record {
  proto = proto_choices l4 l3;
  byte_meter = meter_choices 4 49;
  packet_meter = meter_choices 4 49;
  syn_meter = meter_choices 4 49;
}

-- `SCROLLINFO`
record ScrollInfo : Type 0 where
  pub page : ℕ
  pub min : ℕ
  pub max : ℕ
  pub pos : ℕ

-- `WM_INITDIALOG`: what the rows offer, and the scroll bar.
unfoldable init_dialog : List (Text × ℕ) → List (Text × ℕ) → List Choices × ScrollInfo
init_dialog l4 l3 = (
  replicate rule_page_sz (row_choices l4 l3),
  record { page = rule_page_sz; min = 0; max = editor_rules - 1; pos = 0 },
)

-- With this text an entry makes a rule of these fields.
Makes : Text → ℕ → ℕ → ℕ → EditorRule → Type 0
Makes s ether proto dport src =
    let entry = normalize (record src { proto = s }) in
    download_rule entry ≡ defined (rule_of entry ether proto dport)

l4-Makes : (src : EditorRule) → All (λ e. Makes e.0 eth_p_ip e.1 src.port src) str_to_l4
unfolding Makes download_rule
l4-Makes src =
    (refl, (refl, (refl, (refl, (refl, (refl, (refl, (refl, (refl, (refl, (refl, tt)))))))))))

l3-Makes : (src : EditorRule) → All (λ e. Makes e.0 e.1 0 0 src) str_to_l3
unfolding Makes download_rule
l3-Makes src = (refl, (refl, (refl, (refl, (refl, (refl, tt))))))

heading-unrecognized :
    (src : EditorRule)
    → (download_rule (normalize (record src { proto = l4_heading })) ≡ unrecognized)
      × (download_rule (normalize (record src { proto = l3_heading })) ≡ unrecognized)
unfolding download_rule read_hex custom_rule
heading-unrecognized src = (refl, refl)

-- A choice makes a rule, or is a heading and makes none.
data Offered (src : EditorRule) : Text → Type 0 where
  titled :
      {layer : ℕ}
      → download_rule (normalize (record src { proto = heading layer })) ≡ unrecognized
      → Offered src (heading layer)
  known : {s : Text} (ether proto dport : ℕ) → Makes s ether proto dport src → Offered src s

All-InList :
    (P : Text × ℕ → Type 0) (l : List (Text × ℕ)) (e : Text × ℕ) → All P l → InList e l → P e
All-InList P [] e h i = elim i [ ]
All-InList P (x ∷ xs) e h (inl here) = subst P (sym here) h.0
All-InList P (x ∷ xs) e h (inr there) = All-InList P xs e h.1 there

All-names : (P : Text → Type 0) (l : List (Text × ℕ)) → All (λ e. P e.0) l → All P (names l)
All-names P [] h = tt
All-names P (e ∷ l) h = (h.0, All-names P l h.1)

All-append : (P : Text → Type 0) (xs ys : List Text) → All P xs → All P ys → All P (xs ++ ys)
All-append P [] ys h h' = h'
All-append P (x ∷ xs) ys h h' = (h.0, All-append P xs ys h.1 h')

All-map :
    (P Q : Text × ℕ → Type 0) (l : List (Text × ℕ))
    → ((e : Text × ℕ) → P e → Q e)
    → All P l
    → All Q l
All-map P Q [] f h = tt
All-map P Q (e ∷ l) f h = (f e h.0, All-map P Q l f h.1)

All-replicate : (P : Choices → Type 0) (n : ℕ) (c : Choices) → P c → All P (replicate n c)
All-replicate P zero c h = tt
All-replicate P (suc n) c h = (h, All-replicate P n c h)

-- In whatever order the maps are iterated, each protocol that a row offers is one from which
-- `RulesDownload` makes a rule, whatever the numbers of the row are, but for the two headings,
-- which can be chosen too and which it does not recognize.
init_dialog-Offered :
    (src : EditorRule) (l4 l3 : List (Text × ℕ))
    → All (λ e. InList e str_to_l4) l4
    → All (λ e. InList e str_to_l3) l3
    → All (λ c. All (Offered src) c.proto) (init_dialog l4 l3).0
unfolding init_dialog
init_dialog-Offered src l4 l3 h4 h3 =
    let titles = heading-unrecognized src in
    let named4 =
      All-map (λ e. InList e str_to_l4) (λ e. Offered src e.0) l4
        (λ e i.
          known eth_p_ip e.1 src.port
            (All-InList (λ x. Makes x.0 eth_p_ip x.1 src.port src) str_to_l4 e (l4-Makes src) i))
        h4 in
    let named3 =
      All-map (λ e. InList e str_to_l3) (λ e. Offered src e.0) l3
        (λ e i.
          known e.1 0 0 (All-InList (λ x. Makes x.0 x.1 0 0 src) str_to_l3 e (l3-Makes src) i))
        h3 in
    All-replicate (λ c. All (Offered src) c.proto) rule_page_sz (row_choices l4 l3)
      (All-append (Offered src) (l4_heading ∷ names l4) (l3_heading ∷ names l3)
        (titled titles.0, All-names (Offered src) l4 named4)
        (titled titles.1, All-names (Offered src) l3 named3))
