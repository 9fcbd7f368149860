-- ===== src/Pages.antt =====
-- ntfw/dlgrules.cpp: the pages of the editor, `Synchronize`, `Scroll` and the messages that
-- scroll, and `RulesUpload` and `RulesDownload` with the rows on the screen. A control holds the
-- text of a protocol and, where it holds a number, the 32-bit word that `atoi` makes of its text.
pub mod View
pub mod Transfer
pub mod Choices
use ntfw.Common.{Bool, ℕ, zero, suc, ◌+◌, ◌-◌, ◌%◌, ◌^◌, ltb, if◌then◌else◌, List, [], ◌∷◌}
use ntfw.Common.{u16, get_or, set, min}
use ntfw.Editor.{Text, EditorRule, empty_rule, editor_rules, rule_page_sz, max_proto_name}
use ntfw.Editor.{upload_rules, download_rules}
use ntfw.Rules.{NtfeRule}

-- The controls of one row.
pub record Row : Type 0 where
  pub proto : Text
  pub port : ℕ
  pub byte_cost : ℕ
  pub packet_cost : ℕ
  pub syn_cost : ℕ
  pub byte_meter : ℕ
  pub packet_meter : ℕ
  pub syn_meter : ℕ

-- An `int`
pub data ℤ : Type 0 where
  pos : ℕ → ℤ
  negsuc : ℕ → ℤ

-- The difference of two numbers.
abbrev pub minus : ℕ → ℕ → ℤ
minus a b = if ltb a b then negsuc (b - a - 1) else pos (a - b)

-- What `ComboBox_GetText` copies into a buffer that has room for `n` characters.
abbrev pub take : ℕ → Text → Text
take zero s = []
take (suc n) [] = []
take (suc n) (c ∷ s) = c ∷ take n s

-- `Synchronize`, from the controls of a row to an entry and back.
unfoldable pub synchronize_down : Row → EditorRule
synchronize_down row = record {
  proto = take (max_proto_name - 1) row.proto;
  port = u16 row.port;
  byte_cost = u16 row.byte_cost;
  packet_cost = u16 row.packet_cost;
  syn_cost = u16 row.syn_cost;
  byte_meter = u16 row.byte_meter % 2 ^ 2;
  packet_meter = u16 row.packet_meter % 2 ^ 2;
  syn_meter = u16 row.syn_meter % 2 ^ 2;
}

unfoldable pub synchronize_up : EditorRule → Row
synchronize_up rl = record {
  proto = rl.proto;
  port = rl.port;
  byte_cost = rl.byte_cost;
  packet_cost = rl.packet_cost;
  syn_cost = rl.syn_cost;
  byte_meter = rl.byte_meter;
  packet_meter = rl.packet_meter;
  syn_meter = rl.syn_meter;
}

-- The array `Rules`, the rows by their number, and the position of the scroll bar.
pub record Dialog : Type 0 where
  pub rules : List EditorRule
  pub rows : ℕ → Row
  pub scroll_pos : ℕ

-- The first loop of `Scroll`, which `RulesDownload` begins with too: `n` rounds from row `i` on.
unfoldable pub store_rows : ℕ → ℕ → ℕ → (ℕ → Row) → List EditorRule → List EditorRule
store_rows zero i cur rows rules = rules
store_rows (suc n) i cur rows rules =
    store_rows n (i + 1) cur rows (set rules (cur + i) (synchronize_down (rows i)))

-- The second loop of `Scroll`, which `RulesUpload` ends with too.
unfoldable pub show_rows : ℕ → List EditorRule → (ℕ → Row) → ℕ → Row
show_rows new rules rows i =
    if ltb i rule_page_sz then synchronize_up (get_or rules (new + i) empty_rule) else rows i

unfoldable pub clamp_pos : ℤ → ℕ
clamp_pos (pos n) = min n (editor_rules - rule_page_sz)
clamp_pos (negsuc n) = min 0 (editor_rules - rule_page_sz)

-- `Scroll`
unfoldable pub scroll : ℕ → ℤ → Dialog → Dialog
scroll cur new d =
    let at_pos = clamp_pos new in
    let rules = store_rows rule_page_sz 0 cur d.rows d.rules in
    record { rules = rules; rows = show_rows at_pos rules d.rows; scroll_pos = at_pos }

-- `RulesUpload`: it shows the first page.
unfoldable pub rules_upload : List NtfeRule → Dialog → Dialog
rules_upload rls d =
    let rules = upload_rules rls in
    record { rules = rules; rows = show_rows 0 rules d.rows; scroll_pos = 0 }

-- `RulesDownload`: it begins with storing the rows on the screen.
unfoldable pub rules_download : Dialog → Bool × List NtfeRule × Dialog
rules_download d =
    let (ok, rls, left) = download_rules (store_rows rule_page_sz 0 d.scroll_pos d.rows d.rules) in
    (ok, rls, record d { rules = left })

-- What a message asks of the scroll bar: the codes of `WM_VSCROLL`, with the position for a code
-- of the thumb, and `WM_MOUSEWHEEL` with its turns.
pub data ScrollRequest : Type 0 where
  end_scroll : ScrollRequest
  line_down : ScrollRequest
  line_up : ScrollRequest
  page_down : ScrollRequest
  page_up : ScrollRequest
  thumb : ℕ → ScrollRequest
  other : ScrollRequest
  wheel : ℤ → ScrollRequest

abbrev pub wheel_pos : ℕ → ℤ → ℤ
wheel_pos cur (pos turns) = minus cur turns
wheel_pos cur (negsuc turns) = pos (cur + turns + 1)

-- The two cases of `OnRulesDlgMsg`.
unfoldable pub on_scroll : ScrollRequest → Dialog → Dialog
on_scroll end_scroll d = d
on_scroll line_down d = scroll d.scroll_pos (pos (d.scroll_pos + 1)) d
on_scroll line_up d = scroll d.scroll_pos (minus d.scroll_pos 1) d
on_scroll page_down d = scroll d.scroll_pos (pos (d.scroll_pos + rule_page_sz)) d
on_scroll page_up d = scroll d.scroll_pos (minus d.scroll_pos rule_page_sz) d
on_scroll (thumb n) d = scroll d.scroll_pos (pos n) d
on_scroll other d = scroll d.scroll_pos (pos d.scroll_pos) d
on_scroll (wheel turns) d = scroll d.scroll_pos (wheel_pos d.scroll_pos turns) d
