-- ===== src/Editor.antt =====
-- ntfw/dlgrules.cpp: the editor of rules of the configuration tool. The rules are kept as texts
-- and numbers in an array of 32, of which eight at a time stand in the controls of a dialog. A
-- text is a list of characters without the zero that ends it.
pub mod Names
pub mod Hex
pub mod RoundTrip
pub mod Stored
use ntfw.Common.{ℕ, zero, suc, Bool, true, false, not, ◌&&◌, ◌||◌, ◌+◌, ◌/◌, ◌%◌, ◌^◌}
use ntfw.Common.{ltb, leb, ◌==◌, if◌then◌else◌, List, [], ◌∷◌, ◌++◌, Option, none, some}
use ntfw.Common.{bit_and, bit_or, u16, u8, ◌<<<◌, set, replicate}
use ntfw.Rules.{NtfeRule}
use ntfw.Net.{eth_p_ip}

abbrev pub Text : Type 0
Text = List ℕ

abbrev pub same_text : Text → Text → Bool
same_text [] [] = true
same_text [] (y ∷ ys) = false
same_text (x ∷ xs) [] = false
same_text (x ∷ xs) (y ∷ ys) = x == y && same_text xs ys

-- `str_to_l4`, `l4_to_str`, `str_to_l3` and `l3_to_str`
abbrev pub str_to_l4 : List (Text × ℕ)
str_to_l4 =
    (105 ∷ 99 ∷ 109 ∷ 112 ∷ [], 0x01)
    ∷ (105 ∷ 103 ∷ 109 ∷ 112 ∷ [], 0x02)
    ∷ (105 ∷ 112 ∷ 105 ∷ 112 ∷ [], 0x04)
    ∷ (116 ∷ 99 ∷ 112 ∷ [], 0x06)
    ∷ (101 ∷ 103 ∷ 112 ∷ [], 0x08)
    ∷ (112 ∷ 117 ∷ 112 ∷ [], 0x0c)
    ∷ (117 ∷ 100 ∷ 112 ∷ [], 0x11)
    ∷ (100 ∷ 99 ∷ 99 ∷ 112 ∷ [], 0x21)
    ∷ (114 ∷ 115 ∷ 118 ∷ 112 ∷ [], 0x2e)
    ∷ (115 ∷ 99 ∷ 116 ∷ 112 ∷ [], 0x84)
    ∷ (108 ∷ 100 ∷ 112 ∷ [], 0x88)
    ∷ []

abbrev pub l4_to_str : List (ℕ × Text)
l4_to_str =
    (0x01, 105 ∷ 99 ∷ 109 ∷ 112 ∷ [])
    ∷ (0x02, 105 ∷ 103 ∷ 109 ∷ 112 ∷ [])
    ∷ (0x04, 105 ∷ 112 ∷ 105 ∷ 112 ∷ [])
    ∷ (0x06, 116 ∷ 99 ∷ 112 ∷ [])
    ∷ (0x08, 101 ∷ 103 ∷ 112 ∷ [])
    ∷ (0x0c, 112 ∷ 117 ∷ 112 ∷ [])
    ∷ (0x11, 117 ∷ 100 ∷ 112 ∷ [])
    ∷ (0x21, 100 ∷ 99 ∷ 99 ∷ 112 ∷ [])
    ∷ (0x2e, 114 ∷ 115 ∷ 118 ∷ 112 ∷ [])
    ∷ (0x84, 115 ∷ 99 ∷ 116 ∷ 112 ∷ [])
    ∷ (0x88, 108 ∷ 100 ∷ 112 ∷ [])
    ∷ []

abbrev pub str_to_l3 : List (Text × ℕ)
str_to_l3 =
    (105 ∷ 112 ∷ [], 0x0800)
    ∷ (97 ∷ 114 ∷ 112 ∷ [], 0x0806)
    ∷ (105 ∷ 112 ∷ 54 ∷ [], 0x86dd)
    ∷ (105 ∷ 112 ∷ 120 ∷ [], 0x8137)
    ∷ (56 ∷ 48 ∷ 50 ∷ 46 ∷ 49 ∷ 113 ∷ [], 0x8100)
    ∷ (112 ∷ 116 ∷ 112 ∷ [], 0x88f7)
    ∷ []

abbrev pub l3_to_str : List (ℕ × Text)
l3_to_str =
    (0x0800, 105 ∷ 112 ∷ [])
    ∷ (0x0806, 97 ∷ 114 ∷ 112 ∷ [])
    ∷ (0x86dd, 105 ∷ 112 ∷ 54 ∷ [])
    ∷ (0x8137, 105 ∷ 112 ∷ 120 ∷ [])
    ∷ (0x8100, 56 ∷ 48 ∷ 50 ∷ 46 ∷ 49 ∷ 113 ∷ [])
    ∷ (0x88f7, 112 ∷ 116 ∷ 112 ∷ [])
    ∷ []

-- `count` and `[]` of the maps
abbrev pub find_text : Text → List (Text × ℕ) → Option ℕ
find_text s [] = none
find_text s (e ∷ rest) = if same_text s e.0 then some e.1 else find_text s rest

abbrev pub find_value : ℕ → List (ℕ × Text) → Option Text
find_value v [] = none
find_value v (e ∷ rest) = if v == e.0 then some e.1 else find_value v rest

-- `sprintf` of a word of at most `n + 1` digits with `%X`
abbrev pub upper_digit : ℕ → ℕ
upper_digit d = if ltb d 10 then 48 + d else 55 + d

unfoldable pub hex_text : ℕ → ℕ → Text
hex_text zero v = upper_digit (v % 16) ∷ []
hex_text (suc n) v =
    let more = hex_text n (v / 16) in
    if ltb v 16 then upper_digit v ∷ [] else more ++ upper_digit (v % 16) ∷ []

-- `struct Rule`
pub record EditorRule : Type 0 where
  pub proto : Text
  pub port : ℕ
  pub byte_cost : ℕ
  pub packet_cost : ℕ
  pub syn_cost : ℕ
  pub byte_meter : ℕ
  pub packet_meter : ℕ
  pub syn_meter : ℕ

-- `MAX_RULES` of the editor, `RULE_PAGE_SZ` and `MAX_PROTO_NAME`
abbrev pub editor_rules : ℕ
editor_rules = 32

abbrev pub rule_page_sz : ℕ
rule_page_sz = 8

abbrev pub max_proto_name : ℕ
max_proto_name = 16

-- What `memzero` leaves.
abbrev pub empty_rule : EditorRule
empty_rule = record {
  proto = [];
  port = 0;
  byte_cost = 0;
  packet_cost = 0;
  syn_cost = 0;
  byte_meter = 0;
  packet_meter = 0;
  syn_meter = 0;
}

-- One round of `RulesUpload`: the text of the protocol, and the numbers.
unfoldable pub proto_text : NtfeRule → Text
proto_text src =
    if not (src.ether == eth_p_ip)
    then elim (find_value src.ether l3_to_str) [ none ↦ hex_text 3 src.ether | some s ↦ s ]
    else elim (find_value src.proto l4_to_str) [ none ↦ hex_text 3 src.proto | some s ↦ s ]

unfoldable pub upload_rule : NtfeRule → EditorRule
upload_rule src = record {
  proto = proto_text src;
  port = src.dport;
  byte_cost = src.byte_scale;
  packet_cost = src.packet_scale;
  syn_cost = src.syn_scale;
  byte_meter = src.byte_tb % 2 ^ 2;
  packet_meter = src.packet_tb % 2 ^ 2;
  syn_meter = src.syn_tb % 2 ^ 2;
}

-- The loop of `RulesUpload` from index `i` on.
unfoldable pub upload_from : ℕ → List NtfeRule → List EditorRule → List EditorRule
upload_from i [] rules = rules
upload_from i (src ∷ rest) rules = upload_from (i + 1) rest (set rules i (upload_rule src))

-- The loop of `RulesUpload` into the array that it clears. The loop does not compare the number of
-- rules with the size of the array; here a write past its end is lost.
unfoldable pub upload_rules : List NtfeRule → List EditorRule
upload_rules rls = upload_from 0 rls (replicate editor_rules empty_rule)

-- `*p |= 0x20` on each character
abbrev pub lower : Text → Text
lower [] = []
lower (c ∷ cs) = bit_or c 0x20 ∷ lower cs

-- The characters of a text, or-ed together.
abbrev pub union : Text → ℕ
union [] = 0
union (c ∷ cs) = bit_or c (union cs)

-- The test of a hexadecimal digit, in lower case.
abbrev pub is_hex : ℕ → Bool
is_hex c = (leb 48 c && leb c 57) || (leb 97 c && leb c 102)

-- The loop over a custom protocol: `digits` counts the characters read, and `ether` is the word
-- that they make. `none` is the failure.
unfoldable pub read_hex : ℕ → ℕ → Text → Option ℕ
read_hex digits ether [] = some ether
read_hex digits ether (c ∷ cs) =
    let value = if bit_and c 0x40 == 0 then bit_and c 0x0f else bit_and c 0x0f + 9 in
    let more = read_hex (u8 (digits + 1)) (u16 (u16 (ether <<< 4) + value)) cs in
    if not (is_hex c) || ltb 4 digits then none else more

-- What one round of `RulesDownload` does: pass over an entry, fail, or write a rule.
pub data Downloaded : Type 0 where
  undefined : Downloaded
  unrecognized : Downloaded
  defined : NtfeRule → Downloaded

-- The rule that is written, with the protocol of three fields.
abbrev pub rule_of : EditorRule → ℕ → ℕ → ℕ → NtfeRule
rule_of src ether proto dport = record {
  ether = ether;
  dport = dport;
  byte_scale = src.byte_cost;
  packet_scale = src.packet_cost;
  syn_scale = src.syn_cost;
  proto = proto;
  byte_tb = src.byte_meter;
  packet_tb = src.packet_meter;
  syn_tb = src.syn_meter;
}

-- A custom protocol: of layer 4 when no digit beyond the second is set.
unfoldable pub custom_rule : EditorRule → Option ℕ → Downloaded
custom_rule src none = unrecognized
custom_rule src (some ether) =
    if bit_and ether 0xff00 == 0
    then defined (rule_of src eth_p_ip (u8 ether) 0)
    else defined (rule_of src ether 0 0)

-- `src` is an entry whose text has been turned to lower case.
unfoldable pub download_rule : EditorRule → Downloaded
download_rule src =
    if bit_and (union src.proto) 0xe0 == 0
    then undefined
    else elim (find_text src.proto str_to_l4) [
      | some l4 ↦ defined (rule_of src eth_p_ip l4 src.port)
      | none ↦ elim (find_text src.proto str_to_l3) [
        | some l3 ↦ defined (rule_of src l3 0 0)
        | none ↦ custom_rule src (read_hex 0 0 src.proto)
      ]
    ]

abbrev pub normalize : EditorRule → EditorRule
normalize src = record src { proto = lower src.proto }

-- What a round adds to the result of the rounds after it.
unfoldable pub after_entry :
    Downloaded
    → EditorRule
    → List EditorRule
    → Bool × List NtfeRule × List EditorRule
    → Bool × List NtfeRule × List EditorRule
after_entry undefined src rest (ok, rls, left) = (ok, rls, src ∷ left)
after_entry unrecognized src rest (ok, rls, left) = (false, [], src ∷ rest)
after_entry (defined rl) src rest (ok, rls, left) = (ok, rl ∷ rls, src ∷ left)

-- The loop of `RulesDownload`: whether it succeeds, the rules that it writes into the
-- configuration, and the array that it leaves.
unfoldable pub download_rules : List EditorRule → Bool × List NtfeRule × List EditorRule
download_rules [] = (true, [], [])
download_rules (r ∷ rest) =
    after_entry (download_rule (normalize r)) (normalize r) rest (download_rules rest)
