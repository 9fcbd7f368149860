-- ===== src/Rules.antt =====
-- ntfe/ntfe.h and ntfe/ntfe.cpp: the rule table, an array of `MAX_RULES` rules indexed by the
-- hash of the flow signature, in which no two rules may meet. A rule whose signature is zero is
-- a free place.
pub mod Load
pub mod Lookup
pub mod Perfect
use ntfw.Common.{ℕ, Bool, true, false, ◌-◌, ◌^◌, ◌%◌, ◌==◌, not, if◌then◌else◌, bit_and}
use ntfw.Common.{List, [], ◌∷◌, Option, none, some, ◌<<<◌, bswap16, set, get_or, replicate}
use ntfw.Flow.{Flowsig, sig_data, rule_hashfn, ntfe_rule_hashfn, ether_le16_to_fs}

-- `struct ntfe_rule`, as it stands in the configuration image.
pub record NtfeRule : Type 0 where
  pub ether : ℕ
  pub dport : ℕ
  pub byte_scale : ℕ
  pub packet_scale : ℕ
  pub syn_scale : ℕ
  pub proto : ℕ
  pub byte_tb : ℕ
  pub packet_tb : ℕ
  pub syn_tb : ℕ

-- `struct rule`
pub record Rule : Type 0 where
  pub fsig : Flowsig
  pub in_byte_scale : ℕ
  pub in_packet_scale : ℕ
  pub in_syn_scale : ℕ
  pub in_byte_tb : ℕ
  pub in_packet_tb : ℕ
  pub in_syn_tb : ℕ

-- `gs.rules`, an array of `MAX_RULES` rules. An index of it is below 128 when the size in bits is
-- at most seven; what the source finds or writes at a larger index is other memory, which is not
-- modelled: here such a read gives a free place, and such a write is lost.
abbrev pub Table : Type 0
Table = List Rule

abbrev pub max_rules : ℕ
max_rules = 128

-- What `memzero` leaves.
abbrev pub zero_rule : Rule
zero_rule = record {
  fsig = record { ether = 0; proto = 0; dport = 0 };
  in_byte_scale = 0;
  in_packet_scale = 0;
  in_syn_scale = 0;
  in_byte_tb = 0;
  in_packet_tb = 0;
  in_syn_tb = 0;
}

abbrev pub rule_at : Table → ℕ → Rule
rule_at rules i = get_or rules i zero_rule

-- `memzero(gs.rules, sizeof(gs.rules))`
abbrev pub zero_table : Table
zero_table = replicate max_rules zero_rule

-- `(1 << bits) - 1`; the machine uses the five low bits of the shift count.
abbrev pub hash_mask : ℕ → ℕ
hash_mask bits = (1 <<< (bits % 32)) - 1

-- The table, the seed and the size in bits are `gs.rules`, `gs.rule_seed` and `gs.rule_hashsz`.
unfoldable pub hash_flowsig : ℕ → ℕ → Flowsig → ℕ
hash_flowsig seed hashsz fs = bit_and (rule_hashfn fs seed) (hash_mask hashsz)

-- `none` is the null pointer.
unfoldable pub rule_lookup : Table → ℕ → ℕ → Flowsig → Option Rule
unfolding sig_data
rule_lookup rules seed hashsz fs =
    let rl = rule_at rules (hash_flowsig seed hashsz fs) in
    if sig_data rl.fsig == sig_data fs then some rl else none

-- The signature that a rule of the image matches.
unfoldable pub rule_sig : NtfeRule → Flowsig
rule_sig rl = record {
  ether = ether_le16_to_fs rl.ether;
  proto = rl.proto;
  dport = bswap16 rl.dport;
}

-- What `rule_insert` writes; the bucket numbers are bit fields of three bits.
unfoldable pub compile_rule : NtfeRule → Rule
compile_rule rl = record {
  fsig = rule_sig rl;
  in_byte_scale = rl.byte_scale;
  in_packet_scale = rl.packet_scale;
  in_syn_scale = rl.syn_scale;
  in_byte_tb = rl.byte_tb % 2 ^ 3;
  in_packet_tb = rl.packet_tb % 2 ^ 3;
  in_syn_tb = rl.syn_tb % 2 ^ 3;
}

-- Whether it succeeds, and the table that it leaves.
unfoldable pub rule_insert : Table → NtfeRule → ℕ → ℕ → Bool → Bool × Table
rule_insert rules rl seed hashsz test =
    let at = bit_and (ntfe_rule_hashfn seed rl.ether rl.dport rl.proto) (hash_mask hashsz) in
    if not (sig_data (rule_at rules at).fsig == 0)
    then (false, rules)
    else (if test then (true, rules) else (true, set rules at (compile_rule rl)))

-- The loop of `ntfe_configure` over the rules of the image: it stops at the first failure.
unfoldable pub load_rules : Table → List NtfeRule → ℕ → ℕ → Bool × Table
load_rules rules [] seed hashsz = (true, rules)
load_rules rules (rl ∷ rest) seed hashsz =
    let (ok, rules') = rule_insert rules rl seed hashsz false in
    let more = load_rules rules' rest seed hashsz in if ok then more else (false, rules')

-- The loop of `ntfe_validate_configuration`: each rule is tested against the table as it is.
unfoldable pub test_rules : Table → List NtfeRule → ℕ → ℕ → Bool
test_rules rules [] seed hashsz = true
test_rules rules (rl ∷ rest) seed hashsz =
    let more = test_rules rules rest seed hashsz in
    if (rule_insert rules rl seed hashsz true).0 then more else false
