-- ===== src/Tests.antt =====
-- Tests of the engine on small tables, and the theorems applied to concrete inputs. Here are the
-- tables and the states that they use.
pub mod Entries
pub mod Runs
pub mod Tables
pub mod Frames
pub mod Configure
pub mod Filter
pub mod Workers
pub mod Processors
pub mod Addresses
pub mod Saving
pub mod Windows
pub mod Requests
use ntfw.Common.{ℕ, true, false, ◌-◌, ◌≡◌, arith, refl}
use ntfw.Common.{List, [], ◌∷◌, All, replicate}
use ntfw.Flow.{sig_data, ether_le16_to_fs, rule_hashfn, ntfe_rule_hashfn}
use ntfw.Rules.{NtfeRule, Table, zero_table, rule_sig, rule_insert, load_rules, compile_rule}
use ntfw.Rules.Load.{IsRule}
use ntfw.State.{HostCtrl, Htbucket, Gs, Counters, zero_host, zero_ctrl}
use ntfw.Host.Bucket.{IsHtbucket}

-- A control block inserted at `age`, with a priority.
abbrev pub block : ℕ → ℕ → HostCtrl
block age pri = record { age = age; pri = pri; ptr = 9; reserved = 0 }

-- Hosts 11 to 18; the first is static, the fourth is the oldest of the others.
abbrev pub full_bucket : Htbucket
full_bucket = record {
  saddr = 11 ∷ 12 ∷ 13 ∷ 14 ∷ 15 ∷ 16 ∷ 17 ∷ 18 ∷ [];
  ctrl =
      block 1 3
      ∷ record (block 7 0) { reserved = 1 }
      ∷ block 8 0
      ∷ block 5 0
      ∷ block 9 0
      ∷ block 9 1
      ∷ block 10 0
      ∷ block 11 0
      ∷ [];
}

pub full_bucket-IsHtbucket : IsHtbucket full_bucket
full_bucket-IsHtbucket = record {
  used = 8;
  keys = refl;
  blocks = refl;
  fields = omega arith;
  packed = omega arith;
  full = refl;
}

abbrev pub empty_bucket : Htbucket
empty_bucket = record { saddr = replicate 8 0; ctrl = replicate 8 zero_ctrl }

pub empty_bucket-IsHtbucket : IsHtbucket empty_bucket
empty_bucket-IsHtbucket = record {
  used = 0;
  keys = refl;
  blocks = refl;
  fields = omega arith;
  packed = omega arith;
  full = refl;
}

abbrev pub no_counts : Counters
no_counts = record {
  rx_frames = 0;
  rx_bytes = 0;
  rx_malformed = 0;
  rx_dropped = 0;
  rx_drop_priv = 0;
  rx_drop_policed = 0;
  tx_frames = 0;
  tx_bytes = 0;
  tx_malformed = 0;
  htb_conflicts = 0;
  htb_deferred = 0;
  htb_collisions = 0;
  htb_ins_fails = 0;
  hpl_grow_stall = 0;
}

-- HTTP over TCP, ARP
abbrev pub http_rule : NtfeRule
http_rule = record {
  ether = 0x0800;
  dport = 80;
  byte_scale = 1;
  packet_scale = 10;
  syn_scale = 0;
  proto = 6;
  byte_tb = 0;
  packet_tb = 1;
  syn_tb = 0;
}

abbrev pub arp_rule : NtfeRule
arp_rule = record http_rule { ether = 0x0806; dport = 0; proto = 0 }

abbrev pub two_rules : List NtfeRule
two_rules = http_rule ∷ arp_rule ∷ []

abbrev pub loaded_table : Table
loaded_table = (load_rules zero_table two_rules 1 7).1

-- A state in which every bucket is `htb`.
abbrev pub state : Htbucket → Gs
state htb = record {
  hpool = false;
  pool = λ _. zero_host;
  hpc_hz = 1000;
  rule_seed = 1;
  rule_hashsz = 7;
  tbdesc = replicate 4 (record { rate = 0; capacity = 0; level = 0 });
  rules = loaded_table;
  pkey = [];
  hp_size = 20;
  hp_true_sz = 64;
  cpuls = λ _. record { ts_hpc = 20000; ts_msec = 20000; sc = no_counts };
  host_tbl = λ _. htb;
}

pub two_rules-IsRule : All IsRule two_rules
two_rules-IsRule = (
  record { ether_fits = omega arith; dport_fits = omega arith; proto_fits = omega arith },
  (record { ether_fits = omega arith; dport_fits = omega arith; proto_fits = omega arith }, tt),
)

pub two_rules_load : (load_rules zero_table two_rules 1 7).0 ≡ true
unfolding load_rules rule_insert ntfe_rule_hashfn rule_hashfn sig_data ether_le16_to_fs compile_rule
    rule_sig
two_rules_load = refl
