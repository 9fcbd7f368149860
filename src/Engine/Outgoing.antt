-- ===== src/Engine/Outgoing.antt =====
-- `ntfe_tx`: what sending does to the table of hosts.
use ntfw.Common.{ℕ, true, ◌≡◌, ◌≢◌, ◌≤◌}
use ntfw.Common.{if◌then◌else◌, List, Option, some, bswap16}
use ntfw.Common.{All}
use ntfw.Flow.{Flowsig, mask_sig}
use ntfw.Rules.{NtfeRule, Table, load_rules, zero_table}
use ntfw.Rules.Load.{IsRule}
use ntfw.State.{Gs, Htbucket, host_pri_outauth}
use ntfw.Net.{NetFrame, eth_p_ip, has_port}
use ntfw.Host.{host_fetch_bucket, host_lookup, host_insert_authorized}
use ntfw.Host.Probe.{index_of, probe_bucket_lem}
use ntfw.Host.Bucket.{IsHtbucket, host_entry, Entry}
use ntfw.Host.Outcome.{Outcome}
use ntfw.Engine.{tx_sig}
use ntfw.Engine.Accept.{IsFrame}

abbrev sent_sig : NetFrame → Flowsig
sent_sig frame = mask_sig (tx_sig frame) (if has_port frame.ip_proto then 0xffff_ffff else 0xffff)

module _ (frame : NetFrame) (rls : List NtfeRule) (seed hashsz : ℕ) (v : IsFrame frame)
    (ip : frame.eth_proto ≡ bswap16 eth_p_ip) (proto : frame.ip_proto ≢ 0)
    (rules_fit : All IsRule rls) (loaded : (load_rules zero_table rls seed hashsz).0 ≡ true) where
  abbrev table : Table
  table = (load_rules zero_table rls seed hashsz).1

-- The rule table of the state is the one loaded with success from these rules.
pub record HasRules (gs : Gs) (rls : List NtfeRule) : Type 0 where
  pub fit : All IsRule rls
  pub loaded : (load_rules zero_table rls gs.rule_seed gs.rule_hashsz).0 ≡ true
  pub table_eq : gs.rules ≡ (load_rules zero_table rls gs.rule_seed gs.rule_hashsz).1

-- The bucket of the destination.
abbrev pub tx_bucket : Gs → NetFrame → Htbucket
tx_bucket gs frame = gs.host_tbl (host_fetch_bucket frame.ip_daddr)

pub host_lookup_lem :
    (htb : Htbucket) (a : ℕ) → IsHtbucket htb → host_lookup htb a ≡ index_of htb.saddr a
unfolding host_lookup
host_lookup_lem htb a w = probe_bucket_lem htb a w.keys

module _ (p : ℕ) (frame : NetFrame) (gs : Gs) where
  abbrev dest : Htbucket
  dest = tx_bucket gs frame

  abbrev authorized_dest : Option ℕ × Gs
  authorized_dest =
      host_insert_authorized p (host_fetch_bucket frame.ip_daddr) frame.ip_daddr host_pri_outauth gs

  -- The destination has a priority in a state.
  abbrev pub DestAuthorized : Gs → Type 0
  DestAuthorized gs' =
      (e : Entry) × (host_entry (tx_bucket gs' frame) frame.ip_daddr ≡ some e) × (1 ≤ e.1)
