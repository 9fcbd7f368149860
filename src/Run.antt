-- ===== src/Run.antt =====
-- The calls that ntfe/ntfeusr.h offers to the driver, and the state of the engine after a sequence
-- of them. A call is modelled as a whole, by the processor that makes it.
pub mod Pool
pub mod Kept
pub mod Origin
use ntfw.Common.{◌%◌, ◌≢◌, ℕ, true, Bool, List, [], ◌∷◌, replicate}
use ntfw.Rules.{zero_table}
use ntfw.State.{Gs, Htbucket, zero_ctrl, zero_desc, zero_host, max_meters, Counters}
use ntfw.Net.{NetFrame}
use ntfw.Engine.{Env, ntfe_rx, ntfe_tx, ntfe_rx_prepare, ntfe_tx_prepare}
use ntfw.Engine.Accept.{IsFrame}
use ntfw.Config.{ntfe_config, ntfe_configure, ntfe_init, pkey_size}

-- A call with its arguments, and what the system answers during it.
pub data Call : Type 0 where
  configure : ℕ → List ℕ → ℕ → Call
  rx_prepare : ℕ → ℕ → Call
  tx_prepare : ℕ → ℕ → Call
  rx : Env → ℕ → NetFrame → ℕ → Call
  tx : ℕ → NetFrame → Call

unfoldable pub call : Call → Gs → Gs
call (configure p img cfg_len) gs = (ntfe_configure p img cfg_len gs).1
call (rx_prepare p hpc) gs = ntfe_rx_prepare p hpc gs
call (tx_prepare p hpc) gs = ntfe_tx_prepare p hpc gs
call (rx env p frame len) gs = (ntfe_rx env p frame len gs).1
call (tx p frame) gs = ntfe_tx p frame gs

unfoldable pub run : List Call → Gs → Gs
run [] gs = gs
run (c ∷ calls) gs = run calls (call c gs)

-- A received frame has fields that fit their widths.
abbrev pub IsCall : Call → Type 0
IsCall (rx env p frame len) = IsFrame frame
IsCall (configure p img cfg_len) = Unit
IsCall (rx_prepare p hpc) = Unit
IsCall (tx_prepare p hpc) = Unit
IsCall (tx p frame) = Unit

-- The rules of an image lie inside the rule table: the five low bits of the size of the table are
-- not 31. The validation lets 31 pass, and rules are then written outside of the table, over other
-- parts of `gs`, which is not modelled.
abbrev pub IsInside : Call → Type 0
IsInside (configure p img cfg_len) = (ntfe_config img).rule_hashsz % 32 ≢ 31
IsInside (rx env p frame len) = Unit
IsInside (rx_prepare p hpc) = Unit
IsInside (tx_prepare p hpc) = Unit
IsInside (tx p frame) = Unit

-- The calls of the data path.
abbrev pub IsTraffic : Call → Type 0
IsTraffic (rx env p frame len) = IsFrame frame
IsTraffic (configure p img cfg_len) = ⊥
IsTraffic (rx_prepare p hpc) = Unit
IsTraffic (tx_prepare p hpc) = Unit
IsTraffic (tx p frame) = Unit

abbrev pub zero_counts : Counters
zero_counts = record {
  rx_frames = 0;
  rx_bytes = 0;
  rx_malformed = 0;
  rx_dropped = 0;
  rx_drop_priv = 0;
  rx_drop_policed = 0;
  tx_frames = 0;
  tx_bytes = 0;
  tx_malformed = 0;
  htb_conflicts = 0;
  htb_deferred = 0;
  htb_collisions = 0;
  htb_ins_fails = 0;
  hpl_grow_stall = 0;
}

abbrev pub zero_htbucket : Htbucket
zero_htbucket = record { saddr = replicate 8 0; ctrl = replicate 8 zero_ctrl }

-- The global `gs` and the local data of the processors, which are static and so start as zeros.
abbrev pub zero_gs : Gs
zero_gs = record {
  hpool = Bool.false;
  pool = λ _. zero_host;
  hpc_hz = 0;
  rule_seed = 0;
  rule_hashsz = 0;
  tbdesc = replicate max_meters zero_desc;
  rules = zero_table;
  pkey = replicate pkey_size 0;
  hp_size = 0;
  hp_true_sz = 0;
  cpuls = λ _. record { ts_hpc = 0; ts_msec = 0; sc = zero_counts };
  host_tbl = λ _. zero_htbucket;
}

-- The state after `ntfe_init` has succeeded.
abbrev pub started : ℕ → Gs
started hz = (ntfe_init hz true zero_gs).1
