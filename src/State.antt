-- ===== src/State.antt =====
-- ntfe/ntfe.h: the state of the engine. A pointer to a bucket is its index in `host_tbl`, and a
-- pointer to a host state its index in `hpool`.
use ntfw.Common.{ℕ, Bool, List, ◌+◌, ◌*◌, ◌^◌, get_or, set, replicate, update, u32}
use ntfw.Meter.{Tbucket, TbucketDesc}
use ntfw.Rules.{Table}

-- `union host_ctrl`, by its bit fields
pub record HostCtrl : Type 0 where
  pub age : ℕ
  pub pri : ℕ
  pub ptr : ℕ
  pub reserved : ℕ

-- the priorities `HOST_PRI_*`
abbrev pub host_pri_none : ℕ
host_pri_none = 0

abbrev pub host_pri_outauth : ℕ
host_pri_outauth = 1

abbrev pub host_pri_dynauth : ℕ
host_pri_dynauth = 2

abbrev pub host_pri_static : ℕ
host_pri_static = 3

abbrev pub htb_age_bits : ℕ
htb_age_bits = 11

abbrev pub htb_age_mask : ℕ
htb_age_mask = 0x7ff

abbrev pub htb_pri_mask : ℕ
htb_pri_mask = 0x1800

abbrev pub htbl_size : ℕ
htbl_size = 0x40000

abbrev pub hpool_grow : ℕ
hpool_grow = 64

-- the union seen as `v`: the fields from the lowest bit on
abbrev pub ctrl_v : HostCtrl → ℕ
ctrl_v c = c.age + c.pri * 2 ^ 11 + c.ptr * 2 ^ 13 + c.reserved * 2 ^ 31

-- `struct htbucket`: eight addresses, and eight control blocks
pub record Htbucket : Type 0 where
  pub saddr : List ℕ
  pub ctrl : List HostCtrl

abbrev pub zero_ctrl : HostCtrl
zero_ctrl = record { age = 0; pri = 0; ptr = 0; reserved = 0 }

abbrev pub ctrl_at : Htbucket → ℕ → HostCtrl
ctrl_at htb i = get_or htb.ctrl i zero_ctrl

-- The lock is bit 31 of the first control block, and `exhausted` bit 31 of the second.
abbrev pub lock_bit : Htbucket → ℕ
lock_bit htb = (ctrl_at htb 0).reserved

abbrev pub exhausted : Htbucket → ℕ
exhausted htb = (ctrl_at htb 1).reserved

abbrev pub with_reserved : Htbucket → ℕ → ℕ → Htbucket
with_reserved htb i v = record htb {
  ctrl = set htb.ctrl i (record (ctrl_at htb i) { reserved = v });
}

-- `struct host_state`
pub record HostState : Type 0 where
  pub tb : List Tbucket
  pub lock : ℕ

abbrev pub zero_bucket : Tbucket
zero_bucket = record { tokens = 0; last = 0 }

abbrev pub zero_desc : TbucketDesc
zero_desc = record { rate = 0; capacity = 0; level = 0 }

abbrev pub max_meters : ℕ
max_meters = 4

-- What `memzero` leaves of a host state.
abbrev pub zero_host : HostState
zero_host = record { tb = replicate max_meters zero_bucket; lock = 0 }

-- `struct counters`
pub record Counters : Type 0 where
  pub rx_frames : ℕ
  pub rx_bytes : ℕ
  pub rx_malformed : ℕ
  pub rx_dropped : ℕ
  pub rx_drop_priv : ℕ
  pub rx_drop_policed : ℕ
  pub tx_frames : ℕ
  pub tx_bytes : ℕ
  pub tx_malformed : ℕ
  pub htb_conflicts : ℕ
  pub htb_deferred : ℕ
  pub htb_collisions : ℕ
  pub htb_ins_fails : ℕ
  pub hpl_grow_stall : ℕ

-- `struct cpu_local`
pub record CpuLocal : Type 0 where
  pub ts_hpc : ℕ
  pub ts_msec : ℕ
  pub sc : Counters

-- `struct _gs`; `hpool` says whether the pointer is set, and `pool` is what it points to.
pub record Gs : Type 0 where
  pub hpool : Bool
  pub pool : ℕ → HostState
  pub hpc_hz : ℕ
  pub rule_seed : ℕ
  pub rule_hashsz : ℕ
  pub tbdesc : List TbucketDesc
  pub rules : Table
  pub pkey : List ℕ
  pub hp_size : ℕ
  pub hp_true_sz : ℕ
  pub cpuls : ℕ → CpuLocal
  pub host_tbl : ℕ → Htbucket

abbrev pub with_bucket : Gs → ℕ → Htbucket → Gs
with_bucket gs b htb = record gs { host_tbl = update gs.host_tbl b htb }

-- A change of the counters of processor `p`.
abbrev pub count : ℕ → (Counters → Counters) → Gs → Gs
count p f gs = record gs {
  cpuls = update gs.cpuls p (record (gs.cpuls p) { sc = f (gs.cpuls p).sc });
}

abbrev pub rx_malformed_inc : Counters → Counters
rx_malformed_inc c = record c { rx_malformed = u32 (c.rx_malformed + 1) }

abbrev pub rx_dropped_inc : Counters → Counters
rx_dropped_inc c = record c { rx_dropped = u32 (c.rx_dropped + 1) }

abbrev pub rx_drop_priv_inc : Counters → Counters
rx_drop_priv_inc c = record c { rx_drop_priv = u32 (c.rx_drop_priv + 1) }

abbrev pub rx_drop_policed_inc : Counters → Counters
rx_drop_policed_inc c = record c { rx_drop_policed = u32 (c.rx_drop_policed + 1) }

abbrev pub tx_malformed_inc : Counters → Counters
tx_malformed_inc c = record c { tx_malformed = u32 (c.tx_malformed + 1) }

abbrev pub htb_conflicts_inc : Counters → Counters
htb_conflicts_inc c = record c { htb_conflicts = u32 (c.htb_conflicts + 1) }

abbrev pub htb_deferred_inc : Counters → Counters
htb_deferred_inc c = record c { htb_deferred = u32 (c.htb_deferred + 1) }

abbrev pub htb_collisions_inc : Counters → Counters
htb_collisions_inc c = record c { htb_collisions = u32 (c.htb_collisions + 1) }

abbrev pub htb_ins_fails_inc : Counters → Counters
htb_ins_fails_inc c = record c { htb_ins_fails = u32 (c.htb_ins_fails + 1) }

abbrev pub hpl_grow_stall_inc : Counters → Counters
hpl_grow_stall_inc c = record c { hpl_grow_stall = u32 (c.hpl_grow_stall + 1) }
