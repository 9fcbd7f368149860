-- ===== src/Engine.antt =====
-- ntfe/ntfe.cpp: the data path. A handler runs on processor `p`, and takes and returns the state
-- of the engine; `env` is what it asks of the system and of the signature library.
pub mod Effect
pub mod Accept
pub mod Private
pub mod Authenticate
pub mod Outgoing
use ntfw.Common.{ℕ, Bool, true, false, not, ◌&&◌, ◌||◌, ◌+◌, ◌-◌, ◌*◌, ◌/◌, ◌^◌, ltb, ◌==◌}
use ntfw.Common.{
  if◌then◌else◌, List, [], ◌∷◌, Option, none, some, bit_and, u8, u16, u32, u64, ◌>>>◌,
}
use ntfw.Common.{bswap16, get_or, set, update}
use ntfw.Flow.{Flowsig, sig_data, mask_sig, ether_be16_to_fs}
use ntfw.Meter.{token_bucket_charge, TbucketDesc}
use ntfw.Rules.{Rule, rule_lookup}
use ntfw.Saturate.{satmul32}
use ntfw.State.{Gs, HostState, Htbucket, zero_bucket, zero_desc, ctrl_at, count, host_pri_none}
use ntfw.State.{host_pri_outauth, host_pri_dynauth, rx_malformed_inc, rx_dropped_inc}
use ntfw.State.{rx_drop_priv_inc, rx_drop_policed_inc, tx_malformed_inc}
use ntfw.Net.{NetFrame, has_port, eth_p_ip, ip_ihl_min, ip_mf_offset, ip_p_udp, ntfp_port}
use ntfw.Net.{eth_hdr_size, ip_hdr_size, udp_hdr_size, ntfp_hdr_size}
use ntfw.Host.{host_fetch_bucket, host_lookup, host_insert, host_insert_authorized, get_host_state}
use ntfw.Host.{time_msec}

-- `QuerySystemTime()`, and `ed25519_verify` on a signature, a payload, its length and a key.
pub record Env : Type 0 where
  pub system_time : ℕ
  pub ed25519_verify : List ℕ → List ℕ → ℕ → List ℕ → Bool

-- half of `AUTH_TWND`
abbrev pub half_twnd : ℕ
half_twnd = 4 * 60 * 10000000 / 2

-- a number of bytes, the lowest first
abbrev pub le_word : ℕ → List ℕ → ℕ
le_word Prim.Native.Nat.zero bs = 0
le_word (Prim.Native.Nat.suc n) [] = 0
le_word (Prim.Native.Nat.suc n) (x ∷ bs) = x + 256 * le_word n bs

-- `u16` subtraction
abbrev pub sub16 : ℕ → ℕ → ℕ
sub16 a b = u16 (a + 2 ^ 16 - b)

abbrev pub no_host : HostState
no_host = record { tb = []; lock = 0 }

-- One of the two charges of `host_charge_packet`: the host, and 1 if nothing is charged or the
-- charge passed. With the bucket numbers 4 to 7 the source goes past the two arrays, into memory
-- that is not modelled: here a free bucket is read and the write is lost.
unfoldable pub charge_meter : HostState → List TbucketDesc → ℕ → ℕ → ℕ → HostState × ℕ
charge_meter host descs tbi tmsec cost =
    if cost == 0
    then (host, 1)
    else (let (tb, ok) =
          token_bucket_charge (get_or host.tb tbi zero_bucket) (get_or descs tbi zero_desc) tmsec
            cost in
        (record host { tb = set host.tb tbi tb }, if ok then 1 else 0))

-- The signature of a received frame.
unfoldable pub rx_sig : NetFrame → Flowsig
rx_sig frame = record {
  ether = ether_be16_to_fs frame.eth_proto;
  proto = frame.ip_proto;
  dport = frame.dport;
}

-- The signature of a sent frame; here bit 7 of the encoding is not set.
unfoldable pub tx_sig : NetFrame → Flowsig
tx_sig frame = record {
  ether = u8 (frame.eth_proto >>> 7);
  proto = frame.ip_proto;
  dport = frame.dport;
}

-- the constant that the source compares the signature with
abbrev pub ntfp_data : ℕ
ntfp_data = ip_p_udp * 2 ^ 8 + bswap16 ntfp_port * 2 ^ 16

-- A host found at an index, with a priority.
abbrev pub is_authorized : Htbucket → Option ℕ → Bool
is_authorized htb none = false
is_authorized htb (some i) = not ((ctrl_at htb i).pri == host_pri_none)

-- The test for a destination that is not there, or of a lower class.
abbrev pub below_outauth : Htbucket → Option ℕ → Bool
below_outauth htb none = true
below_outauth htb (some i) = ltb (ctrl_at htb i).pri host_pri_outauth

module _ (p : ℕ) where
  -- The lock of the host is taken and released on the way: its bit is clear at the end.
  unfoldable pub host_charge_packet : ℕ → Rule → ℕ → Gs → ℕ × Gs
  unfolding charge_meter
  host_charge_packet h rl in_bytes gs =
      let in_bytes_cost = satmul32 in_bytes rl.in_byte_scale in
      let in_packet_cost = rl.in_packet_scale in
      let tmsec = u32 (time_msec p gs) in
      let (host1, byte_ok) = charge_meter (gs.pool h) gs.tbdesc rl.in_byte_tb tmsec in_bytes_cost in
      let (host2, packet_ok) = charge_meter host1 gs.tbdesc rl.in_packet_tb tmsec in_packet_cost in
      let host3 = record host2 { lock = host2.lock / 2 * 2 } in
      (2 - byte_ok - packet_ok, record gs { pool = update gs.pool h host3 })

  -- `goto drop`
  unfoldable pub rx_drop : Gs → Bool × Gs
  rx_drop gs = (false, count p rx_dropped_inc gs)

  unfoldable pub rx_malformed : Gs → Bool × Gs
  rx_malformed gs = rx_drop (count p rx_malformed_inc gs)

  -- The charge of a packet of public traffic.
  unfoldable pub rx_charge : ℕ → ℕ → Rule → ℕ → Gs → Bool × Gs
  rx_charge b hidx rl len gs =
      let h = get_host_state (gs.host_tbl b) hidx in
      let (result, gs') = host_charge_packet h rl (sub16 len eth_hdr_size) gs in
      if result == 0 then (true, gs') else rx_drop (count p rx_drop_policed_inc gs')

  -- Public traffic of a host that is not authorized.
  unfoldable pub rx_public : ℕ → ℕ → Option ℕ → Rule → ℕ → Gs → Bool × Gs
  rx_public b saddr (some i) rl len gs =
      if not gs.hpool then (true, gs) else rx_charge b i rl len gs
  rx_public b saddr none rl len gs =
      if not gs.hpool
      then (true, gs)
      else (let (idx, gs') = host_insert p b saddr gs in
          elim idx [ none ↦ rx_drop gs' | some i ↦ rx_charge b i rl len gs' ])

module _ (env : Env) (p : ℕ) where
  unfoldable pub ntfp_rx_process : NetFrame → ℕ → Gs → Gs
  ntfp_rx_process frame len gs =
      let msg = frame.msg in
      let len1 = sub16 len eth_hdr_size in
      let len2 = sub16 (bswap16 frame.ip_len) ip_hdr_size in
      let len3 = sub16 len2 udp_hdr_size in
      let t = env.system_time in
      if not (msg.magic == le_word 8 gs.pkey)
      then gs
      else if ltb len1 ip_hdr_size || ltb len1 (bswap16 frame.ip_len)
      then gs
      else if ltb len2 udp_hdr_size || ltb len2 (bswap16 frame.udp_len)
      then gs
      else if ltb len3 ntfp_hdr_size || ltb len3 msg.msg_len
      then gs
      else if ltb msg.timestamp (u64 (t + 2 ^ 64 - half_twnd))
          || ltb (u64 (t + half_twnd)) msg.timestamp
      then gs
      else if not (env.ed25519_verify msg.signature msg.payload msg.msg_len gs.pkey)
      then gs
      else if msg.addr == 0
      then gs
      else (host_insert_authorized p (host_fetch_bucket msg.addr) msg.addr host_pri_dynauth gs).1

  -- The traffic of a host that is not authorized.
  unfoldable pub rx_unauthorized : NetFrame → ℕ → Flowsig → ℕ → ℕ → Option ℕ → Gs → Bool × Gs
  rx_unauthorized frame len sig mask b hidx gs =
      if sig_data sig == ntfp_data
      then rx_drop p (ntfp_rx_process frame len gs)
      else elim (rule_lookup gs.rules gs.rule_seed gs.rule_hashsz (mask_sig sig mask)) [
        | none ↦ rx_drop p (count p rx_drop_priv_inc gs)
        | some rl ↦ rx_public p b frame.ip_saddr hidx rl len gs
      ]

  unfoldable pub rx_ipv4 : NetFrame → ℕ → Flowsig → Gs → Bool × Gs
  rx_ipv4 frame len sig gs =
      let b = host_fetch_bucket frame.ip_saddr in
      let hidx = host_lookup (gs.host_tbl b) frame.ip_saddr in
      let mask = if has_port sig.proto then 0xffff_ffff else 0xffff in
      if not (frame.ihl == ip_ihl_min)
      then rx_malformed p gs
      else if frame.ip_saddr == 0
      then rx_malformed p gs
      else if not (bit_and frame.frag_off (bswap16 ip_mf_offset) == 0)
      then rx_malformed p gs
      else if has_port sig.proto && sig.dport == 0
      then rx_malformed p gs
      else if is_authorized (gs.host_tbl b) hidx
      then (true, gs)
      else rx_unauthorized frame len sig mask b hidx gs

  unfoldable pub ntfe_rx : NetFrame → ℕ → Gs → Bool × Gs
  ntfe_rx frame len gs =
      if not (frame.eth_proto == bswap16 eth_p_ip)
      then elim (rule_lookup gs.rules gs.rule_seed gs.rule_hashsz (mask_sig (rx_sig frame) 0xff)) [
        | none ↦ rx_drop p gs
        | some rl ↦ (true, gs)
      ]
      else rx_ipv4 frame len (rx_sig frame) gs

module _ (p : ℕ) where
  unfoldable pub tx_private : NetFrame → Gs → Gs
  tx_private frame gs =
      let daddr = frame.ip_daddr in
      let b = host_fetch_bucket daddr in
      if below_outauth (gs.host_tbl b) (host_lookup (gs.host_tbl b) daddr)
      then (host_insert_authorized p b daddr host_pri_outauth gs).1
      else gs

  unfoldable pub ntfe_tx : NetFrame → Gs → Gs
  unfolding tx_sig
  ntfe_tx frame gs =
      let sig = tx_sig frame in
      let mask = if has_port sig.proto then 0xffff_ffff else 0xffff in
      if not (frame.eth_proto == bswap16 eth_p_ip)
      then gs
      else if not (frame.ihl == ip_ihl_min)
      then count p tx_malformed_inc gs
      else elim (rule_lookup gs.rules gs.rule_seed gs.rule_hashsz (mask_sig sig mask)) [
        | some rl ↦ gs
        | none ↦ tx_private frame gs
      ]

  -- `hpc` is the sample of the clock.
  unfoldable pub ntfe_rx_prepare : ℕ → Gs → Gs
  ntfe_rx_prepare hpc gs =
      let old = gs.cpuls p in
      record gs {
        cpuls =
            update gs.cpuls p (record old { ts_hpc = hpc; ts_msec = u64 (hpc * 1000) / gs.hpc_hz });
      }

  unfoldable pub ntfe_tx_prepare : ℕ → Gs → Gs
  ntfe_tx_prepare hpc gs = ntfe_rx_prepare hpc gs
