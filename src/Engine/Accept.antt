-- ===== src/Engine/Accept.antt =====
-- Which received frames pass `ntfe_rx`.
use ntfw.Common.{ℕ, true, false, ◌&&◌, ◌^◌, ◌==◌, ◌≡◌, ◌≢◌, ◌<◌}
use ntfw.Common.{if◌then◌else◌, Option, none, some, bit_and, bswap16, inl, inr, refl, arith}
use ntfw.Common.{Bool-cases, ==_iff}
use ntfw.Flow.{sig_data, mask_sig}
use ntfw.Flow.Encoding.{ether_be16_to_fs_lem}
use ntfw.Rules.{Rule, rule_lookup}
use ntfw.State.{Gs, Htbucket, ctrl_at, count, rx_drop_priv_inc}
use ntfw.Net.{NetFrame, has_port, eth_p_ip, ip_ihl_min, ip_mf_offset}
use ntfw.Host.{host_fetch_bucket, host_lookup}
use ntfw.Engine.{Env, rx_sig, ntfe_rx, rx_ipv4, rx_unauthorized, rx_public, rx_drop}
use ntfw.Engine.{is_authorized, ntfp_data}

-- The fields of a frame by which its signature is made fit their widths.
pub record IsFrame (frame : NetFrame) : Type 0 where
  pub eth_fits : frame.eth_proto < 2 ^ 16
  pub proto_fits : frame.ip_proto < 2 ^ 8
  pub dport_fits : frame.dport < 2 ^ 16

-- An IPv4 frame that is not malformed.
pub record IsWellFormed (frame : NetFrame) : Type 0 where
  pub is_ip : frame.eth_proto ≡ bswap16 eth_p_ip
  pub no_options : frame.ihl ≡ ip_ihl_min
  pub has_source : frame.ip_saddr ≢ 0
  pub no_fragment : bit_and frame.frag_off (bswap16 ip_mf_offset) ≡ 0
  pub port_set : (has_port frame.ip_proto && frame.dport == 0) ≡ false

abbrev pub rx_bucket : Gs → NetFrame → Htbucket
rx_bucket gs frame = gs.host_tbl (host_fetch_bucket frame.ip_saddr)

abbrev pub rx_mask : NetFrame → ℕ
rx_mask frame = if has_port frame.ip_proto then 0xffff_ffff else 0xffff

-- The source has an entry with a priority.
abbrev pub Authorized : Gs → NetFrame → Type 0
Authorized gs frame =
    (i : ℕ) × (host_lookup (rx_bucket gs frame) frame.ip_saddr ≡ some i)
    × ((ctrl_at (rx_bucket gs frame) i).pri ≢ 0)

-- The rule for an IPv4 frame.
abbrev pub rx_rule : Gs → NetFrame → Option Rule
rx_rule gs frame =
    rule_lookup gs.rules gs.rule_seed gs.rule_hashsz (mask_sig (rx_sig frame) (rx_mask frame))

-- The signature of a frame never is the constant that it is compared with for NTFP: its lowest
-- byte has bit 7 set.
pub rx_sig-ne-ntfp : (frame : NetFrame) → IsFrame frame → sig_data (rx_sig frame) ≢ ntfp_data
unfolding sig_data rx_sig
rx_sig-ne-ntfp frame v =
    omega (arith, ether_be16_to_fs_lem frame.eth_proto v.eth_fits, v.proto_fits)

module _ (env : Env) (p : ℕ) (frame : NetFrame) (len : ℕ) (gs : Gs) where
  pub rx_ipv4_open :
      IsWellFormed frame
      → ntfe_rx env p frame len gs ≡ (
          if is_authorized (rx_bucket gs frame) (host_lookup (rx_bucket gs frame) frame.ip_saddr)
          then (true, gs)
          else rx_unauthorized env p frame len
              (rx_sig frame)
              (rx_mask frame)
              (host_fetch_bucket frame.ip_saddr)
              (host_lookup (rx_bucket gs frame) frame.ip_saddr)
              gs)
  unfolding ntfe_rx rx_ipv4 rx_sig
  rx_ipv4_open w = ground arith

  pub unauthorized_open :
      IsFrame frame
      → let found = host_lookup (rx_bucket gs frame) frame.ip_saddr in
        rx_unauthorized env p frame len
          (rx_sig frame)
          (rx_mask frame)
          (host_fetch_bucket frame.ip_saddr)
          found
          gs
        ≡ (elim (rx_rule gs frame) [
          | none ↦ rx_drop p (count p rx_drop_priv_inc gs)
          | some rl ↦ rx_public p (host_fetch_bucket frame.ip_saddr) frame.ip_saddr found rl len gs
        ])
  unfolding rx_unauthorized
  unauthorized_open v = elim (Bool-cases (sig_data (rx_sig frame) == ntfp_data)) [
    | inl e ↦ absurd (rx_sig-ne-ntfp frame v ((==_iff _ _).0 e))
    | inr e ↦ rw (e) refl
  ]
