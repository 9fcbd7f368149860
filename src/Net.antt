-- ===== src/Net.antt =====
-- ntfe/net.h and the messages of ntfe/ntfeusr.h: the frame as the engine overlays it on the
-- received bytes, by the fields that it reads. A field of type `be16` or `be32` holds what a
-- little-endian machine reads there.
use ntfw.Common.{ℕ, List, Bool, ◌||◌, ◌==◌}

abbrev pub eth_p_ip : ℕ
eth_p_ip = 0x0800

abbrev pub eth_p_arp : ℕ
eth_p_arp = 0x0806

abbrev pub ip_ihl_min : ℕ
ip_ihl_min = 5

-- `IP_MF | IP_OFFSET`
abbrev pub ip_mf_offset : ℕ
ip_mf_offset = 0x3fff

abbrev pub ip_p_tcp : ℕ
ip_p_tcp = 0x06

abbrev pub ip_p_udp : ℕ
ip_p_udp = 0x11

abbrev pub ip_p_ldp : ℕ
ip_p_ldp = 0x88

-- sizes of `eth_hdr`, `ip_hdr`, `udp_hdr` and `ntfp_hdr`
abbrev pub eth_hdr_size : ℕ
eth_hdr_size = 14

abbrev pub ip_hdr_size : ℕ
ip_hdr_size = 20

abbrev pub udp_hdr_size : ℕ
udp_hdr_size = 8

abbrev pub ntfp_hdr_size : ℕ
ntfp_hdr_size = 72

abbrev pub ntfp_port : ℕ
ntfp_port = 5662

-- `struct ntfp_msg`
pub record NtfpMsg : Type 0 where
  pub magic : ℕ
  pub signature : List ℕ
  pub timestamp : ℕ
  pub msg_len : ℕ
  pub payload : List ℕ
  pub addr : ℕ

-- `struct net_frame`; `dport` stands at one place in both transport headers.
pub record NetFrame : Type 0 where
  pub eth_proto : ℕ
  pub ihl : ℕ
  pub ip_len : ℕ
  pub frag_off : ℕ
  pub ip_proto : ℕ
  pub ip_saddr : ℕ
  pub ip_daddr : ℕ
  pub dport : ℕ
  pub udp_len : ℕ
  pub msg : NtfpMsg

-- The test of `ntfe_rx` and `ntfe_tx` for a protocol with ports.
abbrev pub has_port : ℕ → Bool
has_port proto = proto == ip_p_udp || (proto == ip_p_tcp || proto == ip_p_ldp)
