-- ===== src/Tests/Frames.antt =====
-- Tests of the data path on frames.
use ntfw.Common.{ℕ, true, false, ◌≡◌, ◌≢◌, ◌⊎◌, arith, refl, ap}
use ntfw.Common.{[], none, some, bswap16}
use ntfw.Flow.{
  sig_data, mask_sig, ether_le16_to_fs, ether_be16_to_fs, rule_hashfn, ntfe_rule_hashfn,
  sig_of_data,
}
use ntfw.Rules.{Rule, rule_sig, rule_insert, load_rules, rule_lookup, hash_flowsig, compile_rule}
use ntfw.Host.{probe_bucket}
use ntfw.Host.{movemask_eq, host_lookup}
use ntfw.State.{count, rx_dropped_inc, rx_drop_priv_inc}
use ntfw.Net.{NetFrame, NtfpMsg}
use ntfw.Engine.{Env, ntfe_rx, rx_sig}
use ntfw.Engine.Private.{ntfe_rx_private}
use ntfw.Engine.Accept.{IsFrame, IsWellFormed, Authorized, rx_rule}
use ntfw.Engine.Private.{ntfe_rx_accept, ntfe_rx_unpoliced}
use ntfw.Engine.Authenticate.{ntfe_rx_no_ntfp}
use ntfw.Tests.{empty_bucket, http_rule, state}

abbrev pub message : NtfpMsg
message = record { magic = 0; signature = []; timestamp = 0; msg_len = 0; payload = []; addr = 0 }

-- A TCP segment between two hosts, to a port in network order.
abbrev pub segment : ℕ → ℕ → ℕ → NetFrame
segment saddr daddr port = record {
  eth_proto = 8;
  ihl = 5;
  ip_len = bswap16 40;
  frag_off = 0;
  ip_proto = 6;
  ip_saddr = saddr;
  ip_daddr = daddr;
  dport = port;
  udp_len = 0;
  msg = message;
}

pub segment-IsFrame : IsFrame (segment 99 11 (bswap16 22))
segment-IsFrame = record {
  eth_fits = omega arith;
  proto_fits = omega arith;
  dport_fits = omega arith;
}

http-IsFrame : IsFrame (segment 99 11 (bswap16 80))
http-IsFrame = record { eth_fits = omega arith; proto_fits = omega arith; dport_fits = omega arith }

segment-IsWellFormed :
    (saddr port : ℕ) → saddr ≢ 0 → port ≢ 0 → IsWellFormed (segment saddr 11 port)
segment-IsWellFormed saddr port ne set = record {
  is_ip = refl;
  no_options = refl;
  has_source = ne;
  no_fragment = refl;
  port_set = ground arith;
}

abbrev pub quiet : Env
quiet = record { system_time = 0; ed25519_verify = λ _ _ _ _. false }

abbrev trusting : Env
trusting = record { system_time = 0; ed25519_verify = λ _ _ _ _. true }

unknown_host : ¬ Authorized (state empty_bucket) (segment 99 11 (bswap16 22))
unfolding host_lookup probe_bucket movemask_eq
unknown_host h = cc h.1

no_rule : rx_rule (state empty_bucket) (segment 99 11 (bswap16 22)) ≡ none
unfolding rule_lookup hash_flowsig rule_hashfn sig_data mask_sig sig_of_data rx_sig ether_be16_to_fs
    load_rules rule_insert ntfe_rule_hashfn ether_le16_to_fs compile_rule rule_sig
no_rule = refl

ntfe_rx_private_example :
    ntfe_rx quiet 0 (segment 99 11 (bswap16 22)) 54 (state empty_bucket)
    ≡ (false, count 0 rx_dropped_inc (count 0 rx_drop_priv_inc (state empty_bucket)))
ntfe_rx_private_example =
    ntfe_rx_private quiet 0 (segment 99 11 (bswap16 22)) 54 (state empty_bucket) segment-IsFrame
      (segment-IsWellFormed 99 (bswap16 22) (omega arith) (omega arith)) unknown_host no_rule

http_found :
    rx_rule (state empty_bucket) (segment 99 11 (bswap16 80)) ≡ some (compile_rule http_rule)
unfolding rule_lookup hash_flowsig rule_hashfn sig_data mask_sig sig_of_data rx_sig ether_be16_to_fs
    load_rules rule_insert ntfe_rule_hashfn ether_le16_to_fs compile_rule rule_sig
http_found = refl

passes : (ntfe_rx quiet 0 (segment 99 11 (bswap16 80)) 54 (state empty_bucket)).0 ≡ true
passes =
    ap (λ r. r.0)
      (ntfe_rx_unpoliced quiet 0 (segment 99 11 (bswap16 80)) 54 (state empty_bucket) http-IsFrame
        (segment-IsWellFormed 99 (bswap16 80) (omega arith) (omega arith)) refl
        (compile_rule http_rule) http_found)

ntfe_rx_accept_example :
    IsWellFormed (segment 99 11 (bswap16 80))
    × (Authorized (state empty_bucket) (segment 99 11 (bswap16 80))
        ⊎ ((rl : Rule) × (rx_rule (state empty_bucket) (segment 99 11 (bswap16 80)) ≡ some rl)))
ntfe_rx_accept_example =
    ntfe_rx_accept quiet 0 (segment 99 11 (bswap16 80)) 54 (state empty_bucket) http-IsFrame refl
      passes

ntfe_rx_no_ntfp_example :
    ntfe_rx quiet 0 (segment 99 11 (bswap16 22)) 54 (state empty_bucket)
    ≡ ntfe_rx trusting 0 (segment 99 11 (bswap16 22)) 54 (state empty_bucket)
ntfe_rx_no_ntfp_example =
    ntfe_rx_no_ntfp quiet trusting 0 (segment 99 11 (bswap16 22)) 54 (state empty_bucket)
      segment-IsFrame
