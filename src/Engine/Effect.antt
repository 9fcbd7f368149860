-- ===== src/Engine/Effect.antt =====
-- What the data path does to the table of hosts: nothing, or one call of one operation of it.
use ntfw.Common.{ℕ, Bool, true, false, ◌≡◌, ◌==◌, refl, if◌then◌else◌, subst, not, bswap16, ==_iff}
use ntfw.Common.{Option, none, some, inl, inr, Bool-cases}
use ntfw.Flow.{sig_data, mask_sig}
use ntfw.Rules.{Rule, rule_lookup}
use ntfw.State.{Gs, count, host_pri_outauth, rx_drop_priv_inc, rx_drop_policed_inc}
use ntfw.State.{tx_malformed_inc}
use ntfw.Net.{NetFrame, has_port}
use ntfw.Host.{host_fetch_bucket, host_lookup, host_insert, host_insert_authorized, get_host_state}
use ntfw.Engine.{Env, rx_sig, ntfe_rx, rx_ipv4, rx_unauthorized, rx_public, rx_charge}
use ntfw.Engine.{rx_drop, rx_malformed, host_charge_packet, ntfp_data, tx_private, ntfe_tx}
use ntfw.Common.{◌&&◌, bit_and}
use ntfw.Engine.{sub16, is_authorized}
use ntfw.Net.{eth_hdr_size, eth_p_ip, ip_ihl_min, ip_mf_offset}
use ntfw.Engine.Accept.{IsFrame, rx_sig-ne-ntfp}

-- The table of hosts and the sizes of the pool are the same.
pub record Plain (gs gs' : Gs) : Type 0 where
  pub table : gs'.host_tbl ≡ gs.host_tbl
  pub size : gs'.hp_size ≡ gs.hp_size
  pub true_size : gs'.hp_true_sz ≡ gs.hp_true_sz

Plain-refl : (gs : Gs) → Plain gs gs
Plain-refl gs = record { table = refl; size = refl; true_size = refl }

pub data RxEffect (p : ℕ) (gs : Gs) (r : Bool × Gs) : Type 0 where
  plain : Plain gs r.1 → RxEffect p gs r
  inserted : (b a : ℕ) → Plain (host_insert p b a gs).1 r.1 → RxEffect p gs r

pub data TxEffect (p a : ℕ) (gs gs' : Gs) : Type 0 where
  plain : Plain gs gs' → TxEffect p a gs gs'
  authorized :
      Plain (host_insert_authorized p (host_fetch_bucket a) a host_pri_outauth gs).1 gs'
      → TxEffect p a gs gs'

-- What holds of both branches of a test.
either : {A : Type 0} (P : A → Type 0) (t : Bool) (x y : A) → P x → P y → P (if t then x else y)
either P true x y ex ey = ex
either P false x y ex ey = ey

module _ (p : ℕ) (gs : Gs) where
  drop_effect : RxEffect p gs (rx_drop p gs)
  unfolding rx_drop
  drop_effect = plain (record { table = refl; size = refl; true_size = refl })

  malformed_effect : RxEffect p gs (rx_malformed p gs)
  unfolding rx_malformed rx_drop
  malformed_effect = plain (record { table = refl; size = refl; true_size = refl })

  charge-Plain : (b i : ℕ) (rl : Rule) (len : ℕ) → Plain gs (rx_charge p b i rl len gs).1
  unfolding rx_charge rx_drop
  charge-Plain b i rl len =
      let r =
        host_charge_packet p (get_host_state (gs.host_tbl b) i) rl (sub16 len eth_hdr_size) gs in
      let charged : Plain gs r.1 =
        unfold host_charge_packet in record { table = refl; size = refl; true_size = refl } in
      either {A = Bool × Gs} (λ q. Plain gs q.1) (r.0 == 0) (true, r.1)
        (rx_drop p (count p rx_drop_policed_inc r.1)) charged
        (record { table = charged.table; size = charged.size; true_size = charged.true_size })

module _ (p : ℕ) (gs : Gs) where
  inserted_effect :
      (b a : ℕ) (rl : Rule) (len : ℕ) (o : Option ℕ) (gs1 : Gs)
      → gs1 ≡ (host_insert p b a gs).1
      → RxEffect p gs (elim o as (λ x. Bool × Gs) [
        | none ↦ rx_drop p gs1
        | some i ↦ rx_charge p b i rl len gs1
      ])
  inserted_effect b a rl len none gs1 e = inserted b a (
      subst (λ g. Plain g (rx_drop p gs1).1) e
        (unfold rx_drop in record { table = refl; size = refl; true_size = refl }))
  inserted_effect b a rl len (some i) gs1 e =
      inserted b a
        (subst (λ g. Plain g (rx_charge p b i rl len gs1).1) e (charge-Plain p gs1 b i rl len))

  public_effect :
      (b a : ℕ) (o : Option ℕ) (rl : Rule) (len : ℕ) → RxEffect p gs (rx_public p b a o rl len gs)
  unfolding rx_public
  public_effect b a (some i) rl len =
      either (RxEffect p gs) (not gs.hpool) (true, gs) (rx_charge p b i rl len gs)
        (plain (Plain-refl gs)) (plain (charge-Plain p gs b i rl len))
  public_effect b a none rl len =
      let r = host_insert p b a gs in
      either (RxEffect p gs) (not gs.hpool) (true, gs) _ (plain (Plain-refl gs))
        (inserted_effect b a rl len r.0 r.1 refl)

module _ (env : Env) (p : ℕ) (frame : NetFrame) (len : ℕ) (gs : Gs) where
  ruled_effect :
      (o : Option Rule) (b : ℕ) (hidx : Option ℕ)
      → RxEffect p gs (elim o as (λ x. Bool × Gs) [
        | none ↦ rx_drop p (count p rx_drop_priv_inc gs)
        | some rl ↦ rx_public p b frame.ip_saddr hidx rl len gs
      ])
  ruled_effect none b hidx =
      unfold rx_drop in plain (record { table = refl; size = refl; true_size = refl })
  ruled_effect (some rl) b hidx = public_effect p gs b frame.ip_saddr hidx rl len

  unauthorized_effect :
      IsFrame frame
      → (mask b : ℕ) (hidx : Option ℕ)
      → RxEffect p gs (rx_unauthorized env p frame len (rx_sig frame) mask b hidx gs)
  unfolding rx_unauthorized
  unauthorized_effect v mask b hidx = elim (Bool-cases (sig_data (rx_sig frame) == ntfp_data)) [
    | inl e ↦ absurd (rx_sig-ne-ntfp frame v ((==_iff _ _).0 e))
    | inr e ↦ rw e (
        ruled_effect
          (rule_lookup gs.rules gs.rule_seed gs.rule_hashsz (mask_sig (rx_sig frame) mask)) b hidx)
  ]

  ipv4_effect : IsFrame frame → RxEffect p gs (rx_ipv4 env p frame len (rx_sig frame) gs)
  unfolding rx_ipv4
  ipv4_effect v =
      let E = RxEffect p gs in
      let bad = malformed_effect p gs in
      let proto = (rx_sig frame).proto in
      let b = host_fetch_bucket frame.ip_saddr in
      let hidx = host_lookup (gs.host_tbl b) frame.ip_saddr in
      let mask = if has_port proto then 0xffff_ffff else 0xffff in
      let sent = unauthorized_effect v mask b hidx in
      either E (not (frame.ihl == ip_ihl_min)) (rx_malformed p gs) _ bad (
        either E (frame.ip_saddr == 0) (rx_malformed p gs) _ bad (
          either E (not (bit_and frame.frag_off (bswap16 ip_mf_offset) == 0)) (rx_malformed p gs) _
            bad
            (either E (has_port proto && (rx_sig frame).dport == 0) (rx_malformed p gs) _ bad (
              either E (is_authorized (gs.host_tbl b) hidx) (true, gs) _ (plain (Plain-refl gs))
                sent))))

  other_effect :
      (o : Option Rule)
      → RxEffect p gs (elim o as (λ x. Bool × Gs) [ none ↦ rx_drop p gs | some rl ↦ (true, gs) ])
  other_effect none = drop_effect p gs
  other_effect (some rl) = plain (Plain-refl gs)

  pub ntfe_rx-effect : IsFrame frame → RxEffect p gs (ntfe_rx env p frame len gs)
  unfolding ntfe_rx
  ntfe_rx-effect v =
      either (RxEffect p gs) (not (frame.eth_proto == bswap16 eth_p_ip)) _ _
        (other_effect
          (rule_lookup gs.rules gs.rule_seed gs.rule_hashsz (mask_sig (rx_sig frame) 0xff)))
        (ipv4_effect v)

module _ (p : ℕ) (frame : NetFrame) (gs : Gs) where
  private_effect : TxEffect p frame.ip_daddr gs (tx_private p frame gs)
  unfolding tx_private
  private_effect =
      let b = host_fetch_bucket frame.ip_daddr in
      either (TxEffect p frame.ip_daddr gs) _ _ gs (authorized (Plain-refl _))
        (plain (Plain-refl gs))

  no_rule_effect :
      (o : Option Rule)
      → TxEffect p frame.ip_daddr gs
          (elim o as (λ x. Gs) [ some rl ↦ gs | none ↦ tx_private p frame gs ])
  no_rule_effect (some rl) = plain (Plain-refl gs)
  no_rule_effect none = private_effect

  pub ntfe_tx-effect : TxEffect p frame.ip_daddr gs (ntfe_tx p frame gs)
  unfolding ntfe_tx
  ntfe_tx-effect =
      let E = TxEffect p frame.ip_daddr gs in
      either E _ gs _ (plain (Plain-refl gs)) (
        either E _ (count p tx_malformed_inc gs) _
          (plain (record { table = refl; size = refl; true_size = refl })) (no_rule_effect _))
