-- ===== src/Engine/Private.antt =====
-- `ntfe_rx` on private and public IPv4 traffic of hosts that are not authorized.
use ntfw.Common.{ℕ, Bool, true, false, ◌≡◌, ◌≢◌}
use ntfw.Common.{Option, none, some, bswap16, ◌⊎◌, inl, inr, refl, ap, arith}
use ntfw.Common.{Bool-cases, Option-cases, sym, ◌∙◌}
use ntfw.Rules.{Rule}
use ntfw.State.{Gs, Htbucket, ctrl_at, count, rx_dropped_inc, rx_drop_priv_inc}
use ntfw.Net.{NetFrame, eth_p_ip}
use ntfw.Host.{host_fetch_bucket, host_lookup}
use ntfw.Engine.{Env, rx_sig, ntfe_rx, rx_ipv4, rx_public, rx_drop, rx_malformed, is_authorized}
use ntfw.Engine.Accept.{IsFrame, IsWellFormed, Authorized, rx_bucket, rx_rule}
use ntfw.Engine.Accept.{rx_ipv4_open, unauthorized_open}

is_authorized-true :
    (htb : Htbucket) (o : Option ℕ)
    → is_authorized htb o ≡ true
    → (i : ℕ) × (o ≡ some i) × ((ctrl_at htb i).pri ≢ 0)
is_authorized-true htb none h = cc
is_authorized-true htb (some i) h = (i, refl, ground arith)

module _ (env : Env) (p : ℕ) (frame : NetFrame) (len : ℕ) (gs : Gs) where
  abbrev test : Bool
  test = is_authorized (rx_bucket gs frame) (host_lookup (rx_bucket gs frame) frame.ip_saddr)

  not-Authorized : ¬ Authorized gs frame → test ≡ false
  not-Authorized h = elim (Bool-cases test) [
    | inl e ↦ absurd (h (is_authorized-true (rx_bucket gs frame) _ e))
    | inr e ↦ e
  ]

  -- What a frame of a host that is not authorized comes to.
  not_authorized_open :
      IsFrame frame
      → IsWellFormed frame
      → test ≡ false
      → ntfe_rx env p frame len gs ≡ (elim (rx_rule gs frame) [
        | none ↦ rx_drop p (count p rx_drop_priv_inc gs)
        | some rl ↦
            rx_public p
              (host_fetch_bucket frame.ip_saddr)
              frame.ip_saddr
              (host_lookup (rx_bucket gs frame) frame.ip_saddr)
              rl
              len
              gs
      ])
  not_authorized_open v w e =
      rx_ipv4_open env p frame len gs w ∙ rw e (unauthorized_open env p frame len gs v)

  -- Private traffic, that is a frame for which there is no rule, of a host that is not authorized
  -- is dropped: the two counters of such drops are counted up, and nothing else changes. This
  -- holds for the messages of the authorization protocol too.
  pub ntfe_rx_private :
      IsFrame frame
      → IsWellFormed frame
      → ¬ Authorized gs frame
      → rx_rule gs frame ≡ none
      → ntfe_rx env p frame len gs ≡ (false, count p rx_dropped_inc (count p rx_drop_priv_inc gs))
  unfolding rx_drop
  ntfe_rx_private v w h e = not_authorized_open v w (not-Authorized h) ∙ rw e refl

  none_drops :
      rx_rule gs frame ≡ none
      → (elim (rx_rule gs frame) [
        | none ↦ rx_drop p (count p rx_drop_priv_inc gs)
        | some rl ↦
            rx_public p
              (host_fetch_bucket frame.ip_saddr)
              frame.ip_saddr
              (host_lookup (rx_bucket gs frame) frame.ip_saddr)
              rl
              len
              gs
      ])
        ≡ rx_drop p (count p rx_drop_priv_inc gs)
  none_drops e = rw e refl

  accept-IsWellFormed :
      frame.eth_proto ≡ bswap16 eth_p_ip
      → (ntfe_rx env p frame len gs).0 ≡ true
      → IsWellFormed frame
  unfolding ntfe_rx rx_ipv4 rx_sig rx_malformed rx_drop
  accept-IsWellFormed ip h = ground arith

  rule_of_accept :
      IsFrame frame
      → IsWellFormed frame
      → test ≡ false
      → (ntfe_rx env p frame len gs).0 ≡ true
      → (rl : Rule) × (rx_rule gs frame ≡ some rl)
  unfolding rx_drop
  rule_of_accept v w e h = elim (Option-cases (rx_rule gs frame)) [
    | inl none_found ↦ cc (dropped none_found)
    | inr found ↦ found
  ]
    where
      dropped : rx_rule gs frame ≡ none → false ≡ true
      dropped none_found =
          sym (ap (λ r. r.0) (not_authorized_open v w e ∙ none_drops none_found)) ∙ h

  -- An IPv4 frame passes only if it is not malformed, and its host is authorized or there is a
  -- rule for it.
  pub ntfe_rx_accept :
      IsFrame frame
      → frame.eth_proto ≡ bswap16 eth_p_ip
      → (ntfe_rx env p frame len gs).0 ≡ true
      → IsWellFormed frame × (Authorized gs frame ⊎ ((rl : Rule) × (rx_rule gs frame ≡ some rl)))
  ntfe_rx_accept v ip h =
      let w = accept-IsWellFormed ip h in
      (
        w,
        elim (Bool-cases test) [
          | inl e ↦ inl (is_authorized-true (rx_bucket gs frame) _ e)
          | inr e ↦ inr (rule_of_accept v w e h)
        ],
      )

  -- Without traffic policing a frame for which there is a rule passes, and nothing changes.
  pub ntfe_rx_unpoliced :
      IsFrame frame
      → IsWellFormed frame
      → gs.hpool ≡ false
      → (rl : Rule) → rx_rule gs frame ≡ some rl
      → ntfe_rx env p frame len gs ≡ (true, gs)
  ntfe_rx_unpoliced v w off rl e = elim (Bool-cases test) [
    | inl yes_auth ↦ rx_ipv4_open env p frame len gs w ∙ rw yes_auth refl
    | inr no_auth ↦ not_authorized_open v w no_auth ∙ rw e (public_off _ _)
  ]
    where
      public_off : (b : ℕ) (o : Option ℕ) → rx_public p b frame.ip_saddr o rl len gs ≡ (true, gs)
      public_off b none = unfold rx_public in rw off refl
      public_off b (some i) = unfold rx_public in rw off refl
