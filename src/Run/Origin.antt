-- ===== src/Run/Origin.antt =====
-- Where the priorities in the table come from.
use ntfw.Common.{ℕ, ◌≡◌, ◌≢◌, ◌≤◌, arith, refl, sym, subst, ◌∙◌, ◌⊎◌, inl, inr}
use ntfw.Common.{List, [], ◌∷◌, All, InList, get_or-replicate, ap}
use ntfw.State.{Gs, zero_ctrl}
use ntfw.Host.{host_pool_grow}
use ntfw.Host.Slots.{Guarded, key_at, pri_at}
use ntfw.Host.Guard.{IsWide}
use ntfw.Engine.{ntfe_rx, ntfe_tx, ntfe_rx_prepare, ntfe_tx_prepare}
use ntfw.Engine.Effect.{ntfe_rx-effect, ntfe_tx-effect}
use ntfw.Config.{ntfe_init, ntfe_config, config_hosts, ntfe_configure}
use ntfw.Config.Slots.{ntfe_configure-Restarted, Restarted, Listed}
use ntfw.Run.{Call, configure, rx_prepare, tx_prepare, rx, tx, call, run, IsCall, IsInside, started}
use ntfw.Run.Kept.{rx-Guarded, tx-Guarded, call-IsWide, start-IsWide}

-- The hosts that one call names for an authorization: the destination of a sent frame, and the
-- hosts that an image lists.
abbrev pub Names : Call → ℕ → Type 0
Names (configure p img cfg_len) a = InList a (config_hosts (ntfe_config img))
Names (rx_prepare p hpc) a = ⊥
Names (tx_prepare p hpc) a = ⊥
Names (rx env p frame len) a = ⊥
Names (tx p frame) a = frame.ip_daddr ≡ a

abbrev pub Named : List Call → ℕ → Type 0
Named [] a = ⊥
Named (c ∷ calls) a = Names c a ⊎ Named calls a

-- A priority is new for a host of `S`, or it was there before.
Traced : (ℕ → Type 0) → Gs → Gs → Type 0
Traced S gs gs' =
    (b j : ℕ)
    → key_at (gs'.host_tbl b) j ≢ 0
    → 1 ≤ pri_at (gs'.host_tbl b) j
    → S (key_at (gs'.host_tbl b) j)
      ⊎ ((key_at (gs.host_tbl b) j ≡ key_at (gs'.host_tbl b) j)
          × (pri_at (gs.host_tbl b) j ≡ pri_at (gs'.host_tbl b) j))

Guarded-Traced : (S : ℕ → Type 0) (gs gs' : Gs) → Guarded S gs gs' → Traced S gs gs'
unfolding Traced
Guarded-Traced S gs gs' g b j used high = (g b).origin j used high

Restarted-Traced : (S : ℕ → Type 0) (gs gs' : Gs) → Restarted S gs gs' → Traced S gs gs'
unfolding Traced
Restarted-Traced S gs gs' r b j used high = elim ((r.loaded b).origin j used high) [
  | inl s ↦ inl s
  | inr (key, same) ↦ elim ((r.cleared b).keys j) [
    | inl old ↦ inr (sym old ∙ key, sym ((r.cleared b).pris j) ∙ same)
    | inr (gone, static) ↦ absurd (used (sym key ∙ gone))
  ]
]

call-Traced : (c : Call) (gs : Gs) → IsCall c → IsWide gs → Traced (Names c) gs (call c gs)
unfolding call ntfe_rx_prepare ntfe_tx_prepare Traced
call-Traced (configure p img cfg_len) gs v w b j used high =
    Restarted-Traced (Listed p img gs w) gs (ntfe_configure p img cfg_len gs).1
      (ntfe_configure-Restarted p img gs w cfg_len) b j used high
call-Traced (rx_prepare p hpc) gs v w b j used high = inr (refl, refl)
call-Traced (tx_prepare p hpc) gs v w b j used high = inr (refl, refl)
call-Traced (rx env p frame len) gs v w b j used high =
    let no_one = Names (rx env p frame len) in
    Guarded-Traced no_one gs (ntfe_rx env p frame len gs).1
      (rx-Guarded no_one gs w p (ntfe_rx env p frame len gs) (ntfe_rx-effect env p frame len gs v))
      b j used high
call-Traced (tx p frame) gs v w b j used high =
    let dest = Names (tx p frame) in
    Guarded-Traced dest gs (ntfe_tx p frame gs)
      (tx-Guarded dest gs w p frame.ip_daddr (ntfe_tx p frame gs) refl (ntfe_tx-effect p frame gs))
      b j used high

run-Traced :
    (calls : List Call) (gs : Gs)
    → All IsCall calls
    → IsWide gs
    → Traced (Named calls) gs (run calls gs)
unfolding run Traced
run-Traced [] gs v w b j used high = inr (refl, refl)
run-Traced (c ∷ calls) gs v w b j used high =
    elim (run-Traced calls (call c gs) v.1 (call-IsWide c gs v.0 w) b j used high) [
      | inl later ↦ inl (inr later)
      | inr (key, same) ↦
          elim (call-Traced c gs v.0 w b j (λ e. used (sym key ∙ e)) (omega (arith, same, high))) [
            | inl now ↦ inl (inl (subst (Names c) key now))
            | inr (key', same') ↦ inr (key' ∙ key, same' ∙ same)
          ]
    ]

start_pri : (hz b j : ℕ) → pri_at ((started hz).host_tbl b) j ≡ 0
unfolding ntfe_init host_pool_grow
start_pri hz b j = ap (λ c. c.pri) (get_or-replicate 8 j zero_ctrl)

-- After any sequence of calls, restarts included, a host that has a priority was the destination
-- of a sent frame or was listed by an image: receiving never authorizes, not even the messages
-- made for it. The received frames have fields that fit their widths, and the rules of each image
-- lie inside the rule table.
pub run-origin :
    (hz : ℕ) (calls : List Call)
    → All IsCall calls
    → All IsInside calls
    → let gs = run calls (started hz) in
      (b j : ℕ)
      → key_at (gs.host_tbl b) j ≢ 0
      → 1 ≤ pri_at (gs.host_tbl b) j
      → Named calls (key_at (gs.host_tbl b) j)
unfolding Traced
run-origin hz calls v inside b j used high =
    elim (run-Traced calls (started hz) v (start-IsWide hz) b j used high) [
      | inl named ↦ named
      | inr (key, same) ↦ absurd (omega (arith, same, start_pri hz b j, high))
    ]
