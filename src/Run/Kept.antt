-- ===== src/Run/Kept.antt =====
-- The entries of authorized hosts over a sequence of calls.
use ntfw.Common.{ℕ, ◌≡◌, ◌≢◌, ◌≤◌, arith, refl, Bool, List, [], ◌∷◌, All, sym, ◌∙◌}
use ntfw.Common.{inl, inr}
use ntfw.State.{Gs, host_pri_outauth, host_pri_static}
use ntfw.Host.{host_insert, host_fetch_bucket, host_pool_grow}
use ntfw.Host.Slots.{Guarded, key_at, pri_at}
use ntfw.Host.Guard.{
  Guarded-refl, Guarded-trans, Guarded-IsWide, IsWide, host_insert-Guarded,
  host_insert_authorized-Guarded,
}
use ntfw.Engine.{ntfe_rx, ntfe_tx, ntfe_rx_prepare, ntfe_tx_prepare}
use ntfw.Engine.Effect.{Plain, RxEffect, TxEffect, ntfe_rx-effect, ntfe_tx-effect}
use ntfw.Config.{ntfe_init, ntfe_configure}
use ntfw.Config.Slots.{ntfe_configure-Restarted, Listed}
use ntfw.Run.{
  Call, configure, rx_prepare, tx_prepare, rx, tx, call, run, IsCall, IsInside, IsTraffic, started,
}

Plain-Guarded :
    (S : ℕ → Type 0) (gs gs1 gs' : Gs) → Plain gs1 gs' → Guarded S gs gs1 → Guarded S gs gs'
Plain-Guarded S gs gs1 gs' t g b = rw t.table (g b)

module _ (S : ℕ → Type 0) (gs : Gs) (w : IsWide gs) where
  -- A received frame gives no host a priority.
  pub rx-Guarded : (p : ℕ) (r : Bool × Gs) → RxEffect p gs r → Guarded S gs r.1
  rx-Guarded p r (RxEffect.plain t) = Plain-Guarded S gs gs r.1 t (Guarded-refl S gs)
  rx-Guarded p r (RxEffect.inserted b a t) =
      Plain-Guarded S gs (host_insert p b a gs).1 r.1 t (host_insert-Guarded S p b a gs w)

  -- A sent frame gives its destination a priority at most.
  pub tx-Guarded : (p a : ℕ) (gs' : Gs) → S a → TxEffect p a gs gs' → Guarded S gs gs'
  tx-Guarded p a gs' allowed (TxEffect.plain t) = Plain-Guarded S gs gs gs' t (Guarded-refl S gs)
  tx-Guarded p a gs' allowed (TxEffect.authorized t) = Plain-Guarded S gs _ gs' t (
      host_insert_authorized-Guarded S p (host_fetch_bucket a) a host_pri_outauth allowed
        (omega arith) gs w)

abbrev pub Anyone : ℕ → Type 0
Anyone a = Unit

traffic-Guarded : (c : Call) (gs : Gs) → IsTraffic c → IsWide gs → Guarded Anyone gs (call c gs)
unfolding call ntfe_rx_prepare ntfe_tx_prepare
traffic-Guarded (configure p img cfg_len) gs v w = elim v [ ]
traffic-Guarded (rx_prepare p hpc) gs v w = Guarded-refl Anyone gs
traffic-Guarded (tx_prepare p hpc) gs v w = Guarded-refl Anyone gs
traffic-Guarded (rx env p frame len) gs v w =
    rx-Guarded Anyone gs w p (ntfe_rx env p frame len gs) (ntfe_rx-effect env p frame len gs v)
traffic-Guarded (tx p frame) gs v w =
    tx-Guarded Anyone gs w p frame.ip_daddr (ntfe_tx p frame gs) tt (ntfe_tx-effect p frame gs)

pub call-IsWide : (c : Call) (gs : Gs) → IsCall c → IsWide gs → IsWide (call c gs)
unfolding call
call-IsWide (configure p img cfg_len) gs v w =
    let r = ntfe_configure-Restarted p img gs w cfg_len in
    Guarded-IsWide (Listed p img gs w) r.between (ntfe_configure p img cfg_len gs).1 r.loaded
      (λ b. (r.cleared b).wide ∙ w b)
call-IsWide (rx_prepare p hpc) gs v w = unfold ntfe_rx_prepare in w
call-IsWide (tx_prepare p hpc) gs v w = unfold ntfe_rx_prepare ntfe_tx_prepare in w
call-IsWide (rx env p frame len) gs v w =
    Guarded-IsWide Anyone gs (ntfe_rx env p frame len gs).1
      (rx-Guarded Anyone gs w p (ntfe_rx env p frame len gs) (ntfe_rx-effect env p frame len gs v))
      w
call-IsWide (tx p frame) gs v w =
    Guarded-IsWide Anyone gs (ntfe_tx p frame gs)
      (tx-Guarded Anyone gs w p frame.ip_daddr (ntfe_tx p frame gs) tt (ntfe_tx-effect p frame gs))
      w

run-IsWide : (calls : List Call) (gs : Gs) → All IsCall calls → IsWide gs → IsWide (run calls gs)
unfolding run
run-IsWide [] gs v w = w
run-IsWide (c ∷ calls) gs v w = run-IsWide calls (call c gs) v.1 (call-IsWide c gs v.0 w)

run-Guarded :
    (calls : List Call) (gs : Gs)
    → All IsTraffic calls
    → IsWide gs
    → Guarded Anyone gs (run calls gs)
unfolding run
run-Guarded [] gs v w = Guarded-refl Anyone gs
run-Guarded (c ∷ calls) gs v w =
    let one = traffic-Guarded c gs v.0 w in
    Guarded-trans Anyone gs (call c gs) (run calls (call c gs)) one
      (run-Guarded calls (call c gs) v.1 (Guarded-IsWide Anyone gs (call c gs) one w))

pub start-IsWide : (hz : ℕ) → IsWide (started hz)
unfolding ntfe_init host_pool_grow
start-IsWide hz b = refl

-- After any calls, a host that has a priority keeps its entry over any traffic, and its priority
-- is not lowered: traffic evicts no authorized host, however much of it there is. The received
-- frames have fields that fit their widths.
pub run-kept :
    (hz : ℕ) (before traffic : List Call)
    → All IsCall before
    → All IsTraffic traffic
    → let gs = run before (started hz) in
      let gs' = run traffic gs in
      (b j : ℕ)
      → key_at (gs.host_tbl b) j ≢ 0
      → 1 ≤ pri_at (gs.host_tbl b) j
      → (key_at (gs'.host_tbl b) j ≡ key_at (gs.host_tbl b) j)
        × (pri_at (gs.host_tbl b) j ≤ pri_at (gs'.host_tbl b) j)
run-kept hz before traffic v t b =
    let gs = run before (started hz) in
    (run-Guarded traffic gs t (run-IsWide before (started hz) v (start-IsWide hz)) b).kept

-- A restart of the engine, whether it succeeds or not, leaves the hosts that are authorized by
-- traffic as they are: each keeps its entry, and its priority is not lowered. The rules of the
-- image, and of those before it, lie inside the rule table.
pub configure-kept :
    (hz : ℕ) (before : List Call) (p : ℕ) (img : List ℕ) (cfg_len : ℕ)
    → All IsCall before
    → All IsInside (configure p img cfg_len ∷ before)
    → let gs = run before (started hz) in
      let gs' = (ntfe_configure p img cfg_len gs).1 in
      (b j : ℕ)
      → key_at (gs.host_tbl b) j ≢ 0
      → 1 ≤ pri_at (gs.host_tbl b) j
      → pri_at (gs.host_tbl b) j ≢ host_pri_static
      → (key_at (gs'.host_tbl b) j ≡ key_at (gs.host_tbl b) j)
        × (pri_at (gs.host_tbl b) j ≤ pri_at (gs'.host_tbl b) j)
configure-kept hz before p img cfg_len v inside b j used high dynamic =
    let gs = run before (started hz) in
    let w = run-IsWide before (started hz) v (start-IsWide hz) in
    let r = ntfe_configure-Restarted p img gs w cfg_len in
    let pri = (r.cleared b).pris j in
    elim ((r.cleared b).keys j) [
      | inr (gone, static) ↦ absurd (dynamic static)
      | inl same ↦
          let k = (r.loaded b).kept j (λ e. used (sym same ∙ e)) (omega (arith, pri, high)) in
          (k.0 ∙ same, omega (arith, pri, k.1))
    ]
