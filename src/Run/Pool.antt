-- ===== src/Run/Pool.antt =====
-- The pool of host states over a sequence of calls.
use ntfw.Common.{
  ℕ, ◌+◌, ◌^◌, ◌≡◌, ◌<◌, ◌≤◌, arith, refl, ap, get_or-replicate, Bool, List, [], ◌∷◌, length, All,
}
use ntfw.State.{Gs, ctrl_at, zero_ctrl}
use ntfw.Host.{host_insert, host_fetch_bucket, host_pool_grow}
use ntfw.State.{host_pri_outauth}
use ntfw.Host.Pool.{PoolFits, host_insert-PoolFits}
use ntfw.Host.Commit.{
  Tame, Tame-trans, Tame-PoolFits, host_insert-size, host_insert_authorized-Tame,
}
use ntfw.Engine.{ntfe_rx, ntfe_tx, ntfe_rx_prepare, ntfe_tx_prepare}
use ntfw.Engine.Effect.{Plain, RxEffect, TxEffect, ntfe_rx-effect, ntfe_tx-effect}
use ntfw.Config.{ntfe_init}
use ntfw.Config.Pool.{ntfe_init-PoolFits, ntfe_configure-Tame}
use ntfw.Run.{
  Call, configure, rx_prepare, tx_prepare, rx, tx, call, run, IsCall, IsInside, started, zero_gs,
}

-- What one call does: the pool fits, and one state is taken at most.
record Advanced (gs gs' : Gs) : Type 0 where
  pub fits : PoolFits gs'
  pub taken : gs'.hp_size ≤ gs.hp_size + 1

Plain-Tame : (gs gs' : Gs) → Plain gs gs' → Tame gs gs'
Plain-Tame gs gs' t = record {
  size = t.size;
  true_size = t.true_size;
  ptrs = λ n h old b i. rw t.table (old b i);
}

module _ (gs : Gs) (fits : PoolFits gs) (few : gs.hp_size < 2 ^ 31) where
  Tame-Advanced : (gs' : Gs) → Tame gs gs' → Advanced gs gs'
  Tame-Advanced gs' t = record { fits = Tame-PoolFits gs gs' t fits; taken = omega (arith, t.size) }

  rx-Advanced : (p : ℕ) (r : Bool × Gs) → RxEffect p gs r → Advanced gs r.1
  rx-Advanced p r (RxEffect.plain t) = Tame-Advanced r.1 (Plain-Tame gs r.1 t)
  rx-Advanced p r (RxEffect.inserted b a t) =
      let left = (host_insert p b a gs).1 in
      record {
        fits =
            Tame-PoolFits left r.1 (Plain-Tame left r.1 t) (host_insert-PoolFits p b a gs fits few);
        taken = omega (arith, t.size, host_insert-size p b a gs);
      }

  tx-Advanced : (p a : ℕ) (gs' : Gs) → TxEffect p a gs gs' → Advanced gs gs'
  tx-Advanced p a gs' (TxEffect.plain t) = Tame-Advanced gs' (Plain-Tame gs gs' t)
  tx-Advanced p a gs' (TxEffect.authorized t) = Tame-Advanced gs' (
      Tame-trans gs _ gs'
        (host_insert_authorized-Tame p (host_fetch_bucket a) a host_pri_outauth gs)
        (Plain-Tame _ gs' t))

  call-Advanced : (c : Call) → IsCall c → Advanced gs (call c gs)
  unfolding call ntfe_rx_prepare ntfe_tx_prepare
  call-Advanced (configure p img cfg_len) v = Tame-Advanced _ (ntfe_configure-Tame p img cfg_len gs)
  call-Advanced (rx_prepare p hpc) v =
      Tame-Advanced _ (record { size = refl; true_size = refl; ptrs = λ n h old. old })
  call-Advanced (tx_prepare p hpc) v =
      Tame-Advanced _ (record { size = refl; true_size = refl; ptrs = λ n h old. old })
  call-Advanced (rx env p frame len) v =
      rx-Advanced p (ntfe_rx env p frame len gs) (ntfe_rx-effect env p frame len gs v)
  call-Advanced (tx p frame) v =
      tx-Advanced p frame.ip_daddr (ntfe_tx p frame gs) (ntfe_tx-effect p frame gs)

run_fits :
    (calls : List Call) (gs : Gs)
    → All IsCall calls
    → PoolFits gs
    → gs.hp_size + length calls < 2 ^ 31
    → PoolFits (run calls gs)
unfolding run
run_fits [] gs v fits few = fits
run_fits (c ∷ calls) gs v fits few =
    let one = call-Advanced gs fits (omega arith) c v.0 in
    run_fits calls (call c gs) v.1 one.fits (omega (arith, one.taken, few))

start_fits : (hz : ℕ) → PoolFits (started hz)
start_fits hz =
    ntfe_init-PoolFits hz zero_gs refl refl
      (λ b i. ap (λ c. c.ptr) (get_or-replicate 8 i zero_ctrl))

start_size : (hz : ℕ) → (started hz).hp_size ≡ 0
unfolding ntfe_init host_pool_grow
start_size hz = refl

-- Over any sequence of fewer than 2^31 calls after the start of the engine, restarts included, the
-- index of a host state that any entry of the table holds is inside the part of the pool that is
-- committed. The received frames have fields that fit their widths, and the rules of each image
-- lie inside the rule table.
pub run-PoolFits :
    (hz : ℕ) (calls : List Call)
    → All IsCall calls
    → All IsInside calls
    → length calls < 2 ^ 31
    → (b i : ℕ)
    → (ctrl_at ((run calls (started hz)).host_tbl b) i).ptr < (run calls (started hz)).hp_true_sz
run-PoolFits hz calls v inside few =
    (run_fits calls (started hz) v (start_fits hz) (omega (arith, start_size hz))).inside
