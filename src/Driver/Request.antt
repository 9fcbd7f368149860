-- ===== src/Driver/Request.antt =====
-- ntfwkm/driver.cpp: `RequestDispatch`, the request of the user to restart the engine.
use ntfw.Common.{ℕ, Bool, true, false, not, ◌≡◌, leb, if◌then◌else◌, refl, sym, ap, ◌∙◌}
use ntfw.Common.{Option, none, some, All, Option-cases, inl, inr, List}
use ntfw.State.{Gs}
use ntfw.Driver.{Driver, suspend, suspend_body, resume}
use ntfw.Driver.Invariant.{IsDriver, whole}
use ntfw.Driver.Steps.{suspend_all, resume_all, Reached, after, Reached-IsDriver}
use ntfw.Driver.Steps.{suspend_result, resume_result}
use ntfw.Driver.Quiet.{Reached-none_running}
use ntfw.Driver.View.{View, Unresumed, onward}
use ntfw.Driver.View.{Unresumed-Reached}
use ntfw.Driver.Before.{Suspended-up, Suspended-Unresumed, All-idle, lowered}
use ntfw.Driver.Waits.{Suspended, suspend_waits}
use ntfw.Driver.Load.{
  NtStatus, FileEnv, status_success, status_internal_error, failed, configure_firewall_engine,
}

-- What is read of the request, and the level at which it comes.
pub record Request : Type 0 where
  pub device_control : Bool
  pub irql : ℕ
  pub engine_restart : Bool

abbrev pub dispatch_level : ℕ
dispatch_level = 2

-- `STATUS_INVALID_DEVICE_REQUEST`
abbrev pub status_invalid_device_request : NtStatus
status_invalid_device_request = failed 0xC0000010

-- `ndis` is what the other handlers do to the driver while `Suspend` waits; it is `none` when the
-- event for which it waits is never set. The request then has no result.
module _ (p : ℕ) (env : FileEnv) (ndis : Driver → Option Driver) where
  -- The three calls for a restart, from the state that `Suspend` leaves when it begins to wait.
  unfoldable pub engine_restart_waited : Option Driver → Gs → Option (NtStatus × Driver × Gs)
  engine_restart_waited none gs = none
  engine_restart_waited (some d) gs =
      let (status, gs') = configure_firewall_engine p env gs in
      elim (resume d) [ none ↦ none | some (ended, d') ↦ some (status, d', gs') ]

  unfoldable pub engine_restart : Driver → Gs → Option (NtStatus × Driver × Gs)
  engine_restart d gs = elim (suspend d) [
    | none ↦ none
    | some (asked, d1) ↦ engine_restart_waited (ndis d1) gs
  ]

  unfoldable pub request_dispatch : Request → Driver → Gs → Option (NtStatus × Driver × Gs)
  request_dispatch rq d gs =
      if not rq.device_control
      then some (status_success, d, gs)
      else if leb dispatch_level rq.irql
      then some (status_internal_error, d, gs)
      else if rq.engine_restart
      then engine_restart d gs
      else some (status_invalid_device_request, d, gs)

-- A request to restart the engine, below dispatch level.
abbrev pub restart_request : Request
restart_request = record { device_control = true; irql = 0; engine_restart = true }

-- What NDIS and the wait guarantee: the other handlers take steps that leave the signal up, and the
-- wait ends with the event set.
abbrev pub IsNdis : (Driver → Option Driver) → Type 0
IsNdis ndis =
    (d d' : Driver) → ndis d ≡ some d' → Suspended d d' × (d'.suspend_complete_event ≡ true)

some_inj : {A : Type 0} {a b : A} → some a ≡ some b → a ≡ b
some_inj {A} {a} {b} e = ap (λ o. elim o as (λ _. A) [ none ↦ a | some x ↦ x ]) e

suspend_up :
    (d d1 : Driver) (asked : List ℕ)
    → IsDriver d
    → suspend d ≡ some (asked, d1)
    → d1.suspend_signal ≡ true
suspend_up d d1 asked w e =
    sym (ap (λ x. x.suspend_signal) (suspend_result d d1 asked w e)) ∙ raised
  where
    raised : (whole suspend_body d).suspend_signal ≡ true
    raised = unfold suspend_body in refl

module _ (p : ℕ) (env : FileEnv) (ndis : Driver → Option Driver) where
  -- A restart that returns has gone through the three calls.
  restart_calls :
      (d d' : Driver) (gs gs' : Gs) (status : NtStatus)
      → engine_restart p env ndis d gs ≡ some (status, d', gs')
      → (d1 : Driver) × (asked : List ℕ) × (d2 : Driver) × (ended : List ℕ) × (suspend d
          ≡ some (asked, d1))
        × (ndis d1 ≡ some d2)
        × (resume d2 ≡ some (ended, d'))
        × (configure_firewall_engine p env gs ≡ (status, gs'))
  unfolding engine_restart engine_restart_waited
  restart_calls d d' gs gs' status e = elim (Option-cases (suspend d)) [
    | inl n ↦ cc (rw (engine_restart, n) at e)
    | inr ((asked, d1), s) ↦ elim (Option-cases (ndis d1)) [
      | inl n ↦ cc (rw (engine_restart, s, n) at e)
      | inr (d2, q) ↦ elim (Option-cases (resume d2)) [
        | inl n ↦ cc (rw (engine_restart, s, q, engine_restart_waited, n) at e)
        | inr ((ended, d3), r) ↦
            let got : (
              (configure_firewall_engine p env gs).0,
              d3,
              (configure_firewall_engine p env gs).1,
            )
                ≡ (status, d', gs') =
              some_inj (rw (engine_restart, s, q, engine_restart_waited, r) at e) in
            (
              d1,
              asked,
              d2,
              ended,
              s,
              q,
              r ∙ ap (λ t. some (ended, t.1)) got,
              ap (λ t. (t.0, t.2)) got,
            )
      ]
    ]
  ]

  dispatch_restart :
      (d : Driver) (gs : Gs)
      → request_dispatch p env ndis restart_request d gs ≡ engine_restart p env ndis d gs
  unfolding request_dispatch
  dispatch_restart d gs = refl

  -- A restart of the engine that returns, before which no `Resume` has been called, has configured
  -- it between `Suspend` and `Resume`, in a state in which NDIS ran none of the attached modules:
  -- the status and the state of the engine are those of `ConfigureFirewallEngine`, and the driver
  -- is left in a state that it can reach, with the signal down. The other handlers are assumed to
  -- leave the signal up while `Suspend` waits, and the wait to end only with the event set.
  pub request_dispatch-restart :
      (d d' : Driver) (v : View) (gs gs' : Gs) (status : NtStatus)
      → IsNdis ndis
      → Unresumed d v
      → request_dispatch p env ndis restart_request d gs ≡ some (status, d', gs')
      → ((d2 : Driver) × (v2 : View) × Unresumed d2 v2
          × All (λ m. v2 m ≡ false) d2.module_list
          × ((ended : List ℕ) × (resume d2 ≡ some (ended, d'))))
        × (configure_firewall_engine p env gs ≡ (status, gs'))
        × Reached d'
        × (d'.suspend_signal ≡ false)
  request_dispatch-restart d d' v gs gs' status obeys u e =
      let (d1, asked, d2, ended, s, q, done, applied) =
        restart_calls d d' gs gs' status (sym (dispatch_restart d gs) ∙ e) in
      let w = Reached-IsDriver d (Unresumed-Reached d v u) in
      let waited = obeys d1 d2 q in
      let up = suspend_up d d1 asked w s in
      let (v2, u2) = Suspended-Unresumed d1 d2 v waited.0 (onward (suspend_all asked s) u refl) in
      let r2 = Unresumed-Reached d2 v2 u2 in
      let quiet = Reached-none_running d2 r2 (Suspended-up d1 d2 waited.0 up) waited.1 in
      (
        (d2, v2, u2, All-idle d2.module_list d2 v2 u2 quiet.0, (ended, done)),
        applied,
        after d2 d' r2 (resume_all ended done),
        sym (ap (λ x. x.suspend_signal) (resume_result d2 d' ended (Reached-IsDriver d2 r2) done))
            ∙ lowered d2,
      )

  -- A restart of the engine while no module runs and none has ever been paused never returns,
  -- whatever the other handlers do: `Suspend` waits for an event that only the pause of a running
  -- module sets.
  pub request_dispatch_waits :
      (d : Driver) (gs : Gs)
      → IsNdis ndis
      → Reached d
      → d.running_module_count ≡ 0
      → d.suspend_complete_event ≡ false
      → request_dispatch p env ndis restart_request d gs ≡ none
  request_dispatch_waits d gs v r zero_count unset =
      dispatch_restart d gs ∙ elim (Option-cases (engine_restart p env ndis d gs)) [
        | inl n ↦ n
        | inr ((status, d', gs'), e) ↦
            let (d1, asked, d2, ended, s, q, done, applied) = restart_calls d d' gs gs' status e in
            let waited = v d1 d2 q in
            let still = suspend_waits d d1 d2 asked r zero_count unset s waited.0 in
            cc (sym waited.1 ∙ still)
      ]
