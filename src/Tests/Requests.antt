-- ===== src/Tests/Requests.antt =====
-- Tests of the request to restart the engine, and its theorems applied to a driver with a module.
use ntfw.Common.{
  ℕ, Bool, true, false, if◌then◌else◌, inl, List, [], ◌∷◌, All, ◌≡◌, refl, ap, subst, none, some,
  Option,
}
use ntfw.State.{Gs}
use ntfw.Driver.{Driver, driver_entry, filter_attach, attach_locked, set_lock, success}
use ntfw.Driver.{
  filter_pause, filter_restart, pause_body, restart_body, set_module_state, uncount, locked,
  suspend, resume, suspend_body, resume_body, handles,
}
use ntfw.Driver.Invariant.{whole}
use ntfw.Driver.Steps.{Reached, entry, after, attach, pause, restart}
use ntfw.Common.{update}
use ntfw.Driver.{restart_status}
use ntfw.Driver.View.{View, Unresumed, loaded, onward, Unresumed-Reached, completes, view_after}
use ntfw.Driver.Again.{at_once, resume-request_dispatch}
use ntfw.Driver.Steps.{suspend_all, resume_all}
use ntfw.Driver.Waits.{Suspended, begun}
use ntfw.Driver.Load.{FileEnv, status_success, failed, configure_firewall_engine}
use ntfw.Driver.Request.{
  IsNdis, request_dispatch, restart_request, engine_restart, engine_restart_waited,
  request_dispatch-restart, request_dispatch_waits,
}
use ntfw.Tests.{state, empty_bucket}

-- One module, attached; then it runs; then it is paused.
abbrev one_module : Driver
one_module = (attach_locked 7 true driver_entry.free_list (set_lock true driver_entry)).1

abbrev one_running : Driver
one_running = whole (restart_body 0) one_module

abbrev one_paused : Driver
one_paused = whole (pause_body 0) one_running

-- What NDIS runs in each of these states.
abbrev view_module : View
view_module = update (λ _. false) 0 false

abbrev view_running : View
view_running = update view_module 0 true

abbrev view_paused : View
view_paused = update view_running 0 false

one_module-Unresumed : Unresumed one_module view_module
unfolding driver_entry filter_attach attach_locked
one_module-Unresumed =
    onward (attach 7 true 0 (1 ∷ 2 ∷ 3 ∷ 4 ∷ 5 ∷ 6 ∷ 7 ∷ []) success refl refl) loaded refl

one_running-Unresumed : Unresumed one_running view_running
unfolding driver_entry attach_locked filter_restart locked restart_body set_module_state
    restart_status
one_running-Unresumed = onward (restart 0 (inl refl) refl refl) one_module-Unresumed refl

one_paused-Unresumed : Unresumed one_paused view_paused
unfolding driver_entry attach_locked filter_pause locked restart_body pause_body set_module_state
    uncount
one_paused-Unresumed = onward (pause 0 (inl refl) refl) one_running-Unresumed refl

-- Nothing else happens while `Suspend` waits.
abbrev calm : Driver → Option Driver
calm d = if d.suspend_complete_event then some d else none

some_inj : {A : Type 0} {a b : A} → some a ≡ some b → a ≡ b
some_inj {A} {a} {b} e = ap (λ o. elim o as (λ _. A) [ none ↦ a | some x ↦ x ]) e

waited :
    (set : Bool) (d d' : Driver)
    → if◌then◌else◌ {A = Option Driver} set (some d) none ≡ some d'
    → (set ≡ true) × (d ≡ d')
waited true d d' e = (refl, some_inj e)
waited false d d' e = cc

calm-IsNdis : IsNdis calm
calm-IsNdis d d' e =
    let q = waited d.suspend_complete_event d d' e in
    subst (λ x. Suspended d x × (x.suspend_complete_event ≡ true)) q.1 (begun, q.0)

-- a file that cannot be opened
abbrev no_file : FileEnv
no_file = record {
  ndis_read_configuration = status_success;
  zw_open_file = failed 0xC0000034;
  zw_query_information_file = status_success;
  end_of_file = 0;
  ex_allocate_pool = true;
  zw_read_file = status_success;
  file_data = [];
}

abbrev engine : Gs
engine = state empty_bucket

abbrev ended : Driver
ended = whole resume_body (whole suspend_body one_paused)

restarts :
    request_dispatch 0 no_file calm restart_request one_paused engine
    ≡ some (failed 0xC0000034, ended, engine)
unfolding request_dispatch engine_restart engine_restart_waited suspend resume locked suspend_body
    resume_body configure_firewall_engine driver_entry attach_locked restart_body pause_body
    set_module_state uncount handles
restarts = refl

request_dispatch-restart_example :
    ((d2 : Driver) × (v2 : View) × Unresumed d2 v2
      × All (λ m. v2 m ≡ false) d2.module_list
      × ((done : List ℕ) × (resume d2 ≡ some (done, ended))))
    × (configure_firewall_engine 0 no_file engine ≡ (failed 0xC0000034, engine))
    × Reached ended
    × (ended.suspend_signal ≡ false)
request_dispatch-restart_example =
    request_dispatch-restart 0 no_file calm one_paused ended view_paused engine engine
      (failed 0xC0000034) calm-IsNdis one_paused-Unresumed restarts

-- Right after the driver is loaded.
request_dispatch_waits_example :
    request_dispatch 0 no_file calm restart_request driver_entry engine ≡ none
unfolding driver_entry
request_dispatch_waits_example =
    request_dispatch_waits 0 no_file calm driver_entry engine calm-IsNdis entry refl refl

-- The module runs; `Suspend` asks for its restart, and NDIS pauses it and restarts it.
abbrev one_asked : Driver
one_asked = whole suspend_body one_running

abbrev one_stopped : Driver
one_stopped = whole (pause_body 0) one_asked

abbrev one_pending : Driver
one_pending = whole (restart_body 0) one_stopped

one_asked-Reached : Reached one_asked
unfolding driver_entry attach_locked suspend locked restart_body suspend_body set_module_state
    handles
one_asked-Reached =
    after one_running one_asked (Unresumed-Reached one_running view_running one_running-Unresumed)
      (suspend_all (7 ∷ []) refl)

one_stopped-Reached : Reached one_stopped
unfolding driver_entry attach_locked filter_pause locked restart_body pause_body suspend_body
    set_module_state uncount
one_stopped-Reached = after one_asked one_stopped one_asked-Reached (pause 0 (inl refl) refl)

one_pending-Reached : Reached one_pending
unfolding driver_entry attach_locked filter_restart locked restart_body pause_body suspend_body
    set_module_state uncount
one_pending-Reached =
    after one_stopped one_pending one_stopped-Reached (restart 0 (inl refl) refl refl)

pending_up : one_pending.suspend_signal ≡ true
unfolding driver_entry attach_locked restart_body pause_body suspend_body set_module_state uncount
pending_up = refl

pending_set : one_pending.suspend_complete_event ≡ true
unfolding driver_entry attach_locked restart_body pause_body suspend_body set_module_state uncount
pending_set = refl

pending_completes : completes one_pending 0 ≡ true
unfolding driver_entry attach_locked restart_body pause_body suspend_body set_module_state uncount
pending_completes = refl

resumes : resume one_pending ≡ some (7 ∷ [], whole resume_body one_pending)
unfolding driver_entry attach_locked restart_body pause_body suspend_body set_module_state uncount
    resume locked handles resume_body
resumes = refl

resume-request_dispatch_example :
    let d' = whole resume_body one_pending in
    let view : View = view_after (resume_all (7 ∷ []) resumes) view_paused in
    (view 0 ≡ true)
    × ((d1 : Driver) × (s : suspend d' ≡ some ([], d1)) × (view_after (suspend_all [] s) view 0
          ≡ true))
    × ((d2 : Driver) × (request_dispatch 0 no_file at_once restart_request d' engine
          ≡ some (
            (configure_firewall_engine 0 no_file engine).0,
            d2,
            (configure_firewall_engine 0 no_file engine).1,
          )))
resume-request_dispatch_example =
    resume-request_dispatch 0 no_file engine one_pending (whole resume_body one_pending) view_paused
      (7 ∷ []) 0 one_pending-Reached pending_up pending_set pending_completes resumes
