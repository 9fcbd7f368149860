-- ===== src/Driver/Again.antt =====
-- A second restart of the engine: the modules whose restart `Resume` has completed run for NDIS,
-- and are not `Running` for the driver.
use ntfw.Common.{ℕ, true, ◌≡◌, refl, sym, ap, ◌∙◌, List, [], Option, none, some}
use ntfw.Common.{if◌then◌else◌}
use ntfw.State.{Gs}
use ntfw.Driver.{Driver, resume, resume_body, suspend, suspend_body, locked}
use ntfw.Driver.Invariant.{IsDriver, whole, locked_free}
use ntfw.Driver.Steps.{Reached, Reached-IsDriver, FilterStep-IsDriver}
use ntfw.Driver.Steps.{suspend_all, resume_all, resume_result}
use ntfw.Driver.Quiet.{Reached-Quiet}
use ntfw.Driver.View.{View, view_after, completes}
use ntfw.Driver.Load.{FileEnv, configure_firewall_engine}
use ntfw.Driver.Request.{request_dispatch, restart_request, engine_restart, engine_restart_waited}

-- The wait ends at once when the event is set, and nothing else happens during it.
abbrev pub at_once : Driver → Option Driver
at_once d = if d.suspend_complete_event then some d else none

module _ (d : Driver) (w : IsDriver d) (idle : d.running_module_count ≡ 0)
    (set : d.suspend_complete_event ≡ true) where
  -- A suspension without a counted module, and a resumption.
  suspended_idle : suspend d ≡ some ([], whole suspend_body d)
  unfolding suspend
  suspended_idle = rw (suspend, locked_free suspend_body d w, idle) refl

  still_set : (whole suspend_body d).suspend_complete_event ≡ true
  unfolding suspend_body
  still_set = rw idle set

  restarted :
      (p : ℕ) (env : FileEnv) (gs : Gs)
      → (d2 : Driver) × (request_dispatch p env at_once restart_request d gs
          ≡ some
              ((configure_firewall_engine p env gs).0, d2, (configure_firewall_engine p env gs).1))
  unfolding request_dispatch engine_restart engine_restart_waited resume locked
  restarted p env gs = (
    whole resume_body (whole suspend_body d),
    rw (engine_restart, suspended_idle, still_set) refl,
  )

resumed_same :
    (d : Driver)
    → ((whole resume_body d).running_module_count ≡ d.running_module_count)
      × ((whole resume_body d).suspend_complete_event ≡ d.suspend_complete_event)
unfolding resume_body
resumed_same d = (refl, refl)

-- After a restart of the engine, the next one configures it while NDIS runs modules. Let the
-- engine have been configured, with the signal up and the event set as the wait of `Suspend` leaves
-- them, and `Resume` complete the restart of a module. From then on NDIS runs this module, and a
-- second restart, in which no handler needs to do anything, returns: its `Suspend` asks for the
-- restart of no module and does not wait, NDIS runs the module still, and the status and the state
-- of the engine are those of `ConfigureFirewallEngine`.
pub resume-request_dispatch :
    (p : ℕ) (env : FileEnv) (gs : Gs) (d d' : Driver) (v : View) (ended : List ℕ) (m : ℕ)
    → Reached d
    → d.suspend_signal ≡ true
    → d.suspend_complete_event ≡ true
    → completes d m ≡ true
    → (e : resume d ≡ some (ended, d'))
    → let view : View = view_after (resume_all ended e) v in
      (view m ≡ true)
      × ((d1 : Driver) × (s : suspend d' ≡ some ([], d1)) × (view_after (suspend_all [] s) view m
            ≡ true))
      × ((d2 : Driver) × (request_dispatch p env at_once restart_request d' gs
            ≡ some (
              (configure_firewall_engine p env gs).0,
              d2,
              (configure_firewall_engine p env gs).1,
            )))
resume-request_dispatch p env gs d d' v ended m r up set completed e =
    let w = Reached-IsDriver d r in
    let w' = FilterStep-IsDriver d d' (resume_all ended e) w in
    let same = resume_result d d' ended w e in
    let kept = resumed_same d in
    let idle : d'.running_module_count ≡ 0 =
      sym (ap (λ x. x.running_module_count) same) ∙ kept.0 ∙ Reached-Quiet d r up set in
    let set' : d'.suspend_complete_event ≡ true =
      sym (ap (λ x. x.suspend_complete_event) same) ∙ kept.1 ∙ set in
    let runs : (if completes d m then true else v m) ≡ true = rw completed refl in
    (
      runs,
      (whole suspend_body d', suspended_idle d' w' idle set', runs),
      restarted d' w' idle set' p env gs,
    )
