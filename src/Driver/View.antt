-- ===== src/Driver/View.antt =====
-- Which modules NDIS runs. The driver keeps a state of its own for each module; NDIS runs a module
-- once its restart has succeeded, at once or by `NdisFRestartComplete`, until it is paused.
use ntfw.Common.{ℕ, Bool, true, false, ◌&&◌, ◌||◌, ◌==◌, ◌≡◌, refl, subst}
use ntfw.Common.{if◌then◌else◌, Bool-cases, inl, inr, List, [], ◌∷◌, update}
use native.Mathlib.Decide.{ℕ_discrete}
use ntfw.Common.{update_self, update_ne, ◌≢◌}
use ntfw.Driver.{
  FltModule, paused, attached, detached, restarting, suspended, running, Driver, NdisStatus,
  success, is_running, is_suspended, state_of, driver_entry,
}
use ntfw.Driver.{set_lock, set_module_state, uncount, attach_locked, detach_body, pause_body}
use ntfw.Driver.{restart_body, restart_status, suspend_body}
use ntfw.Driver.{filter_detach, filter_pause, filter_restart}
use ntfw.Driver.Invariant.{IsDriver, whole}
use ntfw.Driver.Steps.{
  FilterStep, attach, detach, pause, restart, suspend_all, resume_all, Reached, entry, after,
  Reached-IsDriver, attach_result, suspend_result, locked_result,
}

abbrev pub View : Type 0
View = ℕ → Bool

abbrev succeeded : NdisStatus → Bool
succeeded success = true
succeeded _ = false

abbrev member : ℕ → List ℕ → Bool
member k [] = false
member k (m ∷ ms) = m == k || member k ms

-- The modules whose restart `Resume` completes.
abbrev pub completes : Driver → ℕ → Bool
completes d k = is_suspended (state_of d k) && member k d.module_list

-- What NDIS runs after a step.
abbrev pub view_after : {d d' : Driver} → FilterStep d d' → View → View
view_after (attach handle attributes m rest st free e) v = update v m false
view_after (detach m i idle e) v = update v m false
view_after (pause m i e) v = update v m false
view_after {d} (restart m i idle e) v = update v m (succeeded (restart_status d))
view_after (suspend_all asked e) v = v
view_after {d} (resume_all done e) v = λ k. if completes d k then true else v k

abbrev pub is_resume : {d d' : Driver} → FilterStep d d' → Bool
is_resume (resume_all done e) = true
is_resume _ = false

-- The states that the driver reaches from its entry before the first `Resume`, with what NDIS
-- runs in them.
pub data Unresumed : Driver → View → Type 0 where
  loaded : Unresumed driver_entry (λ _. false)
  onward :
      {d d' : Driver} {v : View} (step : FilterStep d d')
      → Unresumed d v
      → is_resume step ≡ false
      → Unresumed d' (view_after step v)

pub Unresumed-Reached : (d : Driver) (v : View) → Unresumed d v → Reached d
Unresumed-Reached d v loaded = entry
Unresumed-Reached d v (onward {d = d0} {v = v0} step u other) =
    after d0 d (Unresumed-Reached d0 v0 u) step

-- The states of the driver say what NDIS runs.
abbrev IsTrue : Driver → View → Type 0
IsTrue d v = (k : ℕ) → v k ≡ is_running (state_of d k)

-- One module changes, and NDIS runs it or not as its new state says.
update-IsTrue :
    (f : ℕ → FltModule) (v : View) (m : ℕ) (x : FltModule) (b : Bool)
    → ((k : ℕ) → m ≢ k → v k ≡ is_running (f k).state)
    → b ≡ is_running x.state
    → (k : ℕ) → update v m b k ≡ is_running (update f m x k).state
update-IsTrue f v m x b h e k = elim (ℕ_discrete m k) [
  | yes q ↦ rw (← q, update_self v m b, update_self f m x) e
  | no ne ↦ rw (update_ne v m k b ne, update_ne f m k x ne) (h k ne)
]

-- The same, when the module has changed before.
update_twice-IsTrue :
    (f : ℕ → FltModule) (v : View) (m : ℕ) (x y : FltModule) (b : Bool)
    → ((k : ℕ) → v k ≡ is_running (f k).state)
    → b ≡ is_running y.state
    → (k : ℕ) → update v m b k ≡ is_running (update (update f m x) m y k).state
update_twice-IsTrue f v m x y b h e =
    update-IsTrue (update f m x) v m y b (λ k ne. rw (update_ne f m k x ne) (h k)) e

module _ (d : Driver) (v : View) (h : IsTrue d v) where
  attach-IsTrue :
      (handle : ℕ) (attributes : Bool) (m : ℕ) (rest : List ℕ)
      → IsTrue (attach_locked handle attributes (m ∷ rest) (set_lock true d)).1 (update v m false)
  unfolding attach_locked set_module_state
  attach-IsTrue handle attributes m rest =
      let y = record (d.flt_modules m) { handle = handle } in
      let z = record (update d.flt_modules m y m) { state = attached } in
      update_twice-IsTrue d.flt_modules v m y z false h refl

  detach-IsTrue : (m : ℕ) → IsTrue (whole (detach_body m) d) (update v m false)
  unfolding detach_body set_module_state
  detach-IsTrue m =
      update-IsTrue d.flt_modules v m (record (d.flt_modules m) { state = detached }) false
        (λ k ne. h k) refl

  pause-IsTrue : (m : ℕ) → IsTrue (whole (pause_body m) d) (update v m false)
  unfolding pause_body set_module_state uncount
  pause-IsTrue m k = elim (Bool-cases (is_running (state_of d m))) [
    | inl r ↦ rw r (
        update-IsTrue d.flt_modules v m (record (d.flt_modules m) { state = paused }) false
          (λ j ne. h j) refl k)
    | inr r ↦ rw r (
        update-IsTrue d.flt_modules v m (record (d.flt_modules m) { state = paused }) false
          (λ j ne. h j) refl k)
  ]

  restart-IsTrue :
      (m : ℕ) → IsTrue (whole (restart_body m) d) (update v m (succeeded (restart_status d)))
  unfolding restart_body restart_status set_module_state
  restart-IsTrue m k =
      let y = record (d.flt_modules m) { state = restarting } in
      let old = update d.flt_modules m y m in
      elim (Bool-cases d.suspend_signal) [
        | inl r ↦ rw r (
            update_twice-IsTrue d.flt_modules v m y (record old { state = suspended }) false h refl
              k)
        | inr r ↦
            rw r (
              update_twice-IsTrue d.flt_modules v m y (record old { state = running }) true h refl
                k)
      ]

  suspend-IsTrue : IsTrue (whole suspend_body d) v
  unfolding suspend_body
  suspend-IsTrue k = h k

step-IsTrue :
    (d d' : Driver) (v : View) (step : FilterStep d d')
    → IsDriver d
    → is_resume step ≡ false
    → IsTrue d v
    → IsTrue d' (view_after step v)
step-IsTrue d d' v (attach handle attributes m rest st free e) w other h =
    subst (λ x. IsTrue x (update v m false))
      (attach_result handle attributes m rest st d d' w free e)
      (attach-IsTrue d v h handle attributes m rest)
step-IsTrue d d' v (detach m i idle e) w other h =
    subst (λ x. IsTrue x (update v m false))
      (locked_result (detach_body m) d d' w (unfold filter_detach in e)) (detach-IsTrue d v h m)
step-IsTrue d d' v (pause m i e) w other h =
    subst (λ x. IsTrue x (update v m false))
      (locked_result (pause_body m) d d' w (unfold filter_pause in e)) (pause-IsTrue d v h m)
step-IsTrue d d' v (restart m i idle e) w other h =
    subst (λ x. IsTrue x (update v m (succeeded (restart_status d))))
      (locked_result (restart_body m) d d' w (unfold filter_restart in e)) (restart-IsTrue d v h m)
step-IsTrue d d' v (suspend_all asked e) w other h =
    subst (λ x. IsTrue x v) (suspend_result d d' asked w e) (suspend-IsTrue d v h)
step-IsTrue d d' v (resume_all done e) w other h = cc

entry-IsTrue : IsTrue driver_entry (λ _. false)
unfolding driver_entry
entry-IsTrue k = refl

-- Before the first `Resume`, NDIS runs a module exactly when its state is `Running`.
pub Unresumed-running :
    (d : Driver) (v : View) → Unresumed d v → (k : ℕ) → v k ≡ is_running (state_of d k)
Unresumed-running d v loaded = entry-IsTrue
Unresumed-running d v (onward {d = d0} {v = v0} step u other) =
    step-IsTrue d0 d v0 step (Reached-IsDriver d0 (Unresumed-Reached d0 v0 u)) other
      (Unresumed-running d0 v0 u)
