-- ===== src/Driver/Quiet.antt =====
-- The wait of `Suspend`: what holds when it ends.
use ntfw.Common.{ℕ, Bool, true, false, ◌==◌, ◌≤◌, ◌≡◌, arith, refl, sym, ap, ◌∙◌, subst}
use ntfw.Common.{if◌then◌else◌, Bool-cases, List, [], ◌∷◌, All, InList, inl, inr, sub32}
use ntfw.Driver.{Driver, FltModule, is_running, state_of, set_lock, driver_entry}
use ntfw.Driver.{attach_locked, detach_body, pause_body, restart_body, suspend_body, resume_body}
use ntfw.Driver.{set_module_state, uncount, filter_detach, filter_pause, filter_restart}
use ntfw.Driver.Modules.{count_running, bit}
use ntfw.Driver.Invariant.{IsDriver, whole, counts}
use ntfw.Driver.Steps.{
  FilterStep, attach, detach, pause, restart, suspend_all, resume_all, Reached, entry, after,
  Reached-IsDriver, FilterStep-IsDriver, attach_result, suspend_result, resume_result,
  locked_result,
}

-- While the signal is up and the event is set, no module is counted.
abbrev pub Quiet : Driver → Type 0
Quiet d = d.suspend_signal ≡ true → d.suspend_complete_event ≡ true → d.running_module_count ≡ 0

-- The three variables of the wait are as they were.
pub record SameWait (d d' : Driver) : Type 0 where
  pub signal : d'.suspend_signal ≡ d.suspend_signal
  pub event : d'.suspend_complete_event ≡ d.suspend_complete_event
  pub count : d'.running_module_count ≡ d.running_module_count

Quiet-same : (d d' : Driver) → SameWait d d' → Quiet d → Quiet d'
Quiet-same d d' s q up set = s.count ∙ q (sym s.signal ∙ up) (sym s.event ∙ set)

module _ (d : Driver) where
  attach_same :
      (handle : ℕ) (attributes : Bool) (m : ℕ) (rest : List ℕ)
      → SameWait d (attach_locked handle attributes (m ∷ rest) (set_lock true d)).1
  unfolding attach_locked set_module_state
  attach_same handle attributes m rest = record { signal = refl; event = refl; count = refl }

  detach_same : (m : ℕ) → SameWait d (whole (detach_body m) d)
  unfolding detach_body set_module_state
  detach_same m = record { signal = refl; event = refl; count = refl }

  -- A module that does not run is paused.
  pause_same : (m : ℕ) → is_running (state_of d m) ≡ false → SameWait d (whole (pause_body m) d)
  unfolding pause_body set_module_state
  pause_same m idle = record { signal = rw idle refl; event = rw idle refl; count = rw idle refl }

  restart_same : (m : ℕ) → d.suspend_signal ≡ true → SameWait d (whole (restart_body m) d)
  unfolding restart_body set_module_state
  restart_same m up = record { signal = rw up refl; event = rw up refl; count = rw up refl }

  suspend_same :
      d.suspend_signal ≡ true → d.running_module_count ≡ 0 → SameWait d (whole suspend_body d)
  unfolding suspend_body
  suspend_same up nil_count = record { signal = sym up; event = rw nil_count refl; count = refl }

  -- With the signal up and no module counted, a step that leaves the signal up changes nothing of
  -- the wait.
  pub step_same :
      (d' : Driver)
      → FilterStep d d'
      → IsDriver d
      → d.suspend_signal ≡ true
      → d.running_module_count ≡ 0
      → d'.suspend_signal ≡ true
      → SameWait d d'
  step_same d' (attach handle attributes m rest st free e) w up nil_count up' =
      subst (SameWait d) (attach_result handle attributes m rest st d d' w free e)
        (attach_same handle attributes m rest)
  step_same d' (detach m i idle e) w up nil_count up' =
      subst (SameWait d) (locked_result (detach_body m) d d' w (unfold filter_detach in e))
        (detach_same m)
  step_same d' (pause m i e) w up nil_count up' =
      subst (SameWait d) (locked_result (pause_body m) d d' w (unfold filter_pause in e))
        (pause_same m (idle (counts d w m i)))
    where
      idle :
          (bit (is_running (state_of d m)) ≤ d.running_module_count) × (d.running_module_count ≤ 8)
          → is_running (state_of d m) ≡ false
      idle c = ground arith
  step_same d' (restart m i idle e) w up nil_count up' =
      subst (SameWait d) (locked_result (restart_body m) d d' w (unfold filter_restart in e))
        (restart_same m up)
  step_same d' (suspend_all asked e) w up nil_count up' =
      subst (SameWait d) (suspend_result d d' asked w e) (suspend_same up nil_count)
  step_same d' (resume_all ended e) w up nil_count up' =
      absurd (lowered (ap (λ x. x.suspend_signal) (resume_result d d' ended w e)))
    where
      lowered : (whole resume_body d).suspend_signal ≡ d'.suspend_signal → ⊥
      lowered q = unfold resume_body in cc

  -- A running module is paused.
  pause_runs :
      (m : ℕ)
      → is_running (state_of d m) ≡ true
      → let d' = whole (pause_body m) d in
        let left = sub32 d.running_module_count 1 in
        (d'.suspend_signal ≡ d.suspend_signal)
        × (d'.suspend_complete_event ≡ (if left == 0 then true else d.suspend_complete_event))
        × (d'.running_module_count ≡ left)
  unfolding pause_body set_module_state uncount
  pause_runs m runs = (rw runs refl, rw runs refl, rw runs refl)

  pause-Quiet :
      (m : ℕ) → IsDriver d → InList m d.module_list → Quiet d → Quiet (whole (pause_body m) d)
  pause-Quiet m w i q = elim (Bool-cases (is_running (state_of d m))) [
    | inr idle ↦ Quiet-same d (whole (pause_body m) d) (pause_same m idle) q
    | inl runs ↦
        let p = pause_runs m runs in
        let c = counts d w m i in
        λ up set.
          p.2
          ∙ last_one d.running_module_count (sub32 d.running_module_count 1)
              d.suspend_complete_event (rw runs at c.0) (q (sym p.0 ∙ up)) (sym p.1 ∙ set)
  ]
    where
      last_one :
          (n left : ℕ) (event : Bool)
          → 1 ≤ n
          → (event ≡ true → n ≡ 0)
          → (if left == 0 then true else event) ≡ true
          → left ≡ 0
      last_one n left event some_left q set = ground arith

  suspend-Quiet : Quiet (whole suspend_body d)
  unfolding suspend_body
  suspend-Quiet up set = ground arith

  restart_down :
      (m : ℕ) → d.suspend_signal ≡ false → (whole (restart_body m) d).suspend_signal ≡ false
  unfolding restart_body set_module_state
  restart_down m down = rw down refl

  restart-Quiet : (m : ℕ) → Quiet d → Quiet (whole (restart_body m) d)
  restart-Quiet m q = elim (Bool-cases d.suspend_signal) [
    | inl up ↦ Quiet-same d (whole (restart_body m) d) (restart_same m up) q
    | inr down ↦ λ up set. cc (sym (restart_down m down) ∙ up)
  ]

  resume-Quiet : Quiet (whole resume_body d)
  unfolding resume_body
  resume-Quiet up set = cc

  step-Quiet : (d' : Driver) → FilterStep d d' → IsDriver d → Quiet d → Quiet d'
  step-Quiet d' (attach handle attributes m rest st free e) w q =
      subst Quiet (attach_result handle attributes m rest st d d' w free e)
        (Quiet-same d _ (attach_same handle attributes m rest) q)
  step-Quiet d' (detach m i idle e) w q =
      subst Quiet (locked_result (detach_body m) d d' w (unfold filter_detach in e))
        (Quiet-same d _ (detach_same m) q)
  step-Quiet d' (pause m i e) w q =
      subst Quiet (locked_result (pause_body m) d d' w (unfold filter_pause in e))
        (pause-Quiet m w i q)
  step-Quiet d' (restart m i idle e) w q =
      subst Quiet (locked_result (restart_body m) d d' w (unfold filter_restart in e))
        (restart-Quiet m q)
  step-Quiet d' (suspend_all asked e) w q =
      subst Quiet (suspend_result d d' asked w e) suspend-Quiet
  step-Quiet d' (resume_all ended e) w q = subst Quiet (resume_result d d' ended w e) resume-Quiet

pub Reached-Quiet : (d : Driver) → Reached d → Quiet d
Reached-Quiet d entry = λ up set. unfold driver_entry in refl
Reached-Quiet d (after d0 d1 r step) =
    step-Quiet d0 d1 step (Reached-IsDriver d0 r) (Reached-Quiet d0 r)

none_running :
    (modules : ℕ → FltModule) (ms : List ℕ)
    → count_running modules ms ≡ 0
    → All (λ m. is_running (modules m).state ≡ false) ms
none_running modules [] e = tt
none_running modules (m ∷ ms) e = (ground arith, none_running modules ms (omega (arith, e)))

-- When the wait of `Suspend` ends, nothing runs: in every state that the driver reaches with the
-- signal up and the event set, none of the attached modules is running, and this holds after every
-- further step that leaves the signal up.
pub Reached-none_running :
    (d : Driver)
    → Reached d
    → d.suspend_signal ≡ true
    → d.suspend_complete_event ≡ true
    → All (λ m. is_running (state_of d m) ≡ false) d.module_list
      × ((d' : Driver)
          → FilterStep d d'
          → d'.suspend_signal ≡ true
          → (d'.suspend_complete_event ≡ true)
            × All (λ m. is_running (state_of d' m) ≡ false) d'.module_list)
Reached-none_running d r up set =
    let w = Reached-IsDriver d r in
    let nil_count = Reached-Quiet d r up set in
    (
      none_running d.flt_modules d.module_list (sym w.counted ∙ nil_count),
      λ d' step up'.
          let s = step_same d d' step w up nil_count up' in
          let w' = FilterStep-IsDriver d d' step w in
          (
            s.event ∙ set,
            none_running d'.flt_modules d'.module_list (sym w'.counted ∙ s.count ∙ nil_count),
          ),
    )
