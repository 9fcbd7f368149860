-- ===== src/Driver/Before.antt =====
-- The wait of the first `Suspend`, before any `Resume`.
use ntfw.Common.{ℕ, true, false, ◌≡◌, refl, sym, ap, ◌∙◌, All, List, [], ◌∷◌}
use ntfw.Driver.{Driver, is_running, state_of, resume_body}
use ntfw.Driver.Invariant.{IsDriver, whole}
use ntfw.Driver.Steps.{suspend_all, resume_all, Reached-IsDriver, resume_result}
use ntfw.Driver.Steps.{FilterStep, attach, detach, pause, restart}
use ntfw.Driver.View.{View, view_after, is_resume, Unresumed, onward}
use ntfw.Driver.View.{Unresumed-Reached, Unresumed-running}
use ntfw.Driver.Waits.{Suspended, begun}

pub Suspended-up :
    (d d' : Driver) → Suspended d d' → d.suspend_signal ≡ true → d'.suspend_signal ≡ true
Suspended-up d d' begun up = up
Suspended-up d d' (Suspended.onward d1 d2 before step up') up = up'

pub lowered : (x : Driver) → (whole resume_body x).suspend_signal ≡ false
unfolding resume_body
lowered x = refl

-- A step that leaves the signal up is no `Resume`.
not_resume :
    (d d' : Driver) (step : FilterStep d d')
    → IsDriver d
    → d'.suspend_signal ≡ true
    → is_resume step ≡ false
not_resume d d' (attach handle attributes m rest st free e) w up = refl
not_resume d d' (detach m i idle e) w up = refl
not_resume d d' (pause m i e) w up = refl
not_resume d d' (restart m i idle e) w up = refl
not_resume d d' (suspend_all asked e) w up = refl
not_resume d d' (resume_all done e) w up =
    let down = sym (ap (λ x. x.suspend_signal) (resume_result d d' done w e)) ∙ lowered d in cc

pub Suspended-Unresumed :
    (d d' : Driver) (v : View) → Suspended d d' → Unresumed d v → (v' : View) × Unresumed d' v'
Suspended-Unresumed d d' v begun u = (v, u)
Suspended-Unresumed d d' v (Suspended.onward d1 d2 before step up') u =
    let (v1, u1) = Suspended-Unresumed d d1 v before u in
    let w = Reached-IsDriver d1 (Unresumed-Reached d1 v1 u1) in
    (view_after step v1, onward step u1 (not_resume d1 d' step w up'))

-- NDIS runs none of the modules whose state is not `Running`.
pub All-idle :
    (ms : List ℕ) (d : Driver) (v : View)
    → Unresumed d v
    → All (λ m. is_running (state_of d m) ≡ false) ms
    → All (λ m. v m ≡ false) ms
All-idle [] d v u h = tt
All-idle (m ∷ ms) d v u h = (Unresumed-running d v u m ∙ h.0, All-idle ms d v u h.1)
