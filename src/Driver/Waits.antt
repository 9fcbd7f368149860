-- ===== src/Driver/Waits.antt =====
-- The states while `Suspend` waits, and a wait that does not end.
use ntfw.Common.{ℕ, true, false, ◌≡◌, refl, sym, ap, ◌∙◌, List, some}
use ntfw.Driver.{Driver, suspend, suspend_body}
use ntfw.Driver.Invariant.{IsDriver, whole}
use ntfw.Driver.Steps.{
  FilterStep, suspend_all, Reached, Reached-IsDriver, FilterStep-IsDriver, suspend_result,
}
use ntfw.Driver.Quiet.{step_same}

-- Steps that leave the signal up.
pub data Suspended (d : Driver) : Driver → Type 0 where
  begun : Suspended d d
  onward :
      (d1 d2 : Driver)
      → Suspended d d1
      → FilterStep d1 d2
      → d2.suspend_signal ≡ true
      → Suspended d d2

record Waiting (d : Driver) : Type 0 where
  whole_driver : IsDriver d
  up : d.suspend_signal ≡ true
  idle : d.running_module_count ≡ 0
  unset : d.suspend_complete_event ≡ false

Waiting-after : (d d' : Driver) → Suspended d d' → Waiting d → Waiting d'
Waiting-after d d' begun w = w
Waiting-after d d' (onward d1 d2 before step up') w =
    let w1 = Waiting-after d d1 before w in
    let s = step_same d1 d2 step w1.whole_driver w1.up w1.idle up' in
    record {
      whole_driver = FilterStep-IsDriver d1 d2 step w1.whole_driver;
      up = up';
      idle = s.count ∙ w1.idle;
      unset = s.event ∙ w1.unset;
    }

-- A `Suspend` that finds no module running while the event has not been set never returns: as
-- long as the signal stays up, whatever the other handlers do, the event for which it waits is
-- not set.
pub suspend_waits :
    (d d1 d2 : Driver) (asked : List ℕ)
    → Reached d
    → d.running_module_count ≡ 0
    → d.suspend_complete_event ≡ false
    → suspend d ≡ some (asked, d1)
    → Suspended d1 d2
    → d2.suspend_complete_event ≡ false
suspend_waits d d1 d2 asked r nil_count unset e steps = (Waiting-after d1 d2 steps first).unset
  where
    raised : (whole suspend_body d).suspend_signal ≡ true
    raised = unfold suspend_body in refl

    same_count : (whole suspend_body d).running_module_count ≡ 0
    same_count = unfold suspend_body in nil_count

    kept : (whole suspend_body d).suspend_complete_event ≡ false
    kept = unfold suspend_body in rw nil_count unset

    first : Waiting d1
    first =
        let w = Reached-IsDriver d r in
        record {
          whole_driver = FilterStep-IsDriver d d1 (suspend_all asked e) w;
          up = sym (ap (λ x. x.suspend_signal) (suspend_result d d1 asked w e)) ∙ raised;
          idle =
              sym (ap (λ x. x.running_module_count) (suspend_result d d1 asked w e)) ∙ same_count;
          unset = sym (ap (λ x. x.suspend_complete_event) (suspend_result d d1 asked w e)) ∙ kept;
        }
