-- ===== src/Driver/Steps.antt =====
-- The invariant of the driver over every sequence of its handlers.
use ntfw.Common.{ℕ, Bool, true, false, ◌==◌, ◌≡◌, arith, refl, sym, ap, ◌∙◌}
use ntfw.Common.{if◌then◌else◌, List, [], ◌∷◌, none, some, InList, subst}
use ntfw.Driver.{Driver, NdisStatus, is_running, state_of, set_lock, locked}
use ntfw.Driver.{attach_locked, filter_attach, detach_body, filter_detach, pause_body}
use ntfw.Driver.{
  filter_pause, restart_body, filter_restart, suspend_body, suspend, resume_body, resume,
  driver_entry,
}
use ntfw.Driver.{handles, is_suspended}
use ntfw.Driver.Invariant.{
  IsDriver, whole, locked_free, pause-IsDriver, restart-IsDriver, attach-IsDriver, detach-IsDriver,
  signalled,
}

-- A step of the driver: a handler that returns, called as NDIS calls it (a running module is
-- neither restarted nor detached), or a request of the user. A module is attached only while one
-- is free.
pub data FilterStep (d d' : Driver) : Type 0 where
  attach :
      (handle : ℕ) (attributes : Bool) (m : ℕ) (rest : List ℕ) (st : NdisStatus)
      → d.free_list ≡ m ∷ rest
      → filter_attach true handle attributes d ≡ some (st, d')
      → FilterStep d d'
  detach :
      (m : ℕ)
      → InList m d.module_list
      → is_running (state_of d m) ≡ false
      → filter_detach m d ≡ some d'
      → FilterStep d d'
  pause : (m : ℕ) → InList m d.module_list → filter_pause m d ≡ some d' → FilterStep d d'
  restart :
      (m : ℕ)
      → InList m d.module_list
      → is_running (state_of d m) ≡ false
      → filter_restart m d ≡ some d'
      → FilterStep d d'
  suspend_all : (asked : List ℕ) → suspend d ≡ some (asked, d') → FilterStep d d'
  resume_all : (done : List ℕ) → resume d ≡ some (done, d') → FilterStep d d'

some_inj : {A : Type 0} {a b : A} → some a ≡ some b → a ≡ b
some_inj {A} {a} {b} e = ap (λ o. elim o as (λ _. A) [ none ↦ a | some x ↦ x ]) e

-- The result of a handler that takes the lock.
pub locked_result :
    (body : Driver → Driver) (d d' : Driver)
    → IsDriver d
    → locked body d ≡ some d'
    → whole body d ≡ d'
locked_result body d d' w e = some_inj (sym (locked_free body d w) ∙ e)

pub attach_result :
    (handle : ℕ) (attributes : Bool) (m : ℕ) (rest : List ℕ) (st : NdisStatus) (d d' : Driver)
    → IsDriver d
    → d.free_list ≡ m ∷ rest
    → filter_attach true handle attributes d ≡ some (st, d')
    → (attach_locked handle attributes (m ∷ rest) (set_lock true d)).1 ≡ d'
unfolding filter_attach
attach_result handle attributes m rest st d d' w free e =
    ap (λ l. (attach_locked handle attributes l (set_lock true d)).1) (sym free)
    ∙ ap (λ r. r.1) (some_inj (sym (opened d w) ∙ e))
  where
    opened :
        (d : Driver)
        → IsDriver d
        → filter_attach true handle attributes d
          ≡ some (attach_locked handle attributes d.free_list (set_lock true d))
    opened d w = rw (filter_attach, w.unlocked) refl

pub suspend_result :
    (d d' : Driver) (asked : List ℕ)
    → IsDriver d
    → suspend d ≡ some (asked, d')
    → whole suspend_body d ≡ d'
unfolding suspend handles suspend_body
suspend_result d d' asked w e = ap (λ r. r.1) (some_inj (sym opened ∙ e))
  where
    opened :
        suspend d
        ≡ some (
          if d.running_module_count == 0
              then []
              else handles is_running d.flt_modules d.module_list,
          whole suspend_body d,
        )
    opened = rw (suspend, locked_free suspend_body d w) refl

pub resume_result :
    (d d' : Driver) (done : List ℕ)
    → IsDriver d
    → resume d ≡ some (done, d')
    → whole resume_body d ≡ d'
unfolding resume handles resume_body
resume_result d d' done w e = ap (λ r. r.1) (some_inj (sym opened ∙ e))
  where
    opened : resume d ≡ some (handles is_suspended d.flt_modules d.module_list, whole resume_body d)
    opened = rw (resume, locked_free resume_body d w) refl

-- Every step of the driver keeps its invariant: the lock is free afterwards, each of the eight
-- modules is attached or free and not both, and the count is that of the attached modules which
-- are running.
pub FilterStep-IsDriver : (d d' : Driver) → FilterStep d d' → IsDriver d → IsDriver d'
FilterStep-IsDriver d d' (attach handle attributes m rest st free e) w =
    subst IsDriver (attach_result handle attributes m rest st d d' w free e)
      (attach-IsDriver handle attributes m rest d w free)
FilterStep-IsDriver d d' (detach m i idle e) w =
    subst IsDriver (locked_result (detach_body m) d d' w (unfold filter_detach in e))
      (detach-IsDriver m d w i idle)
FilterStep-IsDriver d d' (pause m i e) w =
    subst IsDriver (locked_result (pause_body m) d d' w (unfold filter_pause in e))
      (pause-IsDriver d w m i)
FilterStep-IsDriver d d' (restart m i idle e) w =
    subst IsDriver (locked_result (restart_body m) d d' w (unfold filter_restart in e))
      (restart-IsDriver d w m i idle)
FilterStep-IsDriver d d' (suspend_all asked e) w =
    subst IsDriver (suspend_result d d' asked w e) (unfold suspend_body in signalled d true _ w)
FilterStep-IsDriver d d' (resume_all done e) w =
    subst IsDriver (resume_result d d' done w e)
      (unfold resume_body in signalled d false d.suspend_complete_event w)

-- The states that the driver reaches from its entry.
pub data Reached : Driver → Type 0 where
  entry : Reached driver_entry
  after : (d d' : Driver) → Reached d → FilterStep d d' → Reached d'

driver_entry-IsDriver : IsDriver driver_entry
unfolding driver_entry
driver_entry-IsDriver = record {
  unlocked = refl;
  distinct = tt;
  free_distinct = omega arith;
  apart = (λ i. i, (λ i. i, (λ i. i, (λ i. i, (λ i. i, (λ i. i, (λ i. i, (λ i. i, tt))))))));
  counted = refl;
  total = refl;
}

-- In every state that the driver reaches from its entry the lock is free, each of the eight
-- modules is attached or free and not both, and the count is that of the attached modules which
-- are running. NDIS neither restarts nor detaches a running module, and attaches one only while
-- one is free.
pub Reached-IsDriver : (d : Driver) → Reached d → IsDriver d
Reached-IsDriver d entry = driver_entry-IsDriver
Reached-IsDriver d (after d0 d1 r step) = FilterStep-IsDriver d0 d1 step (Reached-IsDriver d0 r)
