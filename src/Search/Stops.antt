-- ===== src/Search/Stops.antt =====
-- The end of the search: how many steps a worker still takes once it is told to stop.
use ntfw.Common.{ℕ, suc, true, ◌==◌, ◌+◌, ◌-◌, ◌≤◌, ◌≡◌, arith, refl, sym, inl, inr}
use ntfw.Common.{List, [], ◌∷◌, if◌then◌else◌, Bool-cases, update, update_self, update_ne, u32}
use native.Mathlib.Decide.{ℕ_discrete}
use ntfw.Rules.{NtfeRule}
use ntfw.Search.{Shared, Worker, Search, Event, checking, comparing, drawing, trying, storing}
use ntfw.Search.{finished, works, stop, keeps_apart, no_place, worker_step, search_step}
use ntfw.Search.{search_run}

-- The steps that are left to a worker when the signal is given.
abbrev pub steps_left : Worker → ℕ
steps_left (checking st) = 1
steps_left (comparing st) = 5
steps_left (drawing st) = 4
steps_left (trying st seed bits) = 3
steps_left (storing st seed bits) = 2
steps_left finished = 0

-- How often a worker goes on in a sequence of events.
abbrev pub turns : ℕ → List Event → ℕ
turns i [] = 0
turns i (works j ∷ es) = if i == j then suc (turns i es) else turns i es
turns i (stop ∷ es) = turns i es

turns-cons :
    (i : ℕ) (e : Event) (es : List Event) → turns i (e ∷ es) ≡ turns i (e ∷ []) + turns i es
turns-cons i stop es = omega arith
turns-cons i (works j) es = ground arith

moved :
    (i j : ℕ) (ws : ℕ → Worker) (w : Worker)
    → steps_left w ≤ steps_left (ws j) - 1
    → steps_left (update ws j w i) ≤ steps_left (ws i) - turns i (works j ∷ [])
moved i j ws w h = elim (ℕ_discrete i j) [
  | yes e ↦ own e
  | no ne ↦ rw (update_ne ws j i w (λ e. ne (sym e))) (ground (arith, ne))
]
  where
    own : i ≡ j → steps_left (update ws j w i) ≤ steps_left (ws i) - turns i (works j ∷ [])
    own e = rw (e, update_self ws j w) (ground arith)

module _ (rules : List NtfeRule) where
  step-steps_left :
      (m : Shared) (w : Worker)
      → m.quit_signal ≡ true
      → let (m', w') = worker_step rules m w in
        (m'.quit_signal ≡ true) × (steps_left w' ≤ steps_left w - 1)
  unfolding worker_step
  step-steps_left m (checking st) quit = (quit, rw quit (omega arith))
  step-steps_left m (comparing st) quit = (quit, ground arith)
  step-steps_left m (drawing st) quit = (quit, omega arith)
  step-steps_left m (trying st seed bits) quit =
      elim (Bool-cases (keeps_apart seed bits no_place rules)) [
        | inr e ↦ rw e (quit, omega arith)
        | inl e ↦ rw e (elim (Bool-cases (m.record_bits == u32 (bits + 1))) [
          | inl same ↦ rw same (quit, omega arith)
          | inr other ↦ rw other (quit, omega arith)
        ])
      ]
  step-steps_left m (storing st seed bits) quit = (quit, omega arith)
  step-steps_left m finished quit = (quit, omega arith)

  module _ (i : ℕ) where
    event-steps_left :
        (e : Event) (s : Search)
        → s.shared.quit_signal ≡ true
        → let s' = search_step rules e s in
          (s'.shared.quit_signal ≡ true)
          × (steps_left (s'.workers i) ≤ steps_left (s.workers i) - turns i (e ∷ []))
    unfolding search_step
    event-steps_left stop s quit = (refl, omega arith)
    event-steps_left (works j) s quit =
        let one = step-steps_left s.shared (s.workers j) quit in
        (one.0, moved i j s.workers _ one.1)

    run-steps_left :
        (es : List Event) (s : Search)
        → s.shared.quit_signal ≡ true
        → steps_left ((search_run rules es s).workers i) ≤ steps_left (s.workers i) - turns i es
    unfolding search_run
    run-steps_left [] s quit = omega arith
    run-steps_left (e ∷ es) s quit =
        let one = event-steps_left e s quit in
        let more = run-steps_left es (search_step rules e s) one.0 in
        omega (arith, turns-cons i e es, one.1)

finished_of_none_left : (w : Worker) → steps_left w ≡ 0 → w ≡ finished
finished_of_none_left (checking st) e = absurd (omega arith)
finished_of_none_left (comparing st) e = absurd (omega arith)
finished_of_none_left (drawing st) e = absurd (omega arith)
finished_of_none_left (trying st seed bits) e = absurd (omega arith)
finished_of_none_left (storing st seed bits) e = absurd (omega arith)
finished_of_none_left finished e = refl

five : (w : Worker) → steps_left w ≤ 5
five (checking st) = omega arith
five (comparing st) = omega arith
five (drawing st) = omega arith
five (trying st seed bits) = omega arith
five (storing st seed bits) = omega arith
five finished = omega arith

-- Once the signal to stop is given, a worker that goes on five times has finished, however the
-- steps of the other workers stand between its own and whatever they record.
pub search_run_stops :
    (rules : List NtfeRule) (s : Search) (i : ℕ) (events : List Event)
    → s.shared.quit_signal ≡ true
    → 5 ≤ turns i events
    → (search_run rules events s).workers i ≡ finished
search_run_stops rules s i events quit enough =
    finished_of_none_left _
      (omega (arith, run-steps_left rules i events s quit, five (s.workers i)))
