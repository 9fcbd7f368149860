-- ===== src/Search/Alone.antt =====
-- The search by one worker: the record is a seed together with the bits it was tested for.
use ntfw.Common.{ℕ, zero, suc, true, ◌==◌, ltb, ◌+◌, ◌^◌, ◌≤◌, ◌<◌, ◌≡◌, ◌⊎◌}
use ntfw.Common.{inl, inr, arith, refl, ◌∙◌, subst, List, [], ◌∷◌, Option, none, some, All, u32}
use ntfw.Common.{if◌then◌else◌, Bool-cases, update_self, update_ne}
use native.Mathlib.Decide.{ℕ_discrete}
use ntfw.Rules.{NtfeRule, load_rules, zero_table}
use ntfw.Rules.Load.{IsRule}
use ntfw.Rules.Perfect.{NoClash, load_rules_iff}
use ntfw.Search.{Shared, Worker, Search, Event, checking, comparing, drawing, trying, storing}
use ntfw.Search.{finished, works, stop, target_bits, keeps_apart, no_place, worker_step}
use ntfw.Search.{
  search_step, search_run, new_search, new_workers, find_result, find_rule_magic, bsr_below,
}
use ntfw.Search.Apart.{keeps_apart_iff}

if_some :
    (b sd seed bits : ℕ)
    → if◌then◌else◌ {A = Option (ℕ × ℕ)} (ltb 7 b) none (some (sd, b)) ≡ some (seed, bits)
    → (b ≤ 7) × (sd ≡ seed) × (b ≡ bits)
if_some b sd seed bits e = ground arith

-- What is returned is what is recorded, and it has at most 7 bits.
pub find_result-some :
    (s : Search) (seed bits : ℕ)
    → find_result s ≡ some (seed, bits)
    → (s.shared.record_bits ≤ 7) × (s.shared.record_seed ≡ seed) × (s.shared.record_bits ≡ bits)
unfolding find_result bsr_below
find_result-some s seed bits e = if_some s.shared.record_bits s.shared.record_seed seed bits e

module _ (rules : List NtfeRule) where
  -- Bits between the target and 7, and a seed that keeps the rules apart in so small a table.
  abbrev pub Fits : ℕ → ℕ → Type 0
  Fits seed bits =
      (target_bits rules ≤ bits) × (bits ≤ 7) × NoClash seed bits rules × (seed < 2 ^ 32)

  -- Nothing is recorded yet, or a seed that fits.
  abbrev Recorded : Shared → Type 0
  Recorded m = (m.record_bits ≡ 8) ⊎ Fits m.record_seed m.record_bits

  -- What holds while the only worker is at a place of its loop.
  abbrev IsAlone : Shared → Worker → Type 0
  IsAlone m (drawing st) = Recorded m × (target_bits rules < m.record_bits)
  IsAlone m (trying st seed bits) =
      Recorded m
      × (target_bits rules < m.record_bits)
      × (bits + 1 ≡ m.record_bits)
      × (seed < 2 ^ 32)
  IsAlone m (storing st seed bits) = Fits seed m.record_bits
  IsAlone m _ = Recorded m

  at_most_8 : (m : Shared) → Recorded m → m.record_bits ≤ 8
  at_most_8 m r = elim r [ inl e ↦ omega arith | inr f ↦ omega (arith, f.1) ]

  step-IsAlone :
      (m : Shared) (w : Worker)
      → IsAlone m w
      → let (m', w') = worker_step rules m w in IsAlone m' w'
  unfolding worker_step
  step-IsAlone m (checking st) h = elim (Bool-cases m.quit_signal) [
    | inl e ↦ rw e h
    | inr e ↦ rw e h
  ]
  step-IsAlone m (comparing st) h = elim (Bool-cases (ltb (target_bits rules) m.record_bits)) [
    | inl e ↦ rw e (h, ground arith)
    | inr e ↦ rw e h
  ]
  step-IsAlone m (drawing st) h = (h.0, h.1, omega (arith, at_most_8 m h.0, h.1), omega arith)
  step-IsAlone m (trying st seed bits) h =
      elim (Bool-cases (keeps_apart seed bits no_place rules)) [
        | inr e ↦ rw e h.0
        | inl e ↦
            let top = at_most_8 m h.0 in
            let apart = (keeps_apart_iff seed bits rules (omega arith)).0 e in
            elim (Bool-cases (m.record_bits == u32 (bits + 1))) [
              | inl same ↦ rw (e, same) (omega arith, omega arith, apart, h.3)
              | inr other ↦ rw (e, other) h.0
            ]
      ]
  step-IsAlone m (storing st seed bits) h = inr h
  step-IsAlone m finished h = h

  -- The search with one worker.
  record IsSearch (s : Search) : Type 0 where
    own : IsAlone s.shared (s.workers 0)
    others : (i : ℕ) → s.workers (suc i) ≡ finished

  stop-IsAlone :
      (m : Shared) (w : Worker) → IsAlone m w → IsAlone (record m { quit_signal = true }) w
  stop-IsAlone m (checking st) h = h
  stop-IsAlone m (comparing st) h = h
  stop-IsAlone m (drawing st) h = h
  stop-IsAlone m (trying st seed bits) h = h
  stop-IsAlone m (storing st seed bits) h = h
  stop-IsAlone m finished h = h

  idle : (m : Shared) → worker_step rules m finished ≡ (m, finished)
  unfolding worker_step
  idle m = refl

  event-IsSearch : (e : Event) (s : Search) → IsSearch s → IsSearch (search_step rules e s)
  unfolding search_step
  event-IsSearch stop s v = record {
    own = stop-IsAlone s.shared (s.workers 0) v.own;
    others = v.others;
  }
  event-IsSearch (works zero) s v = record {
    own = step-IsAlone s.shared (s.workers 0) v.own;
    others = λ i. update_ne s.workers 0 (suc i) _ (λ e. omega arith) ∙ v.others i;
  }
  event-IsSearch (works (suc i)) s v =
      rw (v.others i, idle s.shared)
        (record {
          own = rw (update_ne s.workers (suc i) 0 finished (λ e. omega arith)) v.own;
          others = λ j. elim (ℕ_discrete i j) [
            | yes e ↦ rw (e, update_self s.workers (suc j) finished) refl
            | no ne ↦
                update_ne s.workers (suc i) (suc j) finished (λ e. ne (omega arith)) ∙ v.others j
          ];
        })

  run-IsSearch : (es : List Event) (s : Search) → IsSearch s → IsSearch (search_run rules es s)
  unfolding search_run
  run-IsSearch [] s v = v
  run-IsSearch (e ∷ es) s v = run-IsSearch es (search_step rules e s) (event-IsSearch e s v)

  new-IsSearch : (id : ℕ) → IsSearch (new_search (id ∷ []))
  unfolding new_search new_workers bsr_below
  new-IsSearch id = record { own = inl refl; others = λ i. refl }

  result-Fits :
      (s : Search) (seed bits : ℕ)
      → IsSearch s
      → s.workers 0 ≡ finished
      → find_result s ≡ some (seed, bits)
      → Fits seed bits
  result-Fits s seed bits v done found =
      let r = find_result-some s seed bits found in
      let got : Recorded s.shared = subst (IsAlone s.shared) done v.own in
      elim got [
        | inl e ↦ absurd (omega (arith, e, r.0))
        | inr f ↦ subst (λ x. Fits x bits) r.1 (subst (Fits s.shared.record_seed) r.2 f)
      ]

-- What is returned when the only worker has finished.
pub find_rule_magic-Fits :
    (rules : List NtfeRule) (id : ℕ) (events : List Event) (seed bits : ℕ)
    → (search_run rules events (new_search (id ∷ []))).workers 0 ≡ finished
    → find_rule_magic rules (id ∷ []) events ≡ some (seed, bits)
    → Fits rules seed bits
unfolding find_rule_magic
find_rule_magic-Fits rules id events seed bits done found =
    let v' = run-IsSearch rules events (new_search (id ∷ [])) (new-IsSearch rules id) in
    result-Fits rules _ seed bits v' done found

-- Whatever one worker and the signal to stop do, when the worker has finished and a seed and a
-- size are returned, the rules load into an empty table with that seed and that size, and the
-- size is between the target and 7 bits.
pub find_rule_magic-load_rules :
    (rules : List NtfeRule) (id : ℕ) (events : List Event) (seed bits : ℕ)
    → All IsRule rules
    → (search_run rules events (new_search (id ∷ []))).workers 0 ≡ finished
    → find_rule_magic rules (id ∷ []) events ≡ some (seed, bits)
    → ((load_rules zero_table rules seed bits).0 ≡ true) × (target_bits rules ≤ bits) × (bits ≤ 7)
find_rule_magic-load_rules rules id events seed bits v done found =
    let f = find_rule_magic-Fits rules id events seed bits done found in
    ((load_rules_iff rules seed bits (omega (arith, f.0)) v).1 f.2, f.0, f.1)
