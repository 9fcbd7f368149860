-- ===== src/Search/Bound.antt =====
-- The search by any number of workers, for two rules or more: what is recorded of the size.
use ntfw.Common.{ℕ, zero, suc, ◌==◌, ltb, ◌+◌, ◌≤◌, ◌≡◌, ◌⊎◌}
use ntfw.Common.{inl, inr, arith, refl, sym, ◌∙◌, subst, List, [], ◌∷◌, some, length, u32}
use ntfw.Common.{Bool-cases, update_self, update_ne}
use ntfw.Common.Bits.{bit_and-zero}
use native.Mathlib.Decide.{ℕ_discrete}
use ntfw.Flow.{rule_hashfn}
use ntfw.Rules.{NtfeRule, hash_flowsig, rule_sig}
use ntfw.Rules.Perfect.{NoClash, place}
use ntfw.Search.{Shared, Worker, Search, Event, checking, comparing, drawing, trying, storing}
use ntfw.Search.{finished, works, stop, target_bits, keeps_apart, no_place, worker_step}
use ntfw.Search.{search_step, search_run, new_search, new_workers, find_rule_magic, bsr_below}
use ntfw.Search.Apart.{keeps_apart_iff}
use ntfw.Search.Alone.{find_result-some}

-- A table of no bits has one place.
place_none : (seed : ℕ) (rl : NtfeRule) → place seed 0 rl ≡ 0
unfolding hash_flowsig
place_none seed rl = bit_and-zero (rule_hashfn (rule_sig rl) seed)

some_bits :
    (seed bits : ℕ) (rules : List NtfeRule) → 2 ≤ length rules → NoClash seed bits rules → 1 ≤ bits
some_bits seed bits [] many apart = absurd (omega arith)
some_bits seed bits (x ∷ []) many apart = absurd (omega arith)
some_bits seed zero (x ∷ y ∷ rest) many apart =
    absurd (apart.0.0 (place_none seed x ∙ sym (place_none seed y)))
some_bits seed (suc k) (x ∷ y ∷ rest) many apart = omega arith

module _ (rules : List NtfeRule) (many : 2 ≤ length rules) where
  abbrev Reaches : ℕ → Type 0
  Reaches bits = (1 ≤ bits) × (bits ≤ 7) × ((seed : ℕ) × NoClash seed bits rules)

  abbrev Recorded : ℕ → Type 0
  Recorded bits = (bits ≡ 8) ⊎ Reaches bits

  -- A worker tries no table larger than that of the engine.
  abbrev InTable : Worker → Type 0
  InTable (trying st seed bits) = bits ≤ 7
  InTable _ = Unit

  between : (bits : ℕ) → Recorded bits → (1 ≤ bits) × (bits ≤ 8)
  between bits r = elim r [ inl e ↦ (omega arith, omega arith) | inr f ↦ (f.0, omega (arith, f.1)) ]

  step-InTable :
      (m : Shared) (w : Worker)
      → Recorded m.record_bits
      → InTable w
      → let (m', w') = worker_step rules m w in Recorded m'.record_bits × InTable w'
  unfolding worker_step
  step-InTable m (checking st) r t = elim (Bool-cases m.quit_signal) [
    | inl e ↦ (r, rw e tt)
    | inr e ↦ (r, rw e tt)
  ]
  step-InTable m (comparing st) r t = elim (Bool-cases (ltb (target_bits rules) m.record_bits)) [
    | inl e ↦ (r, rw e tt)
    | inr e ↦ (r, rw e tt)
  ]
  step-InTable m (drawing st) r t = let b = between m.record_bits r in (r, omega (arith, b.0, b.1))
  step-InTable m (trying st seed bits) r t =
      elim (Bool-cases (keeps_apart seed bits no_place rules)) [
        | inr e ↦ rw e (r, tt)
        | inl e ↦
            let apart = (keeps_apart_iff seed bits rules t).0 e in
            elim (Bool-cases (m.record_bits == u32 (bits + 1))) [
              | inl same ↦
                  rw (e, same) (inr (some_bits seed bits rules many apart, t, (seed, apart)), tt)
              | inr other ↦ rw (e, other) (r, tt)
            ]
      ]
  step-InTable m (storing st seed bits) r t = (r, tt)
  step-InTable m finished r t = (r, tt)

  record IsSearch (s : Search) : Type 0 where
    recorded : Recorded s.shared.record_bits
    inside : (i : ℕ) → InTable (s.workers i)

  event-IsSearch : (e : Event) (s : Search) → IsSearch s → IsSearch (search_step rules e s)
  unfolding search_step
  event-IsSearch stop s v = record { recorded = v.recorded; inside = v.inside }
  event-IsSearch (works i) s v =
      let one = step-InTable s.shared (s.workers i) v.recorded (v.inside i) in
      record {
        recorded = one.0;
        inside = λ j. elim (ℕ_discrete i j) [
          | yes e ↦
              rw (← e, update_self s.workers i (worker_step rules s.shared (s.workers i)).1) one.1
          | no ne ↦
              rw (update_ne s.workers i j (worker_step rules s.shared (s.workers i)).1 ne)
                (v.inside j)
        ];
      }

  run-IsSearch : (es : List Event) (s : Search) → IsSearch s → IsSearch (search_run rules es s)
  unfolding search_run
  run-IsSearch [] s v = v
  run-IsSearch (e ∷ es) s v = run-IsSearch es (search_step rules e s) (event-IsSearch e s v)

  new_inside : (ids : List ℕ) (i : ℕ) → InTable (new_workers ids i)
  unfolding new_workers
  new_inside [] i = tt
  new_inside (id ∷ ids) zero = tt
  new_inside (id ∷ ids) (suc i) = new_inside ids i

  new-IsSearch : (ids : List ℕ) → IsSearch (new_search ids)
  unfolding new_search bsr_below
  new-IsSearch ids = record { recorded = inl refl; inside = new_inside ids }

-- With two rules or more, any number of workers and any interleaving, the size returned is
-- between 1 and 7 bits, and some seed keeps the rules apart in a table of that size.
pub find_rule_magic-NoClash :
    (rules : List NtfeRule) (ids : List ℕ) (events : List Event) (seed bits : ℕ)
    → 2 ≤ length rules
    → find_rule_magic rules ids events ≡ some (seed, bits)
    → (1 ≤ bits) × (bits ≤ 7) × ((apart : ℕ) × NoClash apart bits rules)
unfolding find_rule_magic
find_rule_magic-NoClash rules ids events seed bits many found =
    let s = search_run rules events (new_search ids) in
    let r = find_result-some s seed bits found in
    let v = run-IsSearch rules many events (new_search ids) (new-IsSearch rules many ids) in
    elim v.recorded [
      | inl e ↦ absurd (omega (arith, e, r.0))
      | inr f ↦ subst (Reaches rules many) r.2 f
    ]
