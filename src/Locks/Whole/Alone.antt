-- ===== src/Locks/Whole/Alone.antt =====
-- At most one processor has the lock of a whole word.
use ntfw.Common.{ℕ, Bool, true, false, ◌≡◌, ◌≢◌, ◌⊎◌, inl, inr, refl, sym, ◌∙◌, subst, arith}
use ntfw.Common.{if◌then◌else◌, update, update_self, update_ne, ◌==◌, Bool-cases}
use native.Mathlib.Decide.{ℕ_discrete}
use ntfw.Locks.Whole.{Caller, Access, WordLock, Reached2, outside, exchanging, spinning, owning}
use ntfw.Locks.Whole.{spin_acquire2, exchange, look, let_go, start, later}

abbrev pub Owns : Caller → Type 0
Owns owning = Unit
Owns _ = ⊥

-- One processor at most has the lock, and none while the word is zero.
record IsAlone (word : ℕ) (callers : ℕ → Caller) : Type 0 where
  one : (i j : ℕ) → Owns (callers i) → Owns (callers j) → i ≡ j
  zero_free : word ≡ 0 → (i : ℕ) → ¬ Owns (callers i)

module _ (callers : ℕ → Caller) (i : ℕ) (c' : Caller) where
  -- Who has the lock after a move is the one that moved, or had it before.
  owner_cases :
      (j : ℕ) → Owns (update callers i c' j) → ((i ≡ j) × Owns c') ⊎ ((i ≢ j) × Owns (callers j))
  owner_cases j h = elim (ℕ_discrete i j) [
    | yes e ↦ inl (
      e,
      subst Owns (update_self callers i c') (subst (λ k. Owns (update callers i c' k)) (sym e) h),
    )
    | no ne ↦ inr (ne, subst Owns (update_ne callers i j c' ne) h)
  ]

  -- A move after which the processor does not have the lock.
  without :
      (word word' : ℕ)
      → IsAlone word callers
      → ¬ Owns c'
      → (word' ≡ 0 → (j : ℕ) → i ≢ j → ¬ Owns (callers j))
      → IsAlone word' (update callers i c')
  without word word' v own free = record {
    one = λ j k hj hk. elim (owner_cases j hj) [
      | inl (e, o) ↦ absurd (own o)
      | inr (ne, o) ↦ elim (owner_cases k hk) [
        | inl (e', o') ↦ absurd (own o')
        | inr (ne', o') ↦ v.one j k o o'
      ]
    ];
    zero_free =
        λ z j hj. elim (owner_cases j hj) [ inl (e, o) ↦ own o | inr (ne, o) ↦ free z j ne o ];
  }

-- A move to the lock, which was free.
with_lock :
    (callers : ℕ → Caller) (i word : ℕ)
    → word ≡ 0
    → IsAlone word callers
    → IsAlone 1 (update callers i owning)
with_lock callers i word z v = record {
  one = λ j k hj hk. sym (here j hj) ∙ here k hk;
  zero_free = λ h. omega arith;
}
  where
    here : (j : ℕ) → Owns (update callers i owning j) → i ≡ j
    here j hj = elim (owner_cases callers i owning j hj) [
      | inl (e, o) ↦ e
      | inr (ne, o) ↦ absurd (v.zero_free z j o)
    ]

access-IsAlone :
    (callers : ℕ → Caller) (i : ℕ) (word word' : ℕ) (c c' : Caller)
    → callers i ≡ c
    → Access word c word' c'
    → IsAlone word callers
    → IsAlone word' (update callers i c')
access-IsAlone callers i word word' c c' e (spin_acquire2 _) v =
    without callers i exchanging word word v (λ h. h) λ z j ne. v.zero_free z j
access-IsAlone callers i word word' c c' e (exchange _) v = elim (Bool-cases (word == 0)) [
  | inl free ↦ rw free (with_lock callers i word (ground arith) v)
  | inr taken ↦ rw taken (without callers i spinning word 1 v (λ h. h) λ z j ne. omega arith)
]
access-IsAlone callers i word word' c c' e (look _) v =
    without callers i _ word word v (away (word == 0)) λ z j ne. v.zero_free z j
  where
    away : (b : Bool) → ¬ Owns (if b then exchanging else spinning)
    away true h = h
    away false h = h
access-IsAlone callers i word word' c c' e (let_go _) v =
    without callers i outside word 0 v (λ h. h) λ z j ne o. ne (v.one i j (rw e tt) o)

Reached2-IsAlone : (s : WordLock) → Reached2 s → IsAlone s.word s.callers
Reached2-IsAlone s start = record { one = λ i j h. absurd h; zero_free = λ z i h. h }
Reached2-IsAlone s (later {s = s0} i word' c' r a) =
    access-IsAlone s0.callers i s0.word word' (s0.callers i) c' refl a (Reached2-IsAlone s0 r)

-- However the calls of `spin_acquire2` of any number of processors interleave, with a zero
-- written by whoever has the lock and lets it go: two processors that have the lock are the same,
-- and none has it while the word is zero.
pub Reached2-alone :
    (s : WordLock)
    → Reached2 s
    → ((i j : ℕ) → Owns (s.callers i) → Owns (s.callers j) → i ≡ j)
      × (s.word ≡ 0 → (i : ℕ) → ¬ Owns (s.callers i))
Reached2-alone s r = let v = Reached2-IsAlone s r in (v.one, v.zero_free)
