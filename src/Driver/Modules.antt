-- ===== src/Driver/Modules.antt =====
-- The lists of modules, and the number of running ones.
use ntfw.Common.{
  ℕ, Bool, true, false, ◌+◌, ◌==◌, ◌≡◌, ◌≢◌, ◌≤◌, ◌⊎◌, inl, inr, arith, refl, sym, ap, ◌∙◌,
}
use ntfw.Common.{
  List, [], ◌∷◌, ◌++◌, update, update_self, update_ne, InList, length, Bool-cases, ==_iff,
}
use ntfw.Driver.{FltModule, is_running, remove}

abbrev pub NoDup : List ℕ → Type 0
NoDup [] = Unit
NoDup (m ∷ ms) = (¬ InList m ms) × NoDup ms

-- A truth value as a number.
abbrev pub bit : Bool → ℕ
bit true = 1
bit false = 0

abbrev pub count_running : (ℕ → FltModule) → List ℕ → ℕ
count_running modules [] = 0
count_running modules (m ∷ ms) = bit (is_running (modules m).state) + count_running modules ms

pub count_running-le :
    (modules : ℕ → FltModule) (ms : List ℕ) → count_running modules ms ≤ length ms
count_running-le modules [] = omega arith
count_running-le modules (m ∷ ms) = ground (arith, count_running-le modules ms)

module _ (modules : ℕ → FltModule) (m : ℕ) (x : FltModule) where
  abbrev changed : ℕ → FltModule
  changed = update modules m x

  pub count_running-other :
      (ms : List ℕ) → ¬ InList m ms → count_running changed ms ≡ count_running modules ms
  count_running-other [] out = refl
  count_running-other (k ∷ ms) out =
      let same = update_ne modules m k x (λ e. out (inl e)) in
      let ih = count_running-other ms (λ i. out (inr i)) in rw (same, ih) refl

  -- The change of one module of the list shows once.
  pub count_running-update :
      (ms : List ℕ)
      → NoDup ms
      → InList m ms
      → count_running changed ms + bit (is_running (modules m).state)
        ≡ count_running modules ms + bit (is_running x.state)
  count_running-update [] apart i = elim i [ ]
  count_running-update (k ∷ ms) apart (inl e) =
      let here : changed k ≡ x = ap changed (sym e) ∙ update_self modules m x in
      let rest = count_running-other ms (λ i. apart.0 (rw e at i)) in
      rw (here, rest, e) (omega arith)
  count_running-update (k ∷ ms) apart (inr i) =
      let there : m ≢ k = λ e. apart.0 (rw e at i) in
      let ih = count_running-update ms apart.1 i in
      rw (update_ne modules m k x there) (omega (arith, ih))

pub InList-snoc : (m c : ℕ) (ms : List ℕ) → InList c (ms ++ m ∷ []) → InList c ms ⊎ (c ≡ m)
InList-snoc m c [] (inl e) = inr e
InList-snoc m c [] (inr i) = elim i [ ]
InList-snoc m c (k ∷ ms) (inl e) = inl (inl e)
InList-snoc m c (k ∷ ms) (inr i) = elim (InList-snoc m c ms i) [
  | inl j ↦ inl (inr j)
  | inr e ↦ inr e
]

pub NoDup-snoc : (m : ℕ) (ms : List ℕ) → NoDup ms → ¬ InList m ms → NoDup (ms ++ m ∷ [])
NoDup-snoc m [] apart out = (λ i. i, tt)
NoDup-snoc m (k ∷ ms) apart out = (
  λ i. elim (InList-snoc m k ms i) [ inl j ↦ apart.0 j | inr e ↦ out (inl (sym e)) ],
  NoDup-snoc m ms apart.1 (λ i. out (inr i)),
)

pub count_running-snoc :
    (modules : ℕ → FltModule) (m : ℕ) (ms : List ℕ)
    → count_running modules (ms ++ m ∷ [])
      ≡ count_running modules ms + bit (is_running (modules m).state)
count_running-snoc modules m [] = omega arith
count_running-snoc modules m (k ∷ ms) = omega (arith, count_running-snoc modules m ms)

pub InList-remove : (m c : ℕ) (ms : List ℕ) → InList c (remove m ms) → InList c ms
InList-remove m c [] i = i
InList-remove m c (k ∷ ms) i = elim (Bool-cases (m == k)) [
  | inl e ↦ inr (rw e at i)
  | inr ne ↦ elim (rw ne at i) [
    | inl here ↦ inl here
    | inr there ↦ inr (InList-remove m c ms there)
  ]
]

pub NoDup-remove :
    (m : ℕ) (ms : List ℕ) → NoDup ms → NoDup (remove m ms) × (¬ InList m (remove m ms))
NoDup-remove m [] apart = (tt, λ i. i)
NoDup-remove m (k ∷ ms) apart = elim (Bool-cases (m == k)) [
  | inl e ↦ rw e (apart.1, λ i. apart.0 (rw ((==_iff m k).0 e) at i))
  | inr ne ↦
      let ih = NoDup-remove m ms apart.1 in
      rw ne (
        (λ i. apart.0 (InList-remove m k ms i), ih.0),
        λ i. elim i [ inl here ↦ cc (sym ne ∙ (==_iff m k).1 here) | inr there ↦ ih.1 there ],
      )
]

module _ (modules : ℕ → FltModule) (m : ℕ) where
  pub count_running-remove :
      (ms : List ℕ)
      → InList m ms
      → (count_running modules (remove m ms) + bit (is_running (modules m).state)
          ≡ count_running modules ms)
        × (length (remove m ms) + 1 ≡ length ms)
  count_running-remove [] i = elim i [ ]
  count_running-remove (k ∷ ms) i = elim (Bool-cases (m == k)) [
    | inl e ↦ rw (e, (==_iff m k).0 e) (omega arith, omega arith)
    | inr ne ↦ elim i [
      | inl here ↦ cc (sym ne ∙ (==_iff m k).1 here)
      | inr there ↦
          let ih = count_running-remove ms there in rw ne (omega (arith, ih.0), omega (arith, ih.1))
    ]
  ]
