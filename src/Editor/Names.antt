-- ===== src/Editor/Names.antt =====
-- The names of protocols, and the maps between names and numbers.
use ntfw.Common.{
  length, ◌≤◌, arith, ℕ, Bool, true, false, ◌&&◌, ◌≡◌, ◌==◌, ==_iff, arith, refl, sym, ap, ap₂, ◌∙◌,
  subst, inl, inr,
}
use ntfw.Common.{List, [], ◌∷◌, none, some, All, Bool-cases}
use ntfw.Editor.{Text, same_text, find_text, find_value, lower, is_hex}
use ntfw.Editor.{str_to_l4, str_to_l3, l4_to_str, l3_to_str}

same_text-eq : (s t : Text) → same_text s t ≡ true → s ≡ t
same_text-eq [] [] e = refl
same_text-eq [] (y ∷ t) e = cc
same_text-eq (x ∷ s) [] e = cc
same_text-eq (x ∷ s) (y ∷ t) e =
    let q = both (x == y) (same_text s t) e in
    ap₂ (λ a b. a ∷ b) ((==_iff x y).0 q.0) (same_text-eq s t q.1)
  where
    both : (a b : Bool) → (a && b) ≡ true → (a ≡ true) × (b ≡ true)
    both true b e = (refl, e)
    both false b e = cc

-- What holds of every pair of a map holds of what is found.
pub find_value-All :
    (P : ℕ → Text → Type 0) (l : List (ℕ × Text)) (v : ℕ) (s : Text)
    → All (λ e. P e.0 e.1) l
    → find_value v l ≡ some s
    → P v s
find_value-All P [] v s h e = cc
find_value-All P (p ∷ rest) v s h e = elim (Bool-cases (v == p.0)) [
  | inl here ↦
      let got : some p.1 ≡ some s = sym (first here) ∙ e in
      subst (P v) (some_inj got) (subst (λ x. P x p.1) (sym ((==_iff v p.0).0 here)) h.0)
  | inr there ↦ find_value-All P rest v s h.1 (sym (next there) ∙ e)
]
  where
    first : (v == p.0) ≡ true → find_value v (p ∷ rest) ≡ some p.1
    first q = rw q refl

    next : (v == p.0) ≡ false → find_value v (p ∷ rest) ≡ find_value v rest
    next q = rw q refl

    some_inj : {a b : Text} → some a ≡ some b → a ≡ b
    some_inj {a} q = ap (λ o. elim o as (λ _. Text) [ none ↦ a | some x ↦ x ]) q

abbrev pub all_hex : Text → Bool
all_hex [] = true
all_hex (c ∷ cs) = is_hex c && all_hex cs

-- A text of hexadecimal digits is not a name that has another character.
pub find_text-all_hex :
    (s : Text) (l : List (Text × ℕ))
    → all_hex s ≡ true
    → All (λ e. all_hex e.0 ≡ false) l
    → find_text s l ≡ none
find_text-all_hex s [] h others = refl
find_text-all_hex s (p ∷ rest) h others = elim (Bool-cases (same_text s p.0)) [
  | inl same ↦ absurd (clash (sym h ∙ ap all_hex (same_text-eq s p.0 same) ∙ others.0))
  | inr other ↦ rw other (find_text-all_hex s rest h others.1)
]
  where
    clash : true ≡ false → ⊥
    clash e = cc

pub names_not_hex :
    All (λ e. all_hex e.0 ≡ false) str_to_l4 × All (λ e. all_hex e.0 ≡ false) str_to_l3
names_not_hex = (
  (refl, (refl, (refl, (refl, (refl, (refl, (refl, (refl, (refl, (refl, (refl, tt))))))))))),
  (refl, (refl, (refl, (refl, (refl, (refl, tt)))))),
)

-- The name of a number is not empty and, in lower case, is the name of that number.
abbrev pub IsL4 : ℕ → Text → Type 0
IsL4 v s = (1 ≤ length s) × (find_text (lower s) str_to_l4 ≡ some v)

abbrev pub IsL3 : ℕ → Text → Type 0
IsL3 v s =
    (1 ≤ length s)
    × (find_text (lower s) str_to_l4 ≡ none)
    × (find_text (lower s) str_to_l3 ≡ some v)

All-IsL4 : All (λ e. IsL4 e.0 e.1) l4_to_str
All-IsL4 = (
  (omega arith, refl),
  (
    (omega arith, refl),
    (
      (omega arith, refl),
      (
        (omega arith, refl),
        (
          (omega arith, refl),
          (
            (omega arith, refl),
            (
              (omega arith, refl),
              (
                (omega arith, refl),
                ((omega arith, refl), ((omega arith, refl), ((omega arith, refl), tt))),
              ),
            ),
          ),
        ),
      ),
    ),
  ),
)

All-IsL3 : All (λ e. IsL3 e.0 e.1) l3_to_str
All-IsL3 = (
  (omega arith, refl, refl),
  (
    (omega arith, refl, refl),
    (
      (omega arith, refl, refl),
      ((omega arith, refl, refl), ((omega arith, refl, refl), ((omega arith, refl, refl), tt))),
    ),
  ),
)

pub l4_to_str-IsL4 : (v : ℕ) (s : Text) → find_value v l4_to_str ≡ some s → IsL4 v s
l4_to_str-IsL4 v s e = find_value-All IsL4 l4_to_str v s All-IsL4 e

pub l3_to_str-IsL3 : (v : ℕ) (s : Text) → find_value v l3_to_str ≡ some s → IsL3 v s
l3_to_str-IsL3 v s e = find_value-All IsL3 l3_to_str v s All-IsL3 e
