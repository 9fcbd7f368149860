-- ===== src/Editor/Hex.antt =====
-- Hexadecimal numbers: what is printed reads back.
use ntfw.Common.{ℕ, zero, suc, true, false, ◌+◌, ◌*◌, ◌/◌, ◌%◌, ◌^◌}
use ntfw.Common.{
  ◌<◌, ◌≤◌, ◌≡◌, arith, refl, sym, ap, ap₂, ◌∙◌, ltb, ◌==◌, if◌then◌else◌, Bool-cases,
}
use ntfw.Common.{[], ◌∷◌, ◌++◌, length, length-append, some, bit_and, bit_or, inl, inr}
use native.Mathlib.Nat.{pow-suc}
use ntfw.Common.Bits.{
  or_digit_set, or_digit_clear, or_digit, bit_or-div, bit_or_step, bit_and_mask, bit_and_high,
}
use ntfw.Editor.{Text, upper_digit, hex_text, lower, union, is_hex, read_hex}
use ntfw.Editor.Names.{all_hex}

-- The value that the loop gives to a character.
abbrev hex_value : ℕ → ℕ
hex_value c = if bit_and c 0x40 == 0 then bit_and c 0x0f else bit_and c 0x0f + 9

layer : (c : ℕ) → bit_and c 0x40 ≡ bit_and (c / 64) 1 * 64
layer c = bit_and_high 6 c 1

nibble : (c : ℕ) → bit_and c 0x0f ≡ c % 16
nibble c = bit_and_mask 4 c

unit_bit : (c : ℕ) → bit_and c 1 ≡ c % 2
unit_bit c = bit_and_mask 1 c

lower_upper : (d : ℕ) → d < 16 → bit_or (upper_digit d) 0x20 ≡ (if ltb d 10 then 48 + d else 87 + d)
lower_upper d h = elim (Bool-cases (ltb d 10)) [
  | inl e ↦ rw e (or_digit_set 5 (48 + d) (ground arith))
  | inr e ↦ rw e (or_digit_clear 5 (55 + d) (ground arith) ∙ omega arith)
]

-- A digit that is printed, turned to lower case.
lower_digit :
    (d : ℕ) → d < 16 → let c = bit_or (upper_digit d) 0x20 in (is_hex c ≡ true) × (hex_value c ≡ d)
lower_digit d h = rw (lower_upper d h) (elim (Bool-cases (ltb d 10)) [
  | inl e ↦
      rw e (ground arith, ground (arith, layer (48 + d), nibble (48 + d), unit_bit ((48 + d) / 64)))
  | inr e ↦
      rw e (ground arith, ground (arith, layer (87 + d), nibble (87 + d), unit_bit ((87 + d) / 64)))
])

read_hex-next :
    (k e c d : ℕ) (ys : Text)
    → k ≤ 4
    → is_hex c ≡ true
    → hex_value c ≡ d
    → d < 16
    → e * 16 + d < 2 ^ 16
    → read_hex k e (c ∷ ys) ≡ read_hex (k + 1) (e * 16 + d) ys
unfolding read_hex
read_hex-next k e c d ys few hex value small fits =
    rw (hex, value, not_full) (ap₂ (λ a b. read_hex a b ys) (omega arith) (omega arith))
  where
    not_full : ltb 4 k ≡ false
    not_full = ground arith

read_hex-digit :
    (k e d : ℕ) (ys : Text)
    → k ≤ 4
    → d < 16
    → e * 16 + d < 2 ^ 16
    → read_hex k e (bit_or (upper_digit d) 0x20 ∷ ys) ≡ read_hex (k + 1) (e * 16 + d) ys
read_hex-digit k e d ys few small fits =
    let q = lower_digit d small in
    read_hex-next k e (bit_or (upper_digit d) 0x20) d ys few q.0 q.1 small fits

lower-append : (s t : Text) → lower (s ++ t) ≡ lower s ++ lower t
lower-append [] t = refl
lower-append (c ∷ s) t = ap (λ u. bit_or c 0x20 ∷ u) (lower-append s t)

append_assoc : (s t u : Text) → (s ++ t) ++ u ≡ s ++ (t ++ u)
append_assoc [] t u = refl
append_assoc (c ∷ s) t u = ap (λ x. c ∷ x) (append_assoc s t u)

split :
    (s : Text) (d : ℕ) (ys : Text)
    → lower (s ++ upper_digit d ∷ []) ++ ys ≡ lower s ++ bit_or (upper_digit d) 0x20 ∷ ys
split s d ys =
    ap (λ t. t ++ ys) (lower-append s (upper_digit d ∷ []))
    ∙ append_assoc (lower s) (bit_or (upper_digit d) 0x20 ∷ []) ys

-- A number of `n + 1` digits at most, printed and turned to lower case, is read back.
read_hex-hex_text :
    (n v : ℕ) (ys : Text)
    → n ≤ 3
    → v < 16 ^ suc n
    → v < 2 ^ 16
    → (read_hex 0 0 (lower (hex_text n v) ++ ys) ≡ read_hex (length (hex_text n v)) v ys)
      × (length (hex_text n v) ≤ suc n)
unfolding hex_text
read_hex-hex_text zero v ys few fits word = (
  read_hex-digit 0 0 (v % 16) ys (omega arith) (omega arith) (omega arith)
      ∙ ap (λ e. read_hex 1 e ys) (omega arith),
  omega arith,
)
read_hex-hex_text (suc n) v ys few fits word =
    let before : (read_hex 0 0
            (lower (hex_text n (v / 16)) ++ bit_or (upper_digit (v % 16)) 0x20 ∷ ys)
          ≡ read_hex (length (hex_text n (v / 16))) (v / 16)
              (bit_or (upper_digit (v % 16)) 0x20 ∷ ys))
        × (length (hex_text n (v / 16)) ≤ suc n) =
      read_hex-hex_text n (v / 16) (bit_or (upper_digit (v % 16)) 0x20 ∷ ys) (omega arith)
        (omega (arith, pow-suc 16 (suc n))) (omega arith) in
    elim (Bool-cases (ltb v 16)) [
      | inl one ↦ rw one (
        read_hex-digit 0 0 v ys (omega arith) (ground arith) (omega arith)
            ∙ ap (λ e. read_hex 1 e ys) (omega arith),
        omega arith,
      )
      | inr more ↦ rw more (
        ap (read_hex 0 0) (split (hex_text n (v / 16)) (v % 16) ys)
            ∙ before.0
            ∙ read_hex-digit (length (hex_text n (v / 16))) (v / 16) (v % 16) ys
                (omega (arith, before.1)) (omega arith) (omega arith)
            ∙ ap₂ (λ k e. read_hex k e ys) (sym (length-append (hex_text n (v / 16)) _))
                (omega arith),
        omega (arith, before.1, length-append (hex_text n (v / 16)) (upper_digit (v % 16) ∷ [])),
      )
    ]

all_hex-append : (s t : Text) → all_hex s ≡ true → all_hex t ≡ true → all_hex (s ++ t) ≡ true
all_hex-append [] t h h' = h'
all_hex-append (c ∷ s) t h h' = elim (Bool-cases (is_hex c)) [
  | inl e ↦ rw e (all_hex-append s t (rw e at h) h')
  | inr e ↦ cc (rw e at h)
]

all_hex-digit : (d : ℕ) → d < 16 → all_hex (lower (upper_digit d ∷ [])) ≡ true
all_hex-digit d h = rw (lower_digit d h).0 refl

pub all_hex-hex_text : (n v : ℕ) → all_hex (lower (hex_text n v)) ≡ true
unfolding hex_text
all_hex-hex_text zero v = all_hex-digit (v % 16) (omega arith)
all_hex-hex_text (suc n) v = elim (Bool-cases (ltb v 16)) [
  | inl one ↦ rw one (all_hex-digit v (ground arith))
  | inr more ↦
      rw (more, lower-append (hex_text n (v / 16)) (upper_digit (v % 16) ∷ []))
        (all_hex-append (lower (hex_text n (v / 16))) (lower (upper_digit (v % 16) ∷ []))
          (all_hex-hex_text n (v / 16)) (all_hex-digit (v % 16) (omega arith)))
]

-- Every text that is not empty shows, once it is turned to lower case.
pub lower_shows : (s : Text) → 1 ≤ length s → (bit_and (union (lower s)) 0xe0 == 0) ≡ false
lower_shows [] h = absurd (omega arith)
lower_shows (c ∷ cs) h = ground (
  arith,
  bit_and_high 5 all 7,
  bit_and_mask 3 (all / 32),
  bit_or-div 5 (bit_or c 0x20) rest,
  bit_or_step (bit_or c 0x20 / 32) (rest / 32),
  or_digit 5 c,
)
  where
    rest : ℕ
    rest = union (lower cs)

    all : ℕ
    all = bit_or (bit_or c 0x20) rest

length-hex_text : (n v : ℕ) → 1 ≤ length (hex_text n v)
unfolding hex_text
length-hex_text zero v = omega arith
length-hex_text (suc n) v = elim (Bool-cases (ltb v 16)) [
  | inl one ↦ rw one (omega arith)
  | inr more ↦
      rw more (omega (arith, length-append (hex_text n (v / 16)) (upper_digit (v % 16) ∷ [])))
]

pub hex_text_shows : (v : ℕ) → (bit_and (union (lower (hex_text 3 v))) 0xe0 == 0) ≡ false
hex_text_shows v = lower_shows (hex_text 3 v) (length-hex_text 3 v)

append-none : (s : Text) → s ++ [] ≡ s
append-none [] = refl
append-none (c ∷ s) = ap (λ t. c ∷ t) (append-none s)

-- A word is printed with four digits at most, and read back.
pub read_hex-word : (v : ℕ) → v < 2 ^ 16 → read_hex 0 0 (lower (hex_text 3 v)) ≡ some v
read_hex-word v h =
    ap (read_hex 0 0) (sym (append-none (lower (hex_text 3 v))))
    ∙ (read_hex-hex_text 3 v [] (omega arith) (omega arith) h).0
    ∙ ends (length (hex_text 3 v))
  where
    ends : (k : ℕ) → read_hex k v [] ≡ some v
    ends k = unfold read_hex in refl
