-- ===== src/Config/Walk.antt =====
-- What is read of an image at its start does not depend on what stands behind.
use ntfw.Common.{ℕ, zero, suc, ◌+◌, ◌*◌, ◌≡◌, ◌≤◌, arith, refl, ap, ap₂, ◌∙◌}
use ntfw.Common.{List, [], ◌∷◌, ◌++◌, length}
use ntfw.Engine.{le_word}
use ntfw.Config.{advance, field, read_rule, read_rules, read_meters, read_hosts}
use ntfw.Config.{rule_size, meter_size, host_size}

le_word-append : (n : ℕ) (xs tail : List ℕ) → n ≤ length xs → le_word n (xs ++ tail) ≡ le_word n xs
le_word-append zero xs tail h = refl
le_word-append (suc n) [] tail h = omega arith
le_word-append (suc n) (x ∷ xs) tail h =
    ap (λ w. x + 256 * w) (le_word-append n xs tail (omega arith))

no_room : (n : ℕ) → ¬ (suc n ≤ 0)
no_room n h = omega arith

pub advance-append :
    (n : ℕ) (xs tail : List ℕ) → n ≤ length xs → advance n (xs ++ tail) ≡ advance n xs ++ tail
advance-append zero xs tail h = refl
advance-append (suc n) [] tail h = absurd (no_room n h)
advance-append (suc n) (x ∷ xs) tail h = advance-append n xs tail (omega arith)

pub length-advance : (n : ℕ) (xs : List ℕ) → n ≤ length xs → n + length (advance n xs) ≡ length xs
length-advance zero xs h = omega arith
length-advance (suc n) [] h = omega arith
length-advance (suc n) (x ∷ xs) h = omega (arith, length-advance n xs (omega arith))

pub field-append :
    (xs tail : List ℕ) (off n : ℕ) → off + n ≤ length xs → field (xs ++ tail) off n ≡ field xs off n
field-append xs tail off n h =
    ap (le_word n) (advance-append off xs tail (omega arith))
    ∙ le_word-append n (advance off xs) tail (omega (arith, length-advance off xs (omega arith)))

read_rule-append :
    (xs tail : List ℕ) → rule_size ≤ length xs → read_rule (xs ++ tail) ≡ read_rule xs
unfolding read_rule
read_rule-append xs tail h =
    rw
      (
        at 0 2 (omega arith),
        at 2 2 (omega arith),
        at 4 2 (omega arith),
        at 6 2 (omega arith),
        at 8 2 (omega arith),
        at 10 1 (omega arith),
        at 11 1 (omega arith),
        at 12 1 (omega arith),
        at 13 1 (omega arith),
      )
      refl
  where
    at : (off n : ℕ) → off + n ≤ rule_size → field (xs ++ tail) off n ≡ field xs off n
    at off n k = field-append xs tail off n (omega arith)

-- A walk over `n` records of `size` bytes sees the same records, if one record does.
pub read_rules-append :
    (n : ℕ) (xs tail : List ℕ)
    → rule_size * n ≤ length xs
    → read_rules n (xs ++ tail) ≡ read_rules n xs
unfolding read_rules
read_rules-append zero xs tail h = refl
read_rules-append (suc n) xs tail h =
    ap₂ (λ a l. a ∷ l) (read_rule-append xs tail (omega arith))
      (ap (read_rules n) (advance-append rule_size xs tail (omega arith))
        ∙ read_rules-append n (advance rule_size xs) tail
            (omega (arith, length-advance rule_size xs (omega arith))))

pub read_meters-append :
    (n : ℕ) (xs tail : List ℕ)
    → meter_size * n ≤ length xs
    → read_meters n (xs ++ tail) ≡ read_meters n xs
unfolding read_meters
read_meters-append zero xs tail h = refl
read_meters-append (suc n) xs tail h =
    ap₂ (λ a l. a ∷ l)
      (rw
        (
          field-append xs tail 0 4 (omega arith),
          field-append xs tail 4 4 (omega arith),
          field-append xs tail 8 4 (omega arith),
        )
        refl)
      (ap (read_meters n) (advance-append meter_size xs tail (omega arith))
        ∙ read_meters-append n (advance meter_size xs) tail
            (omega (arith, length-advance meter_size xs (omega arith))))

pub read_hosts-append :
    (n : ℕ) (xs tail : List ℕ)
    → host_size * n ≤ length xs
    → read_hosts n (xs ++ tail) ≡ read_hosts n xs
unfolding read_hosts
read_hosts-append zero xs tail h = refl
read_hosts-append (suc n) xs tail h =
    ap₂ (λ a l. a ∷ l) (field-append xs tail 28 4 (omega arith))
      (ap (read_hosts n) (advance-append host_size xs tail (omega arith))
        ∙ read_hosts-append n (advance host_size xs) tail
            (omega (arith, length-advance host_size xs (omega arith))))
