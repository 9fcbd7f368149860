-- ===== src/Address/RoundTrip.antt =====
-- The text of an address reads back as the address.
use ntfw.Common.{ℕ, zero, suc, true, false, ◌+◌, ◌-◌, ◌*◌, ◌/◌, ◌^◌, ◌≤◌, ◌<◌, ◌≡◌}
use ntfw.Common.{
  arith, refl, sym, ap, ◌∙◌, ltb, leb, ◌==◌, ◌&&◌, if◌then◌else◌, Bool-cases, lt→ltb, ==_iff, inl,
  inr,
}
use ntfw.Common.{List, [], ◌∷◌, ◌++◌, length, length-append, Option, none, some, u8, ◌>>>◌}
use ntfw.Address.{digit, octet_text, ipxs_loop, ipxs, drop_last}

-- A reader of dotted decimals: the numbers between the points.
abbrev pub numbers : ℕ → List ℕ → Option (List ℕ)
numbers acc [] = some (acc ∷ [])
numbers acc (c ∷ cs) =
    let point = numbers 0 cs in
    let more = numbers (acc * 10 + (c - 48)) cs in
    if c == 46
    then elim point [ none ↦ none | some ns ↦ some (acc ∷ ns) ]
    else if leb 48 c && leb c 57
    then more
    else none

-- The address of four numbers, each less than 256.
abbrev pub address : Option (List ℕ) → Option ℕ
address (some (a ∷ b ∷ c ∷ d ∷ [])) =
    if ltb a 256 && ltb b 256 && ltb c 256 && ltb d 256
    then some (a + b * 2 ^ 8 + c * 2 ^ 16 + d * 2 ^ 24)
    else none
address _ = none

abbrev pub inet_addr : List ℕ → Option ℕ
inet_addr text = address (numbers 0 text)

digit-is_digit :
    (d : ℕ) → d < 10 → ((digit d == 46) ≡ false) × ((leb 48 (digit d) && leb (digit d) 57) ≡ true)
digit-is_digit d h = ground arith

numbers-digit :
    (acc d : ℕ) (cs : List ℕ) → d < 10 → numbers acc (digit d ∷ cs) ≡ numbers (acc * 10 + d) cs
numbers-digit acc d cs h =
    let q = digit-is_digit d h in
    let value : digit d - 48 ≡ d = omega arith in rw (q.0, q.1, value) refl

numbers-octet : (o : ℕ) (cs : List ℕ) → o < 256 → numbers 0 (octet_text o ++ cs) ≡ numbers o cs
unfolding octet_text
numbers-octet o cs h = elim (Bool-cases (o / 100 == 0)) [
  | inr big ↦ rw big (
      numbers-digit 0 (o / 100) (digit (low / 10) ∷ digit (low - low / 10 * 10) ∷ cs) (omega arith)
      ∙ numbers-digit (0 * 10 + o / 100) (low / 10) (digit (low - low / 10 * 10) ∷ cs) (omega arith)
      ∙ numbers-digit ((0 * 10 + o / 100) * 10 + low / 10) (low - low / 10 * 10) cs (omega arith)
      ∙ ap (λ n. numbers n cs) (omega arith))
  | inl small ↦ elim (Bool-cases (o / 10 == 0)) [
    | inr two ↦
        rw (small, two)
          (numbers-digit 0 (o / 10) (digit (o - o / 10 * 10) ∷ cs) (ground arith)
            ∙ numbers-digit (0 * 10 + o / 10) (o - o / 10 * 10) cs (ground arith)
            ∙ ap (λ n. numbers n cs) (omega arith))
    | inl one ↦
        rw (small, one) (numbers-digit 0 o cs (ground arith) ∙ ap (λ n. numbers n cs) (omega arith))
  ]
]
  where
    low : ℕ
    low = o - o / 100 * 100

numbers-point :
    (o : ℕ) (cs ns : List ℕ) → numbers 0 cs ≡ some ns → numbers o (46 ∷ cs) ≡ some (o ∷ ns)
numbers-point o cs ns e = rw e refl

drop_last-cons : (x : ℕ) (ys : List ℕ) → 1 ≤ length ys → drop_last (x ∷ ys) ≡ x ∷ drop_last ys
drop_last-cons x [] h = absurd (omega arith)
drop_last-cons x (y ∷ ys) h = refl

drop_last-append : (xs ys : List ℕ) → 1 ≤ length ys → drop_last (xs ++ ys) ≡ xs ++ drop_last ys
drop_last-append [] ys h = refl
drop_last-append (x ∷ xs) ys h =
    drop_last-cons x (xs ++ ys) (omega (arith, length-append xs ys))
    ∙ ap (λ t. x ∷ t) (drop_last-append xs ys h)

length-drop_last : (xs : List ℕ) → length (drop_last xs) ≡ length xs - 1
length-drop_last [] = refl
length-drop_last (x ∷ []) = refl
length-drop_last (x ∷ y ∷ rest) = omega (arith, length-drop_last (y ∷ rest))

length-octet_text : (o : ℕ) → length (octet_text o) ≤ 3
unfolding octet_text
length-octet_text o = elim (Bool-cases (o / 100 == 0)) [
  | inr big ↦ rw big (omega arith)
  | inl small ↦ elim (Bool-cases (o / 10 == 0)) [
    | inr two ↦ rw (small, two) (omega arith)
    | inl one ↦ rw (small, one) (omega arith)
  ]
]

-- The bytes of an address, the lowest first.
abbrev octets : ℕ → ℕ → List ℕ
octets zero ip4 = []
octets (suc n) ip4 = u8 ip4 ∷ octets n (ip4 >>> 8)

length-ipxs_loop : (n ip4 : ℕ) → (length (ipxs_loop n ip4) ≤ 4 * n) × (n ≤ length (ipxs_loop n ip4))
unfolding ipxs_loop
length-ipxs_loop zero ip4 = (omega arith, omega arith)
length-ipxs_loop (suc n) ip4 =
    let more = length-ipxs_loop n (ip4 >>> 8) in
    let sum = length-append (octet_text (u8 ip4)) (46 ∷ ipxs_loop n (ip4 >>> 8)) in
    let one = length-octet_text (u8 ip4) in
    (omega (arith, more, sum, one), omega (arith, more, sum, one))

numbers-ipxs_loop :
    (n ip4 : ℕ) → numbers 0 (drop_last (ipxs_loop (suc n) ip4)) ≡ some (octets (suc n) ip4)
unfolding ipxs_loop
numbers-ipxs_loop zero ip4 =
    rw (drop_last-append (octet_text (u8 ip4)) (46 ∷ []) (omega arith))
      (numbers-octet (u8 ip4) [] (omega arith))
numbers-ipxs_loop (suc n) ip4 =
    let rest = ipxs_loop (suc n) (ip4 >>> 8) in
    let long = length-ipxs_loop (suc n) (ip4 >>> 8) in
    ap (numbers 0) (
      drop_last-append (octet_text (u8 ip4)) (46 ∷ rest) (omega arith)
      ∙ ap (λ t. octet_text (u8 ip4) ++ t) (drop_last-cons 46 rest (omega (arith, long))))
    ∙ numbers-octet (u8 ip4) (46 ∷ drop_last rest) (omega arith)
    ∙ numbers-point (u8 ip4) (drop_last rest) (octets (suc n) (ip4 >>> 8))
        (numbers-ipxs_loop n (ip4 >>> 8))

of_four :
    {n : ℕ} (a b c d : ℕ)
    → a < 256
    → b < 256
    → c < 256
    → d < 256
    → a + b * 2 ^ 8 + c * 2 ^ 16 + d * 2 ^ 24 ≡ n
    → address (some (a ∷ b ∷ c ∷ d ∷ [])) ≡ some n
of_four a b c d ha hb hc hd e =
    rw (lt→ltb a 256 ha, lt→ltb b 256 hb, lt→ltb c 256 hc, lt→ltb d 256 hd) (ap some e)

address-octets : (ip4 : ℕ) → ip4 < 2 ^ 32 → address (some (octets 4 ip4)) ≡ some ip4
address-octets ip4 h =
    of_four (u8 ip4) (u8 (ip4 >>> 8)) (u8 (ip4 >>> 8 >>> 8)) (u8 (ip4 >>> 8 >>> 8 >>> 8))
      (omega arith) (omega arith) (omega arith) (omega arith) (omega arith)

-- The text of every address reads back, as a dotted decimal of four numbers, as the address; the
-- length that is returned is that of the text, which has at most 15 characters.
pub ipxs-inet_addr :
    (ip4 : ℕ)
    → ip4 < 2 ^ 32
    → let (text, len) = ipxs ip4 in (inet_addr text ≡ some ip4) × (len ≡ length text) × (len ≤ 15)
unfolding ipxs
ipxs-inet_addr ip4 h = elim (Bool-cases (ip4 == 0)) [
  | inl e ↦ rw e (ap some (sym ((==_iff ip4 0).0 e)), refl, omega arith)
  | inr e ↦
      let long = length-ipxs_loop 4 ip4 in
      let cut = length-drop_last (ipxs_loop 4 ip4) in
      rw e (
        ap address (numbers-ipxs_loop 3 ip4) ∙ address-octets ip4 h,
        omega (arith, long, cut),
        omega (arith, long, cut),
      )
]
