-- ===== src/Address.antt =====
-- ntfe/helper.cpp: the text of an address. A `be32` holds what a little-endian machine reads, so
-- that its lowest byte is the first of the address. A text is a list of characters without the
-- zero that ends it.
pub mod RoundTrip
pub mod Buffers
use ntfw.Common.{ℕ, zero, suc, not, ◌+◌, ◌-◌, ◌*◌, ◌/◌, ◌==◌, if◌then◌else◌, update}
use ntfw.Common.{List, [], ◌∷◌, ◌++◌, length, u8, ◌>>>◌, bit_and}

-- `'0' + d`
abbrev pub digit : ℕ → ℕ
digit d = 48 + d

-- The digits that one round of the loop writes.
unfoldable pub octet_text : ℕ → List ℕ
octet_text o =
    let low = o - o / 100 * 100 in
    if not (o / 100 == 0)
    then digit (o / 100) ∷ digit (low / 10) ∷ digit (low - low / 10 * 10) ∷ []
    else if not (o / 10 == 0)
    then digit (o / 10) ∷ digit (o - o / 10 * 10) ∷ []
    else digit o ∷ []

-- The loop, `n` rounds from its end: each writes the lowest byte and a point.
unfoldable pub ipxs_loop : ℕ → ℕ → List ℕ
ipxs_loop zero ip4 = []
ipxs_loop (suc n) ip4 = octet_text (u8 ip4) ++ 46 ∷ ipxs_loop n (ip4 >>> 8)

-- `*--pd = '\0'`
abbrev pub drop_last : List ℕ → List ℕ
drop_last [] = []
drop_last (x ∷ []) = []
drop_last (x ∷ y ∷ rest) = x ∷ drop_last (y ∷ rest)

-- The text that is written, and the length that is returned.
unfoldable pub ipxs : ℕ → List ℕ × ℕ
ipxs ip4 =
    let text = drop_last (ipxs_loop 4 ip4) in
    if ip4 == 0 then (48 ∷ 46 ∷ 48 ∷ 46 ∷ 48 ∷ 46 ∷ 48 ∷ [], 7) else (text, u8 (length text))

-- The static variables of `ips`.
pub record Texts : Type 0 where
  pub tmp : ℕ → List ℕ
  pub idx : ℕ

-- The buffer that is returned, and the variables afterwards.
unfoldable pub ips : ℕ → Texts → ℕ × Texts
ips ip4 s =
    let i = bit_and s.idx 3 in (i, record { tmp = update s.tmp i (ipxs ip4).0; idx = u8 (i + 1) })
