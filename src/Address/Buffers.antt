-- ===== src/Address/Buffers.antt =====
-- The ring of four buffers of `ips`.
use ntfw.Common.{ℕ, ◌+◌, ◌%◌, ◌<◌, ◌≡◌, ◌≢◌, arith, ◌∙◌, update_self, update_ne}
use ntfw.Common.{bit_and}
use ntfw.Common.Bits.{bit_and_mask}
use ntfw.Address.{Texts, ips, ipxs}

idx-mod : (i : ℕ) → bit_and i 3 ≡ i % 4
idx-mod i = bit_and_mask 2 i

ips-buffer : (ip4 : ℕ) (s : Texts) → (ips ip4 s).0 ≡ s.idx % 4
unfolding ips
ips-buffer ip4 s = idx-mod s.idx

ips-idx : (ip4 : ℕ) (s : Texts) → (ips ip4 s).1.idx ≡ s.idx % 4 + 1
unfolding ips
ips-idx ip4 s = omega (arith, idx-mod s.idx)

ips-own : (ip4 : ℕ) (s : Texts) → (ips ip4 s).1.tmp (ips ip4 s).0 ≡ (ipxs ip4).0
unfolding ips
ips-own ip4 s = update_self s.tmp (bit_and s.idx 3) (ipxs ip4).0

ips-keeps : (ip4 : ℕ) (s : Texts) (p : ℕ) → s.idx % 4 ≢ p → (ips ip4 s).1.tmp p ≡ s.tmp p
unfolding ips
ips-keeps ip4 s p ne =
    update_ne s.tmp (bit_and s.idx 3) p (ipxs ip4).0 λ q. ne (omega (arith, idx-mod s.idx, q))

-- The text of a call stands in its buffer through the next three calls, and the fourth takes the
-- same buffer.
pub ips_four :
    (a b c d e : ℕ) (s : Texts)
    → let (p, s1) = ips a s in
      let (_, s2) = ips b s1 in
      let (_, s3) = ips c s2 in
      let (_, s4) = ips d s3 in
      let (q, _) = ips e s4 in
      (s1.tmp p ≡ (ipxs a).0)
      × (s2.tmp p ≡ (ipxs a).0)
      × (s3.tmp p ≡ (ipxs a).0)
      × (s4.tmp p ≡ (ipxs a).0)
      × (p < 4)
      × (q ≡ p)
ips_four a b c d e s =
    let s1 = (ips a s).1 in
    let s2 = (ips b s1).1 in
    let s3 = (ips c s2).1 in
    let s4 = (ips d s3).1 in
    let p = ips-buffer a s in
    let i1 = ips-idx a s in
    let i2 = ips-idx b s1 in
    let i3 = ips-idx c s2 in
    let i4 = ips-idx d s3 in
    let own = ips-own a s in
    let keep2 = ips-keeps b s1 (ips a s).0 (λ q. omega (arith, p, i1, q)) ∙ own in
    let keep3 = ips-keeps c s2 (ips a s).0 (λ q. omega (arith, p, i1, i2, q)) ∙ keep2 in
    let keep4 = ips-keeps d s3 (ips a s).0 (λ q. omega (arith, p, i1, i2, i3, q)) ∙ keep3 in
    (own, keep2, keep3, keep4, omega (arith, p), omega (arith, p, i1, i2, i3, i4, ips-buffer e s4))
