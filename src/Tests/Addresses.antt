-- ===== src/Tests/Addresses.antt =====
-- Tests of the text of addresses, and its theorems applied to them.
use ntfw.Common.{ℕ, ◌+◌, ◌*◌, ◌^◌, ◌≤◌, ◌≡◌, arith, refl, [], ◌∷◌, some, length}
use ntfw.Address.{octet_text, ipxs, ipxs_loop}
use ntfw.Address.RoundTrip.{inet_addr, ipxs-inet_addr}

-- 192.168.0.7
abbrev home : ℕ
home = 192 + 168 * 256 + 7 * 2 ^ 24

home_text : ipxs home ≡ (49 ∷ 57 ∷ 50 ∷ 46 ∷ 49 ∷ 54 ∷ 56 ∷ 46 ∷ 48 ∷ 46 ∷ 55 ∷ [], 11)
unfolding ipxs ipxs_loop octet_text
home_text = refl

ipxs-inet_addr_example :
    let (text, len) = ipxs home in (inet_addr text ≡ some home) × (len ≡ length text) × (len ≤ 15)
ipxs-inet_addr_example = ipxs-inet_addr home (omega arith)
