-- ===== src/Rule/Endianity.antt =====
-- `Rule_Ipv4_ACL::reverse_endianity` on a machine with the lower byte first.
use pclass_vectorized.Prelude.{ℕ, zero, suc, ◌-◌, ◌^◌, ◌<◌, ◌≡◌, refl, arith}
use pclass_vectorized.Range.{Range1d}
use pclass_vectorized.Range.Mask.{byte_at, swap_bytes, to_be}
use pclass_vectorized.Rule.{RuleIpv4Acl, reverse_endianity}
use pclass_vectorized.Rule.Halves.{Is32}

-- The bounds are values of 16 bits.
abbrev pub Is16 : Range1d → Type 0
Is16 r = (r.low < 2 ^ 16) × (r.high < 2 ^ 16)

pub swap_bytes_2 : (v : ℕ) → v < 2 ^ 16 → swap_bytes 2 (swap_bytes 2 v) ≡ v
unfolding swap_bytes
swap_bytes_2 v lt = omega arith

pub swap_bytes_4 : (v : ℕ) → v < 2 ^ 32 → swap_bytes 4 (swap_bytes 4 v) ≡ v
unfolding swap_bytes
swap_bytes_4 v lt = omega arith

twice :
    (r : RuleIpv4Acl)
    → Is32 r.sip
    → Is32 r.dip
    → Is16 r.sport
    → Is16 r.dport
    → Is16 r.proto
    → reverse_endianity (reverse_endianity r) ≡ r
unfolding reverse_endianity to_be
twice r s d sp dp pr =
    rw
      (
        swap_bytes_4 r.sip.low s.0,
        swap_bytes_4 r.sip.high s.1,
        swap_bytes_4 r.dip.low d.0,
        swap_bytes_4 r.dip.high d.1,
        swap_bytes_2 r.sport.low sp.0,
        swap_bytes_2 r.sport.high sp.1,
        swap_bytes_2 r.dport.low dp.0,
        swap_bytes_2 r.dport.high dp.1,
        swap_bytes_2 r.proto.low pr.0,
        swap_bytes_2 r.proto.high pr.1,
      )
      refl

-- The n bytes of w are those of v in reverse order.
abbrev pub Reversed : ℕ → ℕ → ℕ → Type 0
Reversed n v w = (w < 256 ^ n) × ((j : ℕ) → j < n → byte_at w j ≡ byte_at v (n - 1 - j))

abbrev pub RangeReversed : ℕ → Range1d → Range1d → Type 0
RangeReversed n r q = Reversed n r.low q.low × Reversed n r.high q.high

swap_bytes-Reversed_2 : (v : ℕ) → Reversed 2 v (swap_bytes 2 v)
unfolding swap_bytes
swap_bytes-Reversed_2 v = (omega arith, bytes)
  where
    bytes : (j : ℕ) → j < 2 → byte_at (swap_bytes 2 v) j ≡ byte_at v (1 - j)
    bytes zero lt = omega arith
    bytes (suc zero) lt = omega arith
    bytes (suc (suc j)) lt = absurd (omega arith)

swap_bytes-Reversed_4 : (v : ℕ) → Reversed 4 v (swap_bytes 4 v)
unfolding swap_bytes
swap_bytes-Reversed_4 v = (omega arith, bytes)
  where
    bytes : (j : ℕ) → j < 4 → byte_at (swap_bytes 4 v) j ≡ byte_at v (3 - j)
    bytes zero lt = omega arith
    bytes (suc zero) lt = omega arith
    bytes (suc (suc zero)) lt = omega arith
    bytes (suc (suc (suc zero))) lt = omega arith
    bytes (suc (suc (suc (suc j)))) lt = absurd (omega arith)

-- `reverse_endianity` of a rule of 32-bit addresses and 16-bit ports and protocol puts the four bytes
-- of each bound of an address and the two bytes of each other bound in reverse order, and twice it
-- gives back the rule.
pub reverse_endianity-RangeReversed :
    (r : RuleIpv4Acl)
    → Is32 r.sip
    → Is32 r.dip
    → Is16 r.sport
    → Is16 r.dport
    → Is16 r.proto
    → RangeReversed 4 r.sip (reverse_endianity r).sip
      × RangeReversed 4 r.dip (reverse_endianity r).dip
      × RangeReversed 2 r.sport (reverse_endianity r).sport
      × RangeReversed 2 r.dport (reverse_endianity r).dport
      × RangeReversed 2 r.proto (reverse_endianity r).proto
      × (reverse_endianity (reverse_endianity r) ≡ r)
unfolding reverse_endianity to_be
reverse_endianity-RangeReversed r s d sp dp pr = (
  (swap_bytes-Reversed_4 r.sip.low, swap_bytes-Reversed_4 r.sip.high),
  (swap_bytes-Reversed_4 r.dip.low, swap_bytes-Reversed_4 r.dip.high),
  (swap_bytes-Reversed_2 r.sport.low, swap_bytes-Reversed_2 r.sport.high),
  (swap_bytes-Reversed_2 r.dport.low, swap_bytes-Reversed_2 r.dport.high),
  (swap_bytes-Reversed_2 r.proto.low, swap_bytes-Reversed_2 r.proto.high),
  twice r s d sp dp pr,
)
