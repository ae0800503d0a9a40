-- ===== src/RuleReader/Ipv4.antt =====
-- src/rule_parser/classbench_rule_parser.cpp: `RuleReader::parse_IPRange`. An `unsigned` has 32 bits.
pub mod Blocks
pub mod Addresses
pub mod Prefix
pub mod Dotted
use Prim.Native.Nat.{bit_and, bit_or}
use pclass_vectorized.Prelude.{
  ℕ, zero, suc, ◌+◌, ◌-◌, ◌*◌, ◌/◌, ◌%◌, ◌^◌, List, ltb, ◌==◌, if◌then◌else◌, update,
}
use pclass_vectorized.Range.{Range1d, range}
use pclass_vectorized.RuleReader.Text.{Result, success, failure, Failure, ◌>>=◌, item, split, atoui}

-- `for (int i = 3; i > 3 - n; i--) ptrange[i] = v`
unfoldable pub set_tail : ℕ → ℕ → (ℕ → ℕ) → ℕ → ℕ
set_tail zero v p = p
set_tail (suc n) v p = update (set_tail n v p) (3 - n) v

-- The four numbers shifted together, in 32 bits.
unfoldable pub join : (ℕ → ℕ) → ℕ
join p =
    let two = (p 0 * 2 ^ 8 % 2 ^ 32 + p 1) % 2 ^ 32 in
    let three = (two * 2 ^ 8 % 2 ^ 32 + p 2) % 2 ^ 32 in (three * 2 ^ 8 % 2 ^ 32 + p 3) % 2 ^ 32

-- The part of `parse_IPRange` behind the conversions: the range of the addresses whose first `mask`
-- bits are those of the numbers in `ptrange`. For a longer mask than 32 the loops would write below
-- the array.
unfoldable pub ip_range : (ℕ → ℕ) → ℕ → Result Range1d
unfolding set_tail join
ip_range ptrange mask =
    let masklit1 = (32 - mask) / 8 in
    let masklit2 = (32 - mask) % 8 in
    let masklit3 = 2 ^ masklit2 - 1 in
    let at = 3 - masklit1 in
    let zeros = set_tail masklit1 0 ptrange in
    let first =
      if masklit2 == 0
      then zeros
      else update zeros at (bit_and (zeros at) (2 ^ 32 - 1 - masklit3)) in
    let ones = set_tail masklit1 255 first in
    let last = if masklit2 == 0 then ones else update ones at (bit_or (ones at) masklit3) in
    if ltb 32 mask then failure Failure.undefined else success (range (join first) (join last))

abbrev pub four : ℕ → ℕ → ℕ → ℕ → ℕ → ℕ
four a b c d zero = a
four a b c d (suc zero) = b
four a b c d (suc (suc zero)) = c
four a b c d (suc (suc (suc i))) = d

unfoldable pub parse_ip_range : List ℕ → Result Range1d
unfolding ip_range split atoui
parse_ip_range token = do
  address ← item (split token b'/') 0
  let split_ip = split address b'.'
  a ← item split_ip 0
  b ← item split_ip 1
  c ← item split_ip 2
  d ← item split_ip 3
  mask ← item (split token b'/') 1
  ip_range (four (atoui a) (atoui b) (atoui c) (atoui d)) (atoui mask)
