-- ===== src/RuleReader/Printer.antt =====
-- src/rule_parser/classbench_rule_parser.cpp: `print_ipv4`, `print_range` and the ClassBench line of
-- a rule (`operator<<` of `Rule_Ipv4_ACL`).
pub mod Prefixes
pub mod Protocol
pub mod Tokens
pub mod RoundTrip
pub mod File
use Prim.Native.Nat.{bit_and}
use pclass_vectorized.Prelude.{
  ℕ, zero, suc, ◌+◌, ◌-◌, ◌/◌, ◌%◌, ◌^◌, List, [], ◌∷◌, ◌++◌, ltb, ◌==◌, if◌then◌else◌,
}
use pclass_vectorized.Range.{Range1d}
use pclass_vectorized.Rule.{RuleIpv4Acl}
use pclass_vectorized.RuleReader.Text.{numeral, decimal}

-- The loop of `print_ipv4` from this prefix length on; bit 31 of the mask is the sign of an `int`,
-- which becomes bit 31 of an `unsigned` again.
unfoldable pub printed_prefix_len : ℕ → ℕ → ℕ → ℕ
printed_prefix_len zero low high = 0
printed_prefix_len (suc p) low high =
    let rest = printed_prefix_len p low high in
    let m = 2 ^ (32 - suc p) in if bit_and low m == bit_and high m then suc p else rest

abbrev pub byte : ℕ → ℕ → ℕ
byte val b = val / 256 ^ b % 256

unfoldable pub print_ipv4 : Range1d → List ℕ
print_ipv4 ip =
    decimal (byte ip.low 3)
    ++ b'.'
      ∷ (decimal (byte ip.low 2)
          ++ b'.' ∷ (decimal (byte ip.low 1) ++ b'.' ∷ decimal (byte ip.low 0)))
    ++ b'/' ∷ decimal (printed_prefix_len 32 ip.low ip.high)

-- At least two places, filled with zeros, in upper case.
unfoldable pub hex_2 : ℕ → List ℕ
hex_2 n = if ltb n 16 then b'0' ∷ numeral 16 20 n else numeral 16 20 n

-- `print_range` with `hex` false
unfoldable pub print_range : Range1d → List ℕ
print_range r = decimal r.low ++ b' ' ∷ b':' ∷ b' ' ∷ decimal r.high

-- `print_range` with `hex` true
unfoldable pub print_range_hex : Range1d → List ℕ
print_range_hex r =
    b'0' ∷ b'x' ∷ (hex_2 r.low ++ b'/' ∷ b'0' ∷ b'x' ∷ hex_2 (if r.low == r.high then 0xff else 0))

unfoldable pub print_rule : RuleIpv4Acl → List ℕ
print_rule r =
    b'@'
    ∷ (print_ipv4 r.sip
        ++ b'\t'
          ∷ (print_ipv4 r.dip
              ++ b'\t'
                ∷ (print_range r.sport
                    ++ b'\t' ∷ (print_range r.dport ++ b'\t' ∷ print_range_hex r.proto))))
