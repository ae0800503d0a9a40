-- ===== src/Rule.antt =====
-- include/pcv/rule_parser/rule.h, src/rule_parser/rule.cpp and include/pcv/rule_parser/rule_vec_utils.h:
-- the IPv4 rule of an access list (`Rule_Ipv4_ACL`) and its form as 7 ranges of 16 bits, which the
-- trees store. An array of 7 is a list.
pub mod Halves
pub mod Endianity
pub mod OpenFlow
pub mod PacketWords
use pclass_vectorized.Prelude.{
  ℕ, ◌+◌, ◌-◌, ◌*◌, ◌/◌, ◌%◌, ◌^◌, ◌==◌, List, [], ◌∷◌, ◌++◌, get_or, if◌then◌else◌,
}
use pclass_vectorized.Range.{Range1d, range, max_value, wildcard}
use pclass_vectorized.Range.Mask.{prefix_len_le, max_prefix_len, to_be}

-- `Rule_Ipv4_ACL`, without the priority and the tag that it inherits
pub record RuleIpv4Acl : Type 0 where
  pub sip : Range1d
  pub dip : Range1d
  pub sport : Range1d
  pub dport : Range1d
  pub proto : Range1d

-- The constructor.
unfoldable pub new_rule : RuleIpv4Acl
new_rule = record {
  sip = wildcard 32;
  dip = wildcard 32;
  sport = wildcard 16;
  dport = wildcard 16;
  proto = wildcard 16;
}

unfoldable pub cummulative_prefix_len : RuleIpv4Acl → ℕ
unfolding prefix_len_le
cummulative_prefix_len r =
    prefix_len_le 4 r.sip
    + prefix_len_le 4 r.dip
    + prefix_len_le 2 r.sport
    + prefix_len_le 2 r.dport
    + prefix_len_le 2 r.proto

unfoldable pub max_cummulative_prefix_len : ℕ
unfolding max_prefix_len
max_cummulative_prefix_len =
    max_prefix_len 4 + max_prefix_len 4 + max_prefix_len 2 + max_prefix_len 2 + max_prefix_len 2

unfoldable pub reverse_endianity : RuleIpv4Acl → RuleIpv4Acl
unfolding to_be
reverse_endianity r = record {
  sip = to_be 4 r.sip;
  dip = to_be 4 r.dip;
  sport = to_be 2 r.sport;
  dport = to_be 2 r.dport;
  proto = to_be 2 r.proto;
}

-- `fill` of a `Range1d<uint8_t>`
unfoldable pub fill_8 : Range1d → List Range1d
fill_8 val = range val.low (if val.high == max_value 8 then max_value 16 else val.high) ∷ []

-- `fill` of a `Range1d<uint32_t>`: the lower and the upper half of the bounds.
unfoldable pub fill_32 : Range1d → List Range1d
fill_32 val =
    range (val.low % 2 ^ 16) (val.high % 2 ^ 16)
    ∷ range (val.low / 2 ^ 16 % 2 ^ 16) (val.high / 2 ^ 16 % 2 ^ 16)
    ∷ []

-- `rule_to_array_16b`
unfoldable pub rule_to_array_16b : RuleIpv4Acl → List Range1d
unfolding fill_32
rule_to_array_16b r = fill_32 r.sip ++ fill_32 r.dip ++ r.sport ∷ r.dport ∷ r.proto ∷ []

-- `vec_build::pop_32(Range1d<uint32_t> &dst, size_t &i, const Range1d<uint16_t> *src)` at index i
unfoldable pub pop_32 : ℕ → List Range1d → Range1d
pop_32 i src =
    let first = get_or src i (range 0 0) in
    let second = get_or src (i + 1) (range 0 0) in
    range (second.low * 2 ^ 16 + first.low) (second.high * 2 ^ 16 + first.high)

-- The rule with the priority and the tag of `iParsedRule`, each an `int` in its 32 bits.
pub record TaggedRule : Type 0 where
  pub rule : RuleIpv4Acl
  pub priority : ℕ
  pub tag : ℕ

-- -1
abbrev pub minus_one : ℕ
minus_one = 2 ^ 32 - 1

-- `rule_from_array`
unfoldable pub rule_from_array : List Range1d → TaggedRule
unfolding pop_32
rule_from_array arr = record {
  rule = record {
    sip = pop_32 0 arr;
    dip = pop_32 2 arr;
    sport = get_or arr 4 (range 0 0);
    dport = get_or arr 5 (range 0 0);
    proto = get_or arr 6 (range 0 0);
  };
  priority = minus_one;
  tag = minus_one;
}

-- `exact_array_to_rule_le`; the pairs 0, 1 and 2, 3 are read as values of 32 bits on x86_64.
unfoldable pub exact_array_to_rule_le : List ℕ → RuleIpv4Acl
exact_array_to_rule_le a =
    let sip = get_or a 0 0 + get_or a 1 0 * 2 ^ 16 in
    let dip = get_or a 2 0 + get_or a 3 0 * 2 ^ 16 in
    record {
      sip = range sip sip;
      dip = range dip dip;
      sport = range (get_or a 4 0) (get_or a 4 0);
      dport = range (get_or a 5 0) (get_or a 5 0);
      proto = range (get_or a 6 0) (get_or a 6 0);
    }

-- `exact_array_to_rule_be`
unfoldable pub exact_array_to_rule_be : List ℕ → RuleIpv4Acl
unfolding exact_array_to_rule_le reverse_endianity
exact_array_to_rule_be a = reverse_endianity (exact_array_to_rule_le a)
