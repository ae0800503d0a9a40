-- ===== src/Rule/OpenFlow.antt =====
-- include/pcv/rule_parser/rule.h and src/rule_parser/rule.cpp: the OpenFlow 1.5.1 rule
-- (`Rule_OF_1_5_1`), its constructor and its form as ranges of 16 bits.
pub mod Words
pub mod Printer
use Prim.Native.Nat.{bit_and, bit_or}
use pclass_vectorized.Prelude.{
  ℕ, zero, suc, ◌+◌, ◌-◌, ◌*◌, ◌/◌, ◌%◌, ◌^◌, Bool, ◌&&◌, not, List, [], ◌∷◌, ◌++◌, ◌==◌,
}
use pclass_vectorized.Range.{Range1d, range, max_value, wildcard}
use pclass_vectorized.Rule.{fill_8, fill_32}

-- `ipv6_t`
pub record Ipv6 : Type 0 where
  pub high : ℕ
  pub low : ℕ

-- The constructor from the lower word, and `operator==`.
abbrev pub ipv6 : ℕ → Ipv6
ipv6 low = record { high = 0; low = low }

abbrev pub eq_ipv6 : Ipv6 → Ipv6 → Bool
eq_ipv6 a b = (a.low == b.low) && (a.high == b.high)

abbrev pub ne_ipv6 : Ipv6 → Ipv6 → Bool
ne_ipv6 a b = not (eq_ipv6 a b)

-- `operator|=` and `operator&`
abbrev pub or_ipv6 : Ipv6 → Ipv6 → Ipv6
or_ipv6 a b = record { high = bit_or a.high b.high; low = bit_or a.low b.low }

abbrev pub and_ipv6 : Ipv6 → Ipv6 → Ipv6
and_ipv6 a b = record { high = bit_and a.high b.high; low = bit_and a.low b.low }

-- `operator<<=` and `operator>>=` for less than 64 places: the places that one word hands to the other
-- are shifted by 64 - v - 1.
abbrev pub shift_left_ipv6 : Ipv6 → ℕ → Ipv6
shift_left_ipv6 a v = record {
  high = bit_or (a.high * 2 ^ v % 2 ^ 64) (a.low / 2 ^ (64 - v - 1));
  low = a.low * 2 ^ v % 2 ^ 64;
}

abbrev pub shift_right_ipv6 : Ipv6 → ℕ → Ipv6
shift_right_ipv6 a v = record {
  high = a.high / 2 ^ v;
  low = bit_or (a.low / 2 ^ v) (a.high / 2 ^ (64 - v - 1));
}

-- `Range1d<ipv6_t>`
pub record Ipv6Range : Type 0 where
  pub low : Ipv6
  pub high : Ipv6

-- `set_wildcard` of it: `std::numeric_limits` is not specialised for `ipv6_t`, so that `max()` is the
-- value of the default constructor.
abbrev pub ipv6_wildcard : Ipv6Range
ipv6_wildcard = record { low = ipv6 0; high = ipv6 0 }

-- Without the priority and the tag that it inherits; an `eth_t` is a number of 64 bits.
pub record RuleOf151 : Type 0 where
  pub in_port : Range1d
  pub in_phy_port : Range1d
  pub metadata : Range1d
  pub eth_dst : Range1d
  pub eth_src : Range1d
  pub eth_type : Range1d
  pub vlan_vid : Range1d
  pub vlan_pcp : Range1d
  pub ip_dscp : Range1d
  pub ip_ecn : Range1d
  pub ip_proto : Range1d
  pub ipv4_src : Range1d
  pub ipv4_dst : Range1d
  pub tcp_src : Range1d
  pub tcp_dst : Range1d
  pub udp_src : Range1d
  pub udp_dst : Range1d
  pub sctp_src : Range1d
  pub sctp_dst : Range1d
  pub icmpv4_type : Range1d
  pub icmpv4_code : Range1d
  pub arp_op : Range1d
  pub arp_spa : Range1d
  pub arp_tpa : Range1d
  pub arp_sha : Range1d
  pub arp_tha : Range1d
  pub ipv6_src : Ipv6Range
  pub ipv6_dst : Ipv6Range
  pub ipv6_flabel : Range1d
  pub icmpv6_type : Range1d
  pub icmpv6_code : Range1d
  pub ipv6_nd_target : Ipv6Range
  pub ipv6_nd_sll : Range1d
  pub ipv6_nd_tll : Range1d
  pub mpls_label : Range1d
  pub mpls_tc : Range1d
  pub mpls_bos : Range1d
  pub pbb_isid : Range1d
  pub tunnel_id : Range1d
  pub ipv6_exthdr : Range1d
  pub pbb_uca : Range1d
  pub tcp_flags : Range1d
  pub actset_output : Range1d
  pub packet_type : Range1d

-- The constructor.
unfoldable pub new_of_rule : RuleOf151
new_of_rule = record {
  in_port = wildcard 32;
  in_phy_port = wildcard 32;
  metadata = wildcard 64;
  eth_dst = wildcard 64;
  eth_src = wildcard 64;
  eth_type = wildcard 16;
  vlan_vid = wildcard 16;
  vlan_pcp = wildcard 8;
  ip_dscp = wildcard 8;
  ip_ecn = wildcard 8;
  ip_proto = wildcard 8;
  ipv4_src = wildcard 32;
  ipv4_dst = wildcard 32;
  tcp_src = wildcard 16;
  tcp_dst = wildcard 16;
  udp_src = wildcard 16;
  udp_dst = wildcard 16;
  sctp_src = wildcard 16;
  sctp_dst = wildcard 16;
  icmpv4_type = wildcard 8;
  icmpv4_code = wildcard 8;
  arp_op = wildcard 16;
  arp_spa = wildcard 32;
  arp_tpa = wildcard 32;
  arp_sha = wildcard 64;
  arp_tha = wildcard 64;
  ipv6_src = ipv6_wildcard;
  ipv6_dst = ipv6_wildcard;
  ipv6_flabel = wildcard 32;
  icmpv6_type = wildcard 8;
  icmpv6_code = wildcard 8;
  ipv6_nd_target = ipv6_wildcard;
  ipv6_nd_sll = wildcard 64;
  ipv6_nd_tll = wildcard 64;
  mpls_label = wildcard 32;
  mpls_tc = wildcard 8;
  mpls_bos = wildcard 8;
  pbb_isid = wildcard 32;
  tunnel_id = wildcard 64;
  ipv6_exthdr = wildcard 16;
  pbb_uca = wildcard 8;
  tcp_flags = wildcard 16;
  actset_output = wildcard 32;
  packet_type = wildcard 32;
}

-- The word i of 16 bits, `(val >> (i * 16)) & 0xffff`, of both bounds.
abbrev pub word : ℕ → Range1d → Range1d
word i val = range (val.low / 2 ^ (i * 16) % 2 ^ 16) (val.high / 2 ^ (i * 16) % 2 ^ 16)

-- `fill` of a `Range1d<uint64_t>`, which is also that of an `eth_t`
unfoldable pub fill_64 : Range1d → List Range1d
fill_64 val = word 0 val ∷ word 1 val ∷ word 2 val ∷ word 3 val ∷ []

unfoldable pub fill_eth : Range1d → List Range1d
fill_eth val = word 2 val ∷ word 1 val ∷ word 0 val ∷ []

-- `fill` of a `Range1d<uint16_t>`
abbrev pub fill_16 : Range1d → List Range1d
fill_16 val = val ∷ []

-- `fill` of a `Range1d<ipv6_t>`: the upper words of the bounds, then the lower ones.
unfoldable pub fill_ipv6 : Ipv6Range → List Range1d
unfolding fill_64
fill_ipv6 val =
    fill_64 (range val.low.high val.high.high) ++ fill_64 (range val.low.low val.high.low)

-- The words of `rule_to_array_16b` that are written, from the first one on; the array has 177.
unfoldable pub of_rule_to_array_16b : RuleOf151 → List Range1d
unfolding fill_8 fill_32 fill_64 fill_eth fill_ipv6
of_rule_to_array_16b r =
    fill_32 r.in_port
    ++ fill_32 r.in_phy_port
    ++ fill_64 r.metadata
    ++ fill_eth r.eth_dst
    ++ fill_eth r.eth_src
    ++ fill_16 r.eth_type
    ++ fill_16 r.vlan_vid
    ++ fill_8 r.vlan_pcp
    ++ fill_8 r.ip_dscp
    ++ fill_8 r.ip_ecn
    ++ fill_8 r.ip_proto
    ++ fill_32 r.ipv4_src
    ++ fill_32 r.ipv4_dst
    ++ fill_16 r.tcp_src
    ++ fill_16 r.tcp_dst
    ++ fill_16 r.udp_src
    ++ fill_16 r.udp_dst
    ++ fill_16 r.sctp_src
    ++ fill_16 r.sctp_dst
    ++ fill_8 r.icmpv4_type
    ++ fill_8 r.icmpv4_code
    ++ fill_16 r.arp_op
    ++ fill_32 r.arp_spa
    ++ fill_32 r.arp_tpa
    ++ fill_64 r.arp_sha
    ++ fill_64 r.arp_tha
    ++ fill_ipv6 r.ipv6_src
    ++ fill_ipv6 r.ipv6_dst
    ++ fill_32 r.ipv6_flabel
    ++ fill_8 r.icmpv6_type
    ++ fill_8 r.icmpv6_code
    ++ fill_ipv6 r.ipv6_nd_target
    ++ fill_64 r.ipv6_nd_sll
    ++ fill_64 r.ipv6_nd_tll
    ++ fill_32 r.mpls_label
    ++ fill_8 r.mpls_tc
    ++ fill_8 r.mpls_bos
    ++ fill_32 r.pbb_isid
    ++ fill_64 r.tunnel_id
    ++ fill_16 r.ipv6_exthdr
    ++ fill_8 r.pbb_uca
    ++ fill_16 r.tcp_flags
    ++ fill_32 r.actset_output
    ++ fill_32 r.packet_type
