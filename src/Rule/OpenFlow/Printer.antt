-- ===== src/Rule/OpenFlow/Printer.antt =====
-- src/rule_parser/classbench_rule_parser.cpp: `operator<<` of `Rule_OF_1_5_1` and of `ipv6_t`.
use pclass_vectorized.Prelude.{
  ℕ, zero, suc, ◌+◌, ◌-◌, ◌*◌, ◌/◌, ◌%◌, ◌^◌, Bool, true, false, ◌&&◌, List, [], ◌∷◌, ◌++◌, ltb,
  ◌==◌, if◌then◌else◌,
}
use pclass_vectorized.Range.{Range1d, range, is_wildcard}
use pclass_vectorized.Range.Mask.{byte_at, get_mask_le}
use pclass_vectorized.Rule.OpenFlow.{Ipv6, Ipv6Range, RuleOf151, ipv6, eq_ipv6}
use pclass_vectorized.RuleReader.Text.{text, decimal}

-- A number as `<<` prints it with `std::hex`; 16 digits are enough for 64 bits.
unfoldable pub hex_digits : ℕ → ℕ → List ℕ
hex_digits zero n = []
hex_digits (suc fuel) n =
    let rest = hex_digits fuel (n / 16) in
    let d = n % 16 in
    let c = if ltb d 10 then b'0' + d else b'a' + (d - 10) in
    if ltb n 16 then c ∷ [] else rest ++ c ∷ []

-- The bytes in memory as one number: the upper word stands first.
abbrev pub joined : Ipv6 → ℕ
joined a = a.high + a.low * 2 ^ 64

-- The bytes from place i on, of n.
unfoldable pub print_bytes : ℕ → ℕ → ℕ → List ℕ
print_bytes v i zero = []
print_bytes v i (suc zero) = hex_digits 16 (byte_at v i)
print_bytes v i (suc (suc n)) = hex_digits 16 (byte_at v i) ++ b':' ∷ print_bytes v (i + 1) (suc n)

unfoldable pub print_ipv6 : Ipv6 → List ℕ
print_ipv6 a = print_bytes (joined a) 0 16

-- The text so far, and whether a field was printed.
pub record Printed : Type 0 where
  pub written : List ℕ
  pub something_was_before : Bool

-- A value of w bits; a `uint8_t` is printed as a character.
abbrev pub print_value : ℕ → ℕ → List ℕ
print_value w n = if w == 8 then n ∷ [] else decimal n

abbrev pub print_hex_value : ℕ → ℕ → List ℕ
print_hex_value w n = if w == 8 then n ∷ [] else hex_digits 16 n

-- The separator and the name, and what follows it.
abbrev pub add_field : List ℕ → List ℕ → Printed → Printed
add_field name value p = record {
  written =
      p.written ++ (if p.something_was_before then text ", " else text " ") ++ name ++ b'=' ∷ value;
  something_was_before = true;
}

-- `OF_range_printer::print` of a range of w bits
unfoldable pub print_field : ℕ → List ℕ → Range1d → Printed → Printed
print_field w name val p =
    if is_wildcard w val
    then p
    else add_field name
        (if val.high == val.low
          then print_value w val.low
          else text "0x"
            ++ print_hex_value w val.low
            ++ text "/0x"
            ++ print_hex_value w (get_mask_le (w / 8) val).0)
        p

-- and of a range of IPv6 addresses; `std::numeric_limits<ipv6_t>::max()` is 0.
unfoldable pub print_ipv6_field : List ℕ → Ipv6Range → Printed → Printed
print_ipv6_field name val p =
    let mask = (get_mask_le 16 (range (joined val.low) (joined val.high))).0 in
    if eq_ipv6 val.low (ipv6 0) && eq_ipv6 val.high (ipv6 0)
    then p
    else add_field name
        (if eq_ipv6 val.high val.low
          then print_ipv6 val.low
          else text "0x"
            ++ print_ipv6 val.low
            ++ text "/0x"
            ++ print_ipv6 (record { high = mask % 2 ^ 64; low = mask / 2 ^ 64 }))
        p

abbrev pub print_all : List (Printed → Printed) → Printed → Printed
print_all [] p = p
print_all (f ∷ fields) p = print_all fields (f p)

unfoldable pub print_of_rule : RuleOf151 → List ℕ
print_of_rule r =
    (print_all
      (print_field 32 (text "in_port") r.in_port
        ∷ print_field 32 (text "in_phy_port") r.in_phy_port
        ∷ print_field 64 (text "metadata") r.metadata
        ∷ print_field 64 (text "eth_dst") r.eth_dst
        ∷ print_field 64 (text "eth_src") r.eth_src
        ∷ print_field 16 (text "eth_type") r.eth_type
        ∷ print_field 16 (text "vlan_vid") r.vlan_vid
        ∷ print_field 8 (text "vlan_pcp") r.vlan_pcp
        ∷ print_field 8 (text "ip_dscp") r.ip_dscp
        ∷ print_field 8 (text "ip_ecn") r.ip_ecn
        ∷ print_field 8 (text "ip_proto") r.ip_proto
        ∷ print_field 32 (text "ipv4_src") r.ipv4_src
        ∷ print_field 32 (text "ipv4_dst") r.ipv4_dst
        ∷ print_field 16 (text "tcp_src") r.tcp_src
        ∷ print_field 16 (text "tcp_dst") r.tcp_dst
        ∷ print_field 16 (text "udp_src") r.udp_src
        ∷ print_field 16 (text "udp_dst") r.udp_dst
        ∷ print_field 16 (text "sctp_src") r.sctp_src
        ∷ print_field 16 (text "sctp_dst") r.sctp_dst
        ∷ print_field 8 (text "icmpv4_type") r.icmpv4_type
        ∷ print_field 8 (text "icmpv4_code") r.icmpv4_code
        ∷ print_field 16 (text "arp_op") r.arp_op
        ∷ print_field 32 (text "arp_spa") r.arp_spa
        ∷ print_field 32 (text "arp_tpa") r.arp_tpa
        ∷ print_field 64 (text "arp_sha") r.arp_sha
        ∷ print_field 64 (text "arp_tha") r.arp_tha
        ∷ print_ipv6_field (text "ipv6_src") r.ipv6_src
        ∷ print_ipv6_field (text "ipv6_dst") r.ipv6_dst
        ∷ print_field 32 (text "ipv6_flabel") r.ipv6_flabel
        ∷ print_field 8 (text "icmpv6_type") r.icmpv6_type
        ∷ print_field 8 (text "icmpv6_code") r.icmpv6_code
        ∷ print_ipv6_field (text "ipv6_nd_target") r.ipv6_nd_target
        ∷ print_field 64 (text "ipv6_nd_sll") r.ipv6_nd_sll
        ∷ print_field 64 (text "ipv6_nd_tll") r.ipv6_nd_tll
        ∷ print_field 32 (text "mpls_label") r.mpls_label
        ∷ print_field 8 (text "mpls_tc") r.mpls_tc
        ∷ print_field 8 (text "mpls_bos") r.mpls_bos
        ∷ print_field 32 (text "pbb_isid") r.pbb_isid
        ∷ print_field 64 (text "tunnel_id") r.tunnel_id
        ∷ print_field 16 (text "ipv6_exthdr") r.ipv6_exthdr
        ∷ print_field 8 (text "pbb_uca") r.pbb_uca
        ∷ print_field 16 (text "tcp_flags") r.tcp_flags
        ∷ print_field 32 (text "actset_output") r.actset_output
        ∷ print_field 32 (text "packet_type") r.packet_type
        ∷ [])
      (record { written = []; something_was_before = false })).written
