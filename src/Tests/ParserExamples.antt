-- ===== src/Tests/ParserExamples.antt =====
-- The theorems about the static pool and about rule files at concrete inputs.
use mathlib.Core.List.{Perm}
use pclass_vectorized.Prelude.{
  ◌+◌, All, ◌%◌, ◌/◌, true, false, length, ℕ, ◌-◌, ◌≡◌, refl, ap, inl, some, List, [], ◌∷◌, arith,
  map,
}
use pclass_vectorized.Range.{range}
use pclass_vectorized.Rule.{RuleIpv4Acl, new_rule}
use pclass_vectorized.Mempool.Slots.{slots}
use pclass_vectorized.Mempool.Static.{zeroed}
use pclass_vectorized.Mempool.Static.Spec.{
  get_call, size_call, release_call, outcomes, free_list_pool,
}
use pclass_vectorized.Mempool.Static.Refines.{static_pool, outcomes-static_pool}
use pclass_vectorized.Rule.OpenFlow.{new_of_rule}
use pclass_vectorized.Rule.OpenFlow.Printer.{
  print_of_rule, print_field, print_ipv6_field, hex_digits,
}
use pclass_vectorized.Range.Mask.{
  get_mask_le, mask_le_loop, get_common_prefix_length, byte_prefix, mask_val,
}
use pclass_vectorized.RuleReader.Text.{numeral, success, ◌>>=◌, text, words, split, atoui, scan}
use pclass_vectorized.RuleReader.Ipv4.{ip_range, four}
use pclass_vectorized.RuleReader.Ipv4.Blocks.{address, block}
use pclass_vectorized.RuleReader.Ipv4.Prefix.{ip_range-block}
use pclass_vectorized.RuleReader.Classbench.{ParsedRule, parse, parse_classbench}
use pclass_vectorized.RuleReader.Printer.{print_rule}
use pclass_vectorized.RuleReader.Printer.RoundTrip.{IsBlock, parse-print_rule}
use pclass_vectorized.RuleReader.Printer.File.{IsAclRule, ranked, parse_classbench-print_rule}
use pclass_vectorized.RuleReader.Openflow.Values.{read_ip}
use pclass_vectorized.RuleReader.Openflow.Lines.{parse_openflow}
use pclass_vectorized.RuleReader.Openflow.Termination.{Ends, parse_openflow-Ends}
use pclass_vectorized.RuleReader.Openflow.Fields.{read_ip_three}
use pclass_vectorized.RuleReader.Files.{acl_rules, parse_rules_file, parse_ruleset_file}
use pclass_vectorized.RuleReader.Files.Order.{IsRanked, parse_ruleset_file-IsRanked}
use pclass_vectorized.Tests.InsertionSort.{insertion_sort, insertion_sort-SortsParsed}
use pclass_vectorized.Rule.Halves.{in_rule}
use pclass_vectorized.Trace.{random_corner, generate_packets_from_ruleset}
use pclass_vectorized.Trace.Corners.{IsRule, packet_rule, seven_words, random_corner-in_rule}
use pclass_vectorized.Trace.Packets.{OnSuccess, MeetsOne, generate_packets_from_ruleset-MeetsOne}
use pclass_vectorized.RuleReader.Msu.{
  parser_msu, parse_range, read_columns, read_rules, read_bounds, turn_priorities,
}
use pclass_vectorized.RuleReader.Msu.Fields.{CountsDown, parser_msu-CountsDown}

outcomes-static_pool_example :
    outcomes
      (static_pool 2)
      (get_call ∷ get_call ∷ get_call ∷ release_call 0 ∷ release_call 0 ∷ size_call ∷ [])
      zeroed
    ≡ outcomes
        (free_list_pool 2)
        (get_call ∷ get_call ∷ get_call ∷ release_call 0 ∷ release_call 0 ∷ size_call ∷ [])
        (slots 2 0)
outcomes-static_pool_example =
    outcomes-static_pool 1 (get_call ∷ get_call ∷ release_call 0 ∷ release_call 0 ∷ size_call ∷ [])
      (tt, (tt, (omega arith, (omega arith, (tt, tt)))))

ip_range-block_example : ip_range (four 10 1 2 3) 20 ≡ success (block (address 10 1 2 3) (32 - 20))
ip_range-block_example =
    ip_range-block 10 1 2 3 (omega arith) (omega arith) (omega arith) (omega arith) 20 (omega arith)

-- @10.0.0.0/8 192.168.1.1/32 0 : 65535 80 : 80 0x06/0xFF
abbrev web_rule : RuleIpv4Acl
web_rule = record {
  sip = range 167772160 184549375;
  dip = range 3232235777 3232235777;
  sport = range 0 65535;
  dport = range 80 80;
  proto = range 6 6;
}

net_10 : IsBlock (range 167772160 184549375)
net_10 = (10, 24, omega arith, refl, omega arith)

host : IsBlock (range 3232235777 3232235777)
host = (3232235777, 0, omega arith, refl, omega arith)

parse-print_rule_example :
    parse (words (print_rule web_rule)) 7 ≡ success (record { rule = web_rule; priority = 7 })
parse-print_rule_example =
    parse-print_rule web_rule 7 net_10 host (omega arith, omega arith) (omega arith, omega arith)
      (inl (omega arith, refl))

web_rule-IsAclRule : IsAclRule web_rule
web_rule-IsAclRule = record {
  sip_block = net_10;
  dip_block = host;
  sport_fits = (omega arith, omega arith);
  dport_fits = (omega arith, omega arith);
  proto_printable = inl (omega arith, refl);
}

parse_classbench-print_rule_example :
    parse_classbench (map print_rule (web_rule ∷ web_rule ∷ []))
    ≡ success (ranked (web_rule ∷ web_rule ∷ []))
parse_classbench-print_rule_example =
    parse_classbench-print_rule web_rule (web_rule ∷ [])
      (web_rule-IsAclRule, (web_rule-IsAclRule, tt))

abbrev dump : List (List ℕ)
dump = text "NXST_FLOW reply (xid=0x4):" ∷ text "in_port=1,dl_vlan=10 tp_dst=80 actions=drop" ∷ []

parse_openflow-Ends_example : Ends (parse_openflow dump)
parse_openflow-Ends_example = parse_openflow-Ends dump

read_ip_three_example :
    read_ip (range 0 5) (record { pos = 7; rest = some (text "192.168.1.1,") })
    ≡ success (range 0 5, record { pos = 7; rest = some (text "192.168.1.1,") })
read_ip_three_example = read_ip_three (range 0 5) 7 b'1' b'9' b'2' (text ".168.1.1,") refl refl refl

abbrev msu_file : List (List ℕ)
msu_file = text "!" ∷ text "a,b" ∷ text "0:9,0:9" ∷ text "1:2,3:4,5" ∷ text "0:9,7:8,6" ∷ []

abbrev msu_rules : List ParsedRule
msu_rules =
    record { rule = record new_rule { sip = range 3 4 }; priority = 2 }
    ∷ record { rule = record new_rule { sip = range 7 8 }; priority = 1 }
    ∷ []

msu_file-parsed : parser_msu msu_file ≡ success msu_rules
unfolding parser_msu parse_range read_columns read_rules read_bounds turn_priorities split atoui
    scan
msu_file-parsed = refl

parser_msu-CountsDown_example : CountsDown msu_rules
parser_msu-CountsDown_example = parser_msu-CountsDown msu_file msu_rules msu_file-parsed

-- The rule of the whole of 10.0.0.0/8, in front of the more specific one.
abbrev net_rule : RuleIpv4Acl
net_rule = record web_rule { dip = range 0 4294967295 }

everything : IsBlock (range 0 4294967295)
everything = (0, 32, omega arith, refl, omega arith)

net_rule-IsAclRule : IsAclRule net_rule
net_rule-IsAclRule = record {
  sip_block = net_10;
  dip_block = everything;
  sport_fits = (omega arith, omega arith);
  dport_fits = (omega arith, omega arith);
  proto_printable = inl (omega arith, refl);
}

abbrev two_lines : List (List ℕ)
two_lines = map print_rule (net_rule ∷ web_rule ∷ [])

two_lines-read :
    parse_rules_file two_lines ≡ success (acl_rules (ranked (net_rule ∷ web_rule ∷ [])))
unfolding parse_rules_file print_rule
two_lines-read =
    ap (λ r. r >>= λ rules. success (acl_rules rules))
      (parse_classbench-print_rule net_rule (web_rule ∷ [])
        (net_rule-IsAclRule, (web_rule-IsAclRule, tt)))

parse_ruleset_file-IsRanked_example :
    (out : List (ParsedRule × ℕ)) × (parse_ruleset_file insertion_sort two_lines ≡ success out)
    × Perm (map (λ (s : ParsedRule × ℕ). s.0) out) (ranked (net_rule ∷ web_rule ∷ []))
    × IsRanked out
parse_ruleset_file-IsRanked_example =
    parse_ruleset_file-IsRanked insertion_sort two_lines (ranked (net_rule ∷ web_rule ∷ []))
      two_lines-read insertion_sort-SortsParsed

-- A generator of bits and numbers: the bits of a number, the lowest first.
abbrev draw : ℕ → ℕ → ℕ × ℕ
draw n rand = (rand % (n + 1), rand / 2)

web_rule-IsRule : IsRule web_rule
web_rule-IsRule = record {
  sip_32 = (omega arith, omega arith);
  dip_32 = (omega arith, omega arith);
  sport_16 = (omega arith, omega arith);
  dport_16 = (omega arith, omega arith);
  proto_16 = (omega arith, omega arith);
  sip_le = omega arith;
  dip_le = omega arith;
  sport_le = omega arith;
  dport_le = omega arith;
  proto_le = omega arith;
}

random_corner-in_rule_example :
    in_rule web_rule
      (packet_rule true (seven_words (random_corner draw web_rule true (λ i. 0) 21).0))
    ≡ true
random_corner-in_rule_example = random_corner-in_rule draw web_rule true (λ i. 0) 21 web_rule-IsRule

generate_packets_from_ruleset-MeetsOne_example :
    OnSuccess
      (λ out. (length out ≡ 2) × All (MeetsOne (web_rule ∷ []) false) out)
      (generate_packets_from_ruleset draw (web_rule ∷ []) 2 false 5)
generate_packets_from_ruleset-MeetsOne_example =
    generate_packets_from_ruleset-MeetsOne draw (web_rule ∷ []) 2 false 5 (web_rule-IsRule, tt)

-- The IP protocol, which is a `uint8_t`, is printed as a character.
print_of_rule_proto :
    print_of_rule (record new_of_rule {
      in_port = range 7 7;
      vlan_vid = range 0x100 0x1ff;
      ip_proto = range 65 65;
    })
    ≡ text " in_port=7, vlan_vid=0x100/0xff00, ip_proto=A"
unfolding print_of_rule new_of_rule print_field print_ipv6_field hex_digits numeral get_mask_le
    mask_le_loop get_common_prefix_length byte_prefix mask_val
print_of_rule_proto = refl
