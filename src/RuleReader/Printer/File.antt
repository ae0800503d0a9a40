-- ===== src/RuleReader/Printer/File.antt =====
-- src/rule_parser/classbench_rule_parser.cpp: whole files of printed rules.
use pclass_vectorized.Prelude.{
  ℕ, suc, ◌+◌, ◌-◌, ◌≡◌, refl, ap, arith, List, [], ◌∷◌, map, length, All,
}
use pclass_vectorized.Rule.{RuleIpv4Acl}
use pclass_vectorized.RuleReader.Text.{success}
use pclass_vectorized.RuleReader.Classbench.{
  ParsedRule, parse_rules, set_priorities, parse_classbench,
}
use pclass_vectorized.RuleReader.Printer.{print_rule}
use pclass_vectorized.RuleReader.Printer.Protocol.{IsPrintable}
use pclass_vectorized.RuleReader.Printer.RoundTrip.{IsBlock, IsPort, parse-print_rule}

-- The rules that a ClassBench line can hold.
pub record IsAclRule (r : RuleIpv4Acl) : Type 0 where
  pub sip_block : IsBlock r.sip
  pub dip_block : IsBlock r.dip
  pub sport_fits : IsPort r.sport
  pub dport_fits : IsPort r.dport
  pub proto_printable : IsPrintable r.proto

-- The rules with the numbers of their lines from k on.
abbrev numbered : ℕ → List RuleIpv4Acl → List ParsedRule
numbered k [] = []
numbered k (r ∷ rs) = record { rule = r; priority = k } ∷ numbered (k + 1) rs

-- The rules with the number of the rules behind each one.
abbrev pub ranked : List RuleIpv4Acl → List ParsedRule
ranked [] = []
ranked (r ∷ rs) = record { rule = r; priority = length rs } ∷ ranked rs

parse_rules-print_rule :
    (rs : List RuleIpv4Acl) (k : ℕ)
    → All IsAclRule rs
    → parse_rules (map print_rule rs) k ≡ success (numbered k rs)
unfolding parse_rules
parse_rules-print_rule [] k h = refl
parse_rules-print_rule (r ∷ rs) k (hr, hs) =
    rw
      (parse-print_rule r k hr.sip_block hr.dip_block hr.sport_fits hr.dport_fits
        hr.proto_printable)
      (rw (parse_rules-print_rule rs (k + 1) hs) refl)

length-numbered : (rs : List RuleIpv4Acl) (k : ℕ) → length (numbered k rs) ≡ length rs
length-numbered [] k = refl
length-numbered (r ∷ rs) k = ap suc (length-numbered rs (k + 1))

set_priorities-numbered :
    (rs : List RuleIpv4Acl) (max_pri i k : ℕ)
    → max_pri + 1 ≡ i + length rs
    → set_priorities max_pri i (numbered k rs) ≡ ranked rs
unfolding set_priorities
set_priorities-numbered [] max_pri i k h = refl
set_priorities-numbered (r ∷ rs) max_pri i k h =
    let behind : max_pri - i ≡ length rs = omega arith in
    let rest = set_priorities-numbered rs max_pri (i + 1) (k + 1) (omega arith) in cc (behind, rest)

-- A file with the lines of rules is read as these rules in this order, each one with the number of
-- the rules behind it as its priority, so that an earlier rule has a greater priority.
pub parse_classbench-print_rule :
    (r : RuleIpv4Acl) (rs : List RuleIpv4Acl)
    → All IsAclRule (r ∷ rs)
    → parse_classbench (map print_rule (r ∷ rs)) ≡ success (ranked (r ∷ rs))
unfolding parse_classbench
parse_classbench-print_rule r rs h = rw (parse_rules-print_rule (r ∷ rs) 0 h) (
    ap success (
      set_priorities-numbered (r ∷ rs) (length (numbered 0 (r ∷ rs)) - 1) 0 0
        (omega (arith, length-numbered rs (0 + 1)))))
