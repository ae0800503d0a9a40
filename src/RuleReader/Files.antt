-- ===== src/RuleReader/Files.antt =====
-- src/rule_parser/classbench_rule_parser.cpp: `RuleReader::parse_rules` of a file,
-- `RuleReader::parse_packets` and `parse_ruleset_file`. A file is the list of its lines; `std::sort` is
-- a parameter.
pub mod Order
use pclass_vectorized.Prelude.{
  ℕ, zero, suc, ◌+◌, ◌-◌, Bool, true, false, ◌&&◌, List, [], ◌∷◌, ltb, ◌==◌, if◌then◌else◌, length,
}
use pclass_vectorized.Rule.{RuleIpv4Acl, cummulative_prefix_len}
use pclass_vectorized.Rule.OpenFlow.{RuleOf151}
use pclass_vectorized.RuleReader.Text.{
  Result, success, failure, Failure, ◌>>=◌, item, split, atoui, text, words, same_text,
}
use pclass_vectorized.RuleReader.Classbench.{ParsedRule, parse_classbench}
use pclass_vectorized.RuleReader.Msu.{parser_msu}
use pclass_vectorized.RuleReader.Openflow.Lines.{parse_openflow}

-- The rules of a file, by the class of its format.
pub data ParsedRules : Type 0 where
  acl_rules : List ParsedRule → ParsedRules
  of_rules : List RuleOf151 → ParsedRules

abbrev as_acl : Result (List ParsedRule) → Result ParsedRules
as_acl r = r >>= λ rules. success (acl_rules rules)

abbrev as_of : Result (List RuleOf151) → Result ParsedRules
as_of r = r >>= λ rules. success (of_rules rules)

-- The text is longer than the first one, and starts with it.
abbrev pub longer_with : List ℕ → List ℕ → Bool
longer_with [] [] = false
longer_with [] (x ∷ s) = true
longer_with (h ∷ header) [] = false
longer_with (h ∷ header) (x ∷ s) = (h == x) && longer_with header s

abbrev pub of_header : List ℕ
of_header = text "NXST_FLOW reply"

-- The format is that of the first line.
abbrev by_first_line : List ℕ → List (List ℕ) → Result ParsedRules
by_first_line [] lines = failure Failure.io_failure
by_first_line (c ∷ s) lines =
    if c == b'!'
    then as_acl (parser_msu lines)
    else if c == b'@'
    then as_acl (parse_classbench lines)
    else if longer_with of_header (c ∷ s)
    then as_of (parse_openflow lines)
    else failure Failure.io_failure

unfoldable pub parse_rules_file : List (List ℕ) → Result ParsedRules
parse_rules_file [] = failure Failure.io_failure
parse_rules_file (content ∷ lines) = by_first_line content (content ∷ lines)

-- The first `dim` numbers of a line.
unfoldable pub read_numbers : ℕ → List (List ℕ) → Result (List ℕ)
read_numbers zero tokens = success []
read_numbers (suc dim) [] = failure Failure.undefined
read_numbers (suc dim) (t ∷ tokens) =
    let rest = read_numbers dim tokens in rest >>= λ ns. success (atoui t ∷ ns)

unfoldable pub parse_packets : ℕ → List (List ℕ) → Result (List (List ℕ))
parse_packets dim [] = success []
parse_packets dim (content ∷ lines) =
    let rest = parse_packets dim lines in
    read_numbers dim (words content) >>= λ p. rest >>= λ ps. success (p ∷ ps)

-- `rule_specifity_sort_predicate`
abbrev pub more_specific : ParsedRule → ParsedRule → Bool
more_specific a b = ltb (cummulative_prefix_len b.rule) (cummulative_prefix_len a.rule)

-- The loop that gives the rules their priorities, `size - i` to the one at place i.
unfoldable pub with_priorities : ℕ → ℕ → List ParsedRule → List (ParsedRule × ℕ)
with_priorities size i [] = []
with_priorities size i (r ∷ rs) = (r, size - i) ∷ with_priorities size (i + 1) rs

module _ (sort : (ParsedRule → ParsedRule → Bool) → List ParsedRule → List ParsedRule) where
  -- Rules of another class are read as if they were of this one, which is undefined.
  abbrev ranked_rules : ParsedRules → Result (List (ParsedRule × ℕ))
  ranked_rules (of_rules rules) = failure Failure.undefined
  ranked_rules (acl_rules rules) =
      let sorted = sort more_specific rules in success (with_priorities (length sorted) 0 sorted)

  unfoldable pub parse_ruleset_file : List (List ℕ) → Result (List (ParsedRule × ℕ))
  parse_ruleset_file lines = parse_rules_file lines >>= ranked_rules
