-- ===== src/RuleReader/Classbench.antt =====
-- src/rule_parser/classbench_rule_parser.cpp: the ClassBench format, `parse_port`, `parse_protocol`,
-- `parse`, `parse_rules` of a stream and `parse_classbench`.
use pclass_vectorized.Prelude.{
  ℕ, ◌+◌, ◌-◌, ◌%◌, ◌^◌, Bool, true, false, not, none, some, List, [], ◌∷◌, leb, ◌==◌,
  if◌then◌else◌, length,
}
use pclass_vectorized.Range.{Range1d, range, max_value}
use pclass_vectorized.Rule.{RuleIpv4Acl}
use pclass_vectorized.RuleReader.Text.{
  Result, success, failure, Failure, ◌>>=◌, item, split, atoui, text, same_text, skip_spaces, digit,
  scan, words,
}
use pclass_vectorized.RuleReader.Ipv4.{parse_ip_range}

-- A rule with the priority that it inherits from `iParsedRule`. The tag of this format stays -1.
pub record ParsedRule : Type 0 where
  pub rule : RuleIpv4Acl
  pub priority : ℕ

unfoldable pub parse_port : List ℕ → List ℕ → Range1d
parse_port from to = range (atoui from % 2 ^ 16) (atoui to % 2 ^ 16)

-- `std::stoul(s, nullptr, 16)`: an optional sign, an optional 0x in front of a digit, and digits.
abbrev has_digit : ℕ → List ℕ → Bool
has_digit base [] = false
has_digit base (c ∷ s) = elim (digit base c) [ none ↦ false | some _ ↦ true ]

abbrev skip_0x : List ℕ → List ℕ
skip_0x (z ∷ x ∷ s) =
    if z == b'0'
    then if x == b'x' then if has_digit 16 s then s else z ∷ x ∷ s else z ∷ x ∷ s
    else z ∷ x ∷ s
skip_0x s = s

abbrev stoul_unsigned : Bool → List ℕ → Result ℕ
stoul_unsigned minus s =
    let v = scan 16 0 (skip_0x s) in
    if not (has_digit 16 s)
    then failure Failure.invalid_argument
    else if leb (2 ^ 64) v
    then failure Failure.out_of_range
    else success (if minus then (2 ^ 64 - v) % 2 ^ 64 else v)

abbrev stoul_signed : List ℕ → Result ℕ
stoul_signed [] = failure Failure.invalid_argument
stoul_signed (c ∷ s) =
    if c == b'-'
    then stoul_unsigned true s
    else if c == b'+'
    then stoul_unsigned false s
    else stoul_unsigned false (c ∷ s)

unfoldable pub stoul_16 : List ℕ → Result ℕ
stoul_16 s = stoul_signed (skip_spaces s)

abbrev exact_protocol : List (List ℕ) → Result Range1d
exact_protocol split_slash = do
  value ← item split_slash 0
  v ← stoul_16 value
  success (range (v % 2 ^ 16) (v % 2 ^ 16))

unfoldable pub parse_protocol : List ℕ → Result Range1d
parse_protocol last_token = do
  let split_slash = split last_token b'/'
  mask ← item split_slash 1
  if same_text mask (text "0xFF")
      then exact_protocol split_slash
      else success (range 0 (max_value 16))

-- The first token begins with `@`; the rest of it is returned.
unfoldable pub after_at : List (List ℕ) → Result (List ℕ)
after_at tokens = do
  t ← item tokens 0
  c ← item t 0
  if c == b'@' then success (drop_first t) else failure Failure.runtime_error
  where
    drop_first : List ℕ → List ℕ
    drop_first [] = []
    drop_first (c ∷ s) = s

unfoldable pub parse : List (List ℕ) → ℕ → Result ParsedRule
parse tokens cost = do
  first ← after_at tokens
  sip ← parse_ip_range first
  t1 ← item tokens 1
  dip ← parse_ip_range t1
  t2 ← item tokens 2
  t4 ← item tokens 4
  let sport = parse_port t2 t4
  t5 ← item tokens 5
  t7 ← item tokens 7
  let dport = parse_port t5 t7
  t8 ← item tokens 8
  proto ← parse_protocol t8
  success record {
    rule = record { sip = sip; dip = dip; sport = sport; dport = dport; proto = proto };
    priority = cost;
  }

-- `parse_rules` of a stream: every line is a rule, its number the cost.
unfoldable pub parse_rules : List (List ℕ) → ℕ → Result (List ParsedRule)
parse_rules [] line_number = success []
parse_rules (content ∷ lines) line_number =
    let rest = parse_rules lines (line_number + 1) in
    parse (words content) line_number >>= λ r. rest >>= λ rs. success (r ∷ rs)

-- The loop of `parse_classbench` over the rules from place i on.
unfoldable pub set_priorities : ℕ → ℕ → List ParsedRule → List ParsedRule
set_priorities max_pri i [] = []
set_priorities max_pri i (r ∷ rs) =
    record r { priority = max_pri - i } ∷ set_priorities max_pri (i + 1) rs

unfoldable pub parse_classbench : List (List ℕ) → Result (List ParsedRule)
parse_classbench lines = do
  rules ← parse_rules lines 0
  success (set_priorities (length rules - 1) 0 rules)
