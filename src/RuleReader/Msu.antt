-- ===== src/RuleReader/Msu.antt =====
-- src/rule_parser/classbench_rule_parser.cpp: the MSU format, `parse_range` and `parser_MSU`. The
-- count of columns and the tags are not modelled.
pub mod Fields
use pclass_vectorized.Prelude.{ℕ, zero, suc, ◌+◌, ◌-◌, List, [], ◌∷◌, ltb, if◌then◌else◌, length}
use pclass_vectorized.Range.{Range1d, range}
use pclass_vectorized.Rule.{RuleIpv4Acl, new_rule}
use pclass_vectorized.RuleReader.Text.{Result, success, failure, Failure, ◌>>=◌, item, split, atoui}
use pclass_vectorized.RuleReader.Classbench.{ParsedRule}

abbrev in_order : ℕ → ℕ → Result Range1d
in_order low high = if ltb high low then failure Failure.runtime_error else success (range low high)

unfoldable pub parse_range : List ℕ → Result Range1d
parse_range token = do
  from ← item (split token b':') 0
  to ← item (split token b':') 1
  in_order (atoui from) (atoui to)

-- The loop over the columns but the last one, which is the tag: each one is stored as the source
-- address. An empty line has no column, and its count less one wraps around.
unfoldable pub read_columns : Range1d → List (List ℕ) → Result Range1d
read_columns sip [] = failure Failure.undefined
read_columns sip (x ∷ []) = success sip
read_columns sip (x ∷ y ∷ columns) = parse_range x >>= λ r. read_columns r (y ∷ columns)

-- The loop over the lines of rules; the number of a rule is its first priority.
unfoldable pub read_rules : ℕ → List (List ℕ) → Result (List ParsedRule)
read_rules priority [] = success []
read_rules priority (content ∷ lines) =
    let rest = read_rules (priority + 1) lines in
    read_columns new_rule.sip (split content b',') >>= λ sip. rest >>= λ rs.
    success (record { rule = record new_rule { sip = sip }; priority = priority } ∷ rs)

-- The bounds are read, and not used.
unfoldable pub read_bounds : List (List ℕ) → Result (List Range1d)
read_bounds [] = success []
read_bounds (part ∷ parts) =
    let rest = read_bounds parts in parse_range part >>= λ r. rest >>= λ rs. success (r ∷ rs)

-- `r->priority = rules.size() - r->priority`
unfoldable pub turn_priorities : ℕ → List ParsedRule → List ParsedRule
turn_priorities size [] = []
turn_priorities size (r ∷ rs) = record r { priority = size - r.priority } ∷ turn_priorities size rs

-- The first two lines and the line of the bounds, and the lines of the rules. A missing line reads as
-- an empty one.
abbrev pub bounds_line : List (List ℕ) → List ℕ
bounds_line (a ∷ b ∷ bounds ∷ lines) = bounds
bounds_line _ = []

abbrev pub rule_lines : List (List ℕ) → List (List ℕ)
rule_lines (a ∷ b ∷ bounds ∷ lines) = lines
rule_lines _ = []

unfoldable pub parser_msu : List (List ℕ) → Result (List ParsedRule)
parser_msu lines = do
  bounds ← read_bounds (split (bounds_line lines) b',')
  rules ← read_rules 0 (rule_lines lines)
  success (turn_priorities (length rules) rules)
