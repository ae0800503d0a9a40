-- ===== src/RuleReader/Msu/Fields.antt =====
-- src/rule_parser/classbench_rule_parser.cpp: the rules that `parser_MSU` returns.
use pclass_vectorized.Prelude.{ℕ, suc, ◌+◌, ◌-◌, ◌≡◌, refl, ap, arith, List, [], ◌∷◌, length, subst}
use pclass_vectorized.Range.{wildcard}
use pclass_vectorized.Rule.{RuleIpv4Acl, new_rule}
use pclass_vectorized.RuleReader.Text.{success, bind-success, split}
use pclass_vectorized.RuleReader.Classbench.{ParsedRule}
use pclass_vectorized.RuleReader.Msu.{
  read_columns, read_rules, read_bounds, turn_priorities, bounds_line, rule_lines, parser_msu,
}

-- Only the source address is set.
abbrev pub OnlySource : RuleIpv4Acl → Type 0
OnlySource r =
    (r.dip ≡ wildcard 32)
    × (r.sport ≡ wildcard 16)
    × (r.dport ≡ wildcard 16)
    × (r.proto ≡ wildcard 16)

-- The rules have the numbers from k on.
abbrev NumbersFrom : ℕ → List ParsedRule → Type 0
NumbersFrom k [] = Unit
NumbersFrom k (r ∷ rs) = OnlySource r.rule × (r.priority ≡ k) × NumbersFrom (k + 1) rs

-- The priority of a rule is the count of the rules from it on.
abbrev pub CountsDown : List ParsedRule → Type 0
CountsDown [] = Unit
CountsDown (r ∷ rs) = OnlySource r.rule × (r.priority ≡ suc (length rs)) × CountsDown rs

success-inj : {A : Type 0} {a b : A} → success a ≡ success b → a ≡ b
success-inj h = cc h

read_rules-NumbersFrom :
    (lines : List (List ℕ)) (k : ℕ) (rs : List ParsedRule)
    → read_rules k lines ≡ success rs
    → NumbersFrom k rs
unfolding read_rules new_rule
read_rules-NumbersFrom [] k [] h = tt
read_rules-NumbersFrom [] k (r ∷ rs) h = cc
read_rules-NumbersFrom (content ∷ lines) k rs h =
    let (sip, read, next) = bind-success (read_columns new_rule.sip (split content b',')) _ h in
    let (rest, read', last) = bind-success (read_rules (k + 1) lines) _ next in
    let r : ParsedRule = record { rule = record new_rule { sip = sip }; priority = k } in
    let whole : r ∷ rest ≡ rs = success-inj last in
    let more = read_rules-NumbersFrom lines (k + 1) rest read' in
    subst (NumbersFrom k) whole ((refl, refl, refl, refl), refl, more)

length-turn_priorities :
    (size : ℕ) (rs : List ParsedRule) → length (turn_priorities size rs) ≡ length rs
unfolding turn_priorities
length-turn_priorities size [] = refl
length-turn_priorities size (r ∷ rs) = ap suc (length-turn_priorities size rs)

turn_priorities-CountsDown :
    (size k : ℕ) (rs : List ParsedRule)
    → NumbersFrom k rs
    → size ≡ k + length rs
    → CountsDown (turn_priorities size rs)
unfolding turn_priorities
turn_priorities-CountsDown size k [] h e = tt
turn_priorities-CountsDown size k (r ∷ rs) (only, number, more) e =
    let same = length-turn_priorities size rs in
    let count : size - r.priority ≡ suc (length (turn_priorities size rs)) = omega (arith, same) in
    (only, count, turn_priorities-CountsDown size (k + 1) rs more (omega arith))

-- Every rule that `parser_MSU` returns has its destination address, ports and protocol open, whatever
-- the columns of the file say: all columns are stored as the source address. The priorities count
-- down from the number of rules to 1.
pub parser_msu-CountsDown :
    (lines : List (List ℕ)) (rules : List ParsedRule)
    → parser_msu lines ≡ success rules
    → CountsDown rules
unfolding parser_msu
parser_msu-CountsDown lines rules h =
    let (bounds, read, next) = bind-success (read_bounds (split (bounds_line lines) b',')) _ h in
    let (rs, read', last) = bind-success (read_rules 0 (rule_lines lines)) _ next in
    subst CountsDown (success-inj last) (
      turn_priorities-CountsDown (length rs) 0 rs
        (read_rules-NumbersFrom (rule_lines lines) 0 rs read') (omega arith))
