-- ===== src/RuleReader/Files/Order.antt =====
-- src/rule_parser/classbench_rule_parser.cpp: the order of the rules of `parse_ruleset_file`.
use mathlib.Core.List.{Perm}
use pclass_vectorized.Prelude.{
  ℕ, ◌+◌, ◌-◌, ◌≤◌, ◌<◌, ◌≡◌, refl, ap, sym, arith, Bool, false, List, [], ◌∷◌, map, length, All,
  subst,
}
use pclass_vectorized.Range.Mask.{get_mask_le, prefix_len_le}
use pclass_vectorized.Rule.{cummulative_prefix_len}
use pclass_vectorized.RuleReader.Text.{success}
use pclass_vectorized.RuleReader.Classbench.{ParsedRule}
use pclass_vectorized.RuleReader.Files.{
  acl_rules, parse_rules_file, more_specific, with_priorities, parse_ruleset_file,
}

-- The lengths of the common prefixes of the bounds of all five fields together.
abbrev pub specificity : ParsedRule → ℕ
specificity r =
    (get_mask_le 4 r.rule.sip).1
    + (get_mask_le 4 r.rule.dip).1
    + (get_mask_le 2 r.rule.sport).1
    + (get_mask_le 2 r.rule.dport).1
    + (get_mask_le 2 r.rule.proto).1

-- No rule stands behind one that `rule_specifity_sort_predicate` puts behind it.
abbrev pub IsSorted : List ParsedRule → Type 0
IsSorted [] = Unit
IsSorted (r ∷ rs) = All (λ s. more_specific s r ≡ false) rs × IsSorted rs

-- What the code relies on of `std::sort` with this predicate.
pub record Sorts (sort : (ParsedRule → ParsedRule → Bool) → List ParsedRule → List ParsedRule)
    : Type 0 where
  pub permutes : (l : List ParsedRule) → Perm (sort more_specific l) l
  pub sorts : (l : List ParsedRule) → IsSorted (sort more_specific l)

-- No rule has a longer prefix than one in front of it.
abbrev IsOrdered : List ParsedRule → Type 0
IsOrdered [] = Unit
IsOrdered (r ∷ rs) = All (λ s. specificity s ≤ specificity r) rs × IsOrdered rs

-- A rule in front of another has the greater priority, and no shorter prefix.
abbrev pub IsRanked : List (ParsedRule × ℕ) → Type 0
IsRanked [] = Unit
IsRanked ((r, p) ∷ out) =
    All (λ s. (s.1 < p) × (specificity s.0 ≤ specificity r)) out × IsRanked out

specificity_eq : (r : ParsedRule) → cummulative_prefix_len r.rule ≡ specificity r
unfolding cummulative_prefix_len prefix_len_le
specificity_eq r = refl

cummulative_prefix_len-le :
    (r s : ParsedRule)
    → more_specific s r ≡ false
    → cummulative_prefix_len s.rule ≤ cummulative_prefix_len r.rule
cummulative_prefix_len-le r s less = ground (arith, less)

specificity-le : (r s : ParsedRule) → more_specific s r ≡ false → specificity s ≤ specificity r
specificity-le r s less =
    subst (λ n. specificity s ≤ n) (specificity_eq r)
      (subst (λ n. n ≤ cummulative_prefix_len r.rule) (specificity_eq s)
        (cummulative_prefix_len-le r s less))

All-specificity :
    (r : ParsedRule) (rs : List ParsedRule)
    → All (λ s. more_specific s r ≡ false) rs
    → All (λ s. specificity s ≤ specificity r) rs
All-specificity r [] all = tt
All-specificity r (s ∷ rs) (less, all) = (specificity-le r s less, All-specificity r rs all)

IsSorted-IsOrdered : (rs : List ParsedRule) → IsSorted rs → IsOrdered rs
IsSorted-IsOrdered [] sorted = tt
IsSorted-IsOrdered (r ∷ rs) (all, sorted) = (All-specificity r rs all, IsSorted-IsOrdered rs sorted)

behind :
    (size i p : ℕ) (r : ParsedRule) (rs : List ParsedRule)
    → size ≡ i + length rs
    → size < p + i
    → All (λ s. specificity s ≤ specificity r) rs
    → All (λ s. (s.1 < p) × (specificity s.0 ≤ specificity r)) (with_priorities size i rs)
unfolding with_priorities
behind size i p r [] e lt h = tt
behind size i p r (s ∷ rs) e lt (hs, more) =
    ((omega arith, hs), behind size (i + 1) p r rs (omega arith) (omega arith) more)

with_priorities-IsRanked :
    (size i : ℕ) (rs : List ParsedRule)
    → size ≡ i + length rs
    → IsOrdered rs
    → IsRanked (with_priorities size i rs)
unfolding with_priorities
with_priorities-IsRanked size i [] e h = tt
with_priorities-IsRanked size i (r ∷ rs) e (first, more) = (
  behind size (i + 1) (size - i) r rs (omega arith) (omega arith) first,
  with_priorities-IsRanked size (i + 1) rs (omega arith) more,
)

rules-with_priorities :
    (size i : ℕ) (rs : List ParsedRule)
    → map (λ (s : ParsedRule × ℕ). s.0) (with_priorities size i rs) ≡ rs
unfolding with_priorities
rules-with_priorities size i [] = refl
rules-with_priorities size i (r ∷ rs) = ap (◌∷◌ r) (rules-with_priorities size (i + 1) rs)

module _ (sort : (ParsedRule → ParsedRule → Bool) → List ParsedRule → List ParsedRule) where
  -- With a sort that permutes and sorts, `parse_ruleset_file` returns the rules of the file in an order
  -- in which the priorities fall, each one below the one in front of it, and the common prefixes of the
  -- bounds of the five fields never get longer, all of them together, so that of two rules the one with
  -- the longer prefixes has the greater priority.
  pub parse_ruleset_file-IsRanked :
      (lines : List (List ℕ)) (rules : List ParsedRule)
      → parse_rules_file lines ≡ success (acl_rules rules)
      → Sorts sort
      → (out : List (ParsedRule × ℕ)) × (parse_ruleset_file sort lines ≡ success out)
        × Perm (map (λ (s : ParsedRule × ℕ). s.0) out) rules
        × IsRanked out
  unfolding parse_ruleset_file
  parse_ruleset_file-IsRanked lines rules h s =
      let sorted = sort more_specific rules in
      let same = rules-with_priorities (length sorted) 0 sorted in
      (
        with_priorities (length sorted) 0 sorted,
        rw h refl,
        subst (λ l. Perm l rules) (sym same) (s.permutes rules),
        with_priorities-IsRanked (length sorted) 0 sorted (omega arith)
            (IsSorted-IsOrdered sorted (s.sorts rules)),
      )
