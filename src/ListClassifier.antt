-- ===== src/ListClassifier.antt =====
-- benchmarks/list/list_classifier.h: the classifier that looks at one rule after the other
-- (`ListBasedClassifier`). `std::sort` is a parameter.
pub mod Best
use pclass_vectorized.Prelude.{
  ℕ, zero, suc, Bool, true, false, ◌&&◌, not, Option, none, some, List, [], ◌∷◌, ◌++◌, ltb, ◌==◌,
  if◌then◌else◌,
}
use pclass_vectorized.Range.{Range1d, in_range, eq_range}
use pclass_vectorized.BTree.{RuleSpec, RuleValueInt, no_rule, eq_value}
use pclass_vectorized.DimensionOrder.{Sort}

pub record ListBasedClassifier : Type 0 where
  pub rules : List RuleSpec
  pub rules_sorted : Bool

abbrev pub new : ListBasedClassifier
new = record { rules = []; rules_sorted = true }

unfoldable pub insert : RuleSpec → ListBasedClassifier → ListBasedClassifier
insert r c = record { rules = c.rules ++ r ∷ []; rules_sorted = false }

-- The comparator of `prepare`: the greater priority first.
abbrev pub before : RuleSpec → RuleSpec → Bool
before a b = ltb b.value.priority a.value.priority

unfoldable pub prepare : Sort RuleSpec → ListBasedClassifier → ListBasedClassifier
prepare sort c = record { rules = sort before c.rules; rules_sorted = true }

-- Every range of the rule holds the value of its field.
unfoldable pub matches : List Range1d → List ℕ → Bool
matches [] v = true
matches (r ∷ rs) [] = true
matches (r ∷ rs) (x ∷ v) = in_range r x && matches rs v

unfoldable pub search_rules : List RuleSpec → List ℕ → RuleValueInt
unfolding matches
search_rules [] v = no_rule
search_rules (r ∷ rs) v = if matches r.ranges v then r.value else search_rules rs v

-- `search`; `none` is the runtime error of a search before `prepare`.
unfoldable pub search : ListBasedClassifier → List ℕ → Option RuleValueInt
unfolding search_rules
search c v = if not c.rules_sorted then none else some (search_rules c.rules v)

-- `operator==` of `rule_spec_t`
unfoldable pub eq_ranges : List Range1d → List Range1d → Bool
eq_ranges [] [] = true
eq_ranges [] (b ∷ bs) = false
eq_ranges (a ∷ as') [] = false
eq_ranges (a ∷ as') (b ∷ bs) = eq_range a b && eq_ranges as' bs

unfoldable pub eq_rule : RuleSpec → RuleSpec → Bool
unfolding eq_ranges
eq_rule a b = eq_ranges a.ranges b.ranges && eq_value a.value b.value

unfoldable pub remove_rule : RuleSpec → List RuleSpec → List RuleSpec
unfolding eq_rule
remove_rule r [] = []
remove_rule r (x ∷ xs) = if eq_rule x r then remove_rule r xs else x ∷ remove_rule r xs

unfoldable pub remove : RuleSpec → ListBasedClassifier → ListBasedClassifier
unfolding remove_rule
remove r c = record c { rules = remove_rule r c.rules }
