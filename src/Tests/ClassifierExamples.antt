-- ===== src/Tests/ClassifierExamples.antt =====
-- The theorems about the classifiers at concrete inputs. The trees of the example are lists of rules.
use mathlib.Core.List.{Perm}
use mathlib.Core.List.Perm
use pclass_vectorized.Prelude.{
  ℕ, zero, suc, ◌≡◌, refl, true, false, not, none, some, List, [], ◌∷◌, ◌++◌, length, All, arith,
}
use pclass_vectorized.Prelude.State.{Fault, fail}
use pclass_vectorized.Range.{range}
use pclass_vectorized.BTree.{RuleSpec, RuleValueInt}
use pclass_vectorized.DimensionOrder.{is_used, keep, dims_from, resolve}
use pclass_vectorized.DimensionOrder.Permutes.{resolve-perm}
use pclass_vectorized.ListClassifier.{ListBasedClassifier, search_rules, matches, prepare}
use pclass_vectorized.ListClassifier
use pclass_vectorized.ListClassifier.Best.{IsBest, prepare-IsBest}
use pclass_vectorized.Classifier.Tree.{TreeOps, ClassifierCfg, TreeInfo, Classifier}
use pclass_vectorized.Classifier.Search.{search}
use pclass_vectorized.Classifier.Search.Best.{
  TreesSorted, TreesBounded, IsBestOf, found_in, search-IsBestOf,
}
use pclass_vectorized.Classifier.Update.{insert}
use pclass_vectorized.Classifier.Update.Order.{insert-runtime_error}
use pclass_vectorized.Tests.InsertionSort.{
  insertion_sort, insertion_sort-Permutes, insertion_sort-Sorts,
}

abbrev Rules : Type 0
Rules = List RuleSpec

abbrev ops : TreeOps Rules (List ℕ)
ops = record {
  search = search_rules;
  does_rule_colide = λ t r. true;
  insert = λ t r. some (r ∷ t);
  remove = λ t r. some t;
  clear = λ t. [];
  dimension_order = λ t. 0 ∷ 1 ∷ [];
  set_dimension_order = λ t order. t;
}

abbrev cfg : ClassifierCfg
cfg = record {
  max_tree_cnt = 2;
  tree_fixation_threshold = 10;
  d = 2;
  key_bits = 16;
  key_bytes = 2;
  sort = insertion_sort;
  sort_scores = insertion_sort;
}

abbrev rule : ℕ → RuleSpec
rule n = record {
  ranges = range 0 9 ∷ range n n ∷ [];
  value = record { priority = n; rule_id = n };
}

abbrev info_of : ℕ → ℕ → TreeInfo Rules
info_of n priority = record {
  tree = rule n ∷ [];
  max_priority = priority;
  used_dim_cnt = 2;
  rules = rule n ∷ [];
  update_pending = false;
  used_rule_masks = [];
}

-- Two trees, with a rule of priority 5 in the first one and one of priority 3 in the second one.
abbrev infos : ℕ → TreeInfo Rules
infos zero = info_of 5 5
infos (suc p) = info_of 3 3

abbrev two_trees : Classifier Rules
two_trees = record { trees = λ i. i; info = infos; tree_cnt = 2; rule_to_tree = [] }

abbrev packet : List ℕ
packet = 4 ∷ 3 ∷ []

trees_sorted : TreesSorted ops two_trees packet
trees_sorted zero zero less lt = omega arith
trees_sorted zero (suc j) less lt = omega arith
trees_sorted (suc i) zero less lt = omega arith
trees_sorted (suc i) (suc j) less lt = omega arith

trees_bounded : TreesBounded ops two_trees packet
unfolding search_rules matches
trees_bounded zero lt valid = omega arith
trees_bounded (suc i) lt valid = omega arith

search-IsBestOf_example : IsBestOf (found_in ops two_trees packet) 2 (search ops two_trees packet)
search-IsBestOf_example = search-IsBestOf ops two_trees packet trees_sorted trees_bounded

insert-runtime_error_example : insert cfg ops 1 (rule 4) two_trees ≡ fail Fault.runtime_error
insert-runtime_error_example =
    insert-runtime_error cfg ops 0 (rule 4) two_trees (λ i lt. refl) (omega arith)

abbrev listed : ListBasedClassifier
listed = record { rules = rule 3 ∷ rule 5 ∷ []; rules_sorted = false }

prepare-IsBest_example :
    ((best : RuleValueInt) × (ListClassifier.search (prepare insertion_sort listed) packet
        ≡ some best)
      × IsBest (rule 3 ∷ rule 5 ∷ []) packet best)
    × ((r : RuleSpec) → ListClassifier.search (ListClassifier.insert r listed) packet ≡ none)
prepare-IsBest_example = prepare-IsBest insertion_sort listed packet insertion_sort-Sorts

-- Two dimensions, 1 before 0; the rules use both.
abbrev both : List RuleSpec
both = rule 3 ∷ rule 5 ∷ []

is_order : Perm (1 ∷ 0 ∷ []) (dims_from 2 0)
unfolding dims_from
is_order = Perm.swap 0 1 []

resolve-perm_example :
    (front : List ℕ) × (resolve insertion_sort insertion_sort 16 2 both (1 ∷ 0 ∷ [])
      ≡ some (front ++ keep (λ d. not (is_used 16 both d)) (1 ∷ 0 ∷ []), length front))
    × Perm (front ++ keep (λ d. not (is_used 16 both d)) (1 ∷ 0 ∷ [])) (1 ∷ 0 ∷ [])
    × Perm front (keep (is_used 16 both) (dims_from 2 0))
    × All (λ d. is_used 16 both d ≡ true) (keep (is_used 16 both) (dims_from 2 0))
resolve-perm_example =
    resolve-perm insertion_sort insertion_sort 16 2 both (1 ∷ 0 ∷ []) insertion_sort-Permutes
      insertion_sort-Permutes is_order
