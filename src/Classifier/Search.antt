-- ===== src/Classifier/Search.antt =====
-- include/pcv/partition_sort/partition_sort_classifier.h: `search`.
pub mod Best
use pclass_vectorized.Prelude.{
  ℕ, zero, suc, ◌+◌, Bool, true, false, ◌&&◌, ◌||◌, not, ltb, leb, ◌==◌, if◌then◌else◌,
}
use pclass_vectorized.BTree.{RuleValueInt, is_valid, no_rule}
use pclass_vectorized.Classifier.Tree.{TreeOps, TreeInfo, Classifier}

-- The better one of what was found and the result of one more tree.
abbrev pub take_better : RuleValueInt → RuleValueInt → RuleValueInt
take_better found res =
    if is_valid res && (not (is_valid found) || ltb found.priority res.priority) then res else found

module _ {Tree Packet : Type 0} (ops : TreeOps Tree Packet) (c : Classifier Tree)
    (val : Packet) where
  -- The loop at tree i, with `count` trees left.
  unfoldable pub search_loop : ℕ → ℕ → RuleValueInt → RuleValueInt
  search_loop zero i actual_found = actual_found
  search_loop (suc count) i actual_found =
      let found = take_better actual_found (ops.search (c.info (c.trees i)).tree val) in
      let further = search_loop count (i + 1) found in
      if is_valid found
        && (leb c.tree_cnt (i + 1) || leb (c.info (c.trees (i + 1))).max_priority found.priority)
      then found
      else further

  unfoldable pub search : RuleValueInt
  unfolding search_loop
  search = search_loop c.tree_cnt 0 no_rule
