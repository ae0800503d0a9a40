-- ===== src/Classifier/BTrees/Deepest.antt =====
-- include/pcv/partition_sort/partition_sort_classifier.h and b_tree_impl.h: the classifier over
-- B-trees.
use pclass_vectorized.Prelude.{ℕ, ◌+◌, ◌<◌}
use pclass_vectorized.BTree.{BTreeCfg, RuleValueInt, Tree, no_rule}
use pclass_vectorized.BTree.Search.Meets.{IsTree, IsDeepest}
use pclass_vectorized.BTree.Search.Deepest.{search-IsDeepest}
use pclass_vectorized.Classifier.Tree.{Classifier}
use pclass_vectorized.Classifier.Search.{search}
use pclass_vectorized.Classifier.Search.Best.{TreesSorted, TreesBounded, IsBestOf, search-IsBestOf}
use pclass_vectorized.Classifier.BTrees.{btree_ops}

module _ (cfg : BTreeCfg) (fuel : ℕ) (c : Classifier Tree) (val : ℕ → ℕ) where
  abbrev pub tree_at : ℕ → Tree
  tree_at i = (c.info (c.trees i)).tree

  -- The trees of the classifier are well formed, and the fuel is enough for each.
  abbrev pub AreTrees : Type 0
  AreTrees =
      (i : ℕ)
      → i < c.tree_cnt
      → (h depth : ℕ) × IsTree (tree_at i).node (tree_at i).dimension_order h depth 0
          (tree_at i).root
        × (h + depth < fuel)

  -- A classifier of well-formed B-trees, which stand in descending order of their greatest priority
  -- and find no rule above it: each tree has a deepest rule that the packet meets, or none, and the
  -- search, which may stop before the last tree, returns a valid one of these rules such that none of
  -- them has a greater priority, or the invalid value if there is none.
  pub search-btree_ops :
      AreTrees
      → TreesSorted (btree_ops cfg fuel) c val
      → TreesBounded (btree_ops cfg fuel) c val
      → (deepest : ℕ → RuleValueInt) × ((i : ℕ)
          → i < c.tree_cnt
          → IsDeepest
              (tree_at i).node
              (tree_at i).dimension_order
              val
              (tree_at i).root
              0
              no_rule
              (deepest i))
        × IsBestOf deepest c.tree_cnt (search (btree_ops cfg fuel) c val)
  search-btree_ops trees sorted bounded = (
    (λ i. (btree_ops cfg fuel).search (tree_at i) val),
    (λ i lt.
        let (h, depth, tree, enough) = trees i lt in
        let (r, run, deepest) = search-IsDeepest h depth fuel (tree_at i) val tree enough in
        rw run deepest),
    search-IsBestOf (btree_ops cfg fuel) c val sorted bounded,
  )
