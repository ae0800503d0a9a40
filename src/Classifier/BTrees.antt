-- ===== src/Classifier/BTrees.antt =====
-- include/pcv/partition_sort/b_tree_impl.h: `BTreeImp`, the tree that the classifier is instantiated
-- with; it forwards each call to the classes for search, insertion, collision check and removal.
pub mod Deepest
use pclass_vectorized.Prelude.{ℕ, Bool, true, Option, none, some, List}
use pclass_vectorized.Prelude.State.{Run, ok, fail}
use pclass_vectorized.BTree.{BTreeCfg, RuleSpec, RuleValueInt, Tree, no_rule}
use pclass_vectorized.BTree.Navigator
use pclass_vectorized.BTree.Search.Levels
use pclass_vectorized.BTree.Insert
use pclass_vectorized.BTree.Remove
use pclass_vectorized.BTree.CollisionCheck.{does_rule_colide}
use pclass_vectorized.Classifier.Tree.{TreeOps}

-- The interface of the classifier has no faults: a search that fails finds nothing, a collision check
-- that fails refuses the rule, and a change that fails is an exception.
abbrev pub found : Run Tree RuleValueInt → RuleValueInt
found (ok r t) = r
found (fail e) = no_rule

abbrev pub collides : Run Tree Bool → Bool
collides (ok b t) = b
collides (fail e) = true

abbrev pub changed : {A : Type 0} → Run Tree A → Option Tree
changed (ok a t) = some t
changed (fail e) = none

abbrev pub cleared : Tree → Run Tree (Unit {0}) → Tree
cleared t (ok u t') = record t' { root = none }
cleared t (fail e) = record t { root = none }

module _ (cfg : BTreeCfg) (fuel : ℕ) where
  abbrev pub btree_ops : TreeOps Tree (ℕ → ℕ)
  btree_ops = record {
    search = λ t val. found (Levels.search fuel val t);
    does_rule_colide = λ t r. collides (does_rule_colide cfg fuel r t);
    insert = λ t r. changed (Insert.insert cfg fuel r t);
    remove = λ t r. changed (Remove.remove cfg fuel r t);
    clear = λ t. cleared t (Navigator.destroy_node fuel t.root t);
    dimension_order = λ t. t.dimension_order;
    set_dimension_order = λ t order. record t { dimension_order = order };
  }

-- `size` of `BTreeImp`
unfoldable pub keys_size : ℕ → Tree → Option ℕ
keys_size fuel t = elim t.root [ none ↦ some 0 | some p ↦ Navigator.size fuel t.node p ]
