-- ===== src/Classifier/Tree.antt =====
-- The tree type that the classifier is instantiated with (its template parameter TREE_T), and the
-- classifier's state (`tree_info` and the fields of `PartitionSortClassifer`).
use pclass_vectorized.Prelude.{ℕ, Bool, Option, List}
use pclass_vectorized.Range.{Range1d}
use pclass_vectorized.BTree.{RuleSpec, RuleValueInt}
use pclass_vectorized.Classifier.Maps.{Masks}
use pclass_vectorized.DimensionOrder.{Sort}

-- The operations of TREE_T that the classifier calls; `none` is an exception. `clear` stands for
-- `destroy_node(tree.root); tree.root = nullptr`.
pub record TreeOps (Tree Packet : Type 0) : Type 0 where
  pub search : Tree → Packet → RuleValueInt
  pub does_rule_colide : Tree → RuleSpec → Bool
  pub insert : Tree → RuleSpec → Option Tree
  pub remove : Tree → RuleSpec → Option Tree
  pub clear : Tree → Tree
  pub dimension_order : Tree → List ℕ
  pub set_dimension_order : Tree → List ℕ → Tree

-- The template's numbers, the key type in bits and bytes, and `std::sort`.
pub record ClassifierCfg : Type 0 where
  pub max_tree_cnt : ℕ
  pub tree_fixation_threshold : ℕ
  pub d : ℕ
  pub key_bits : ℕ
  pub key_bytes : ℕ
  pub sort : Sort Range1d
  pub sort_scores : Sort (ℕ × ℕ)

-- `tree_info`
pub record TreeInfo (Tree : Type 0) : Type 0 where
  pub tree : Tree
  pub max_priority : ℕ
  pub used_dim_cnt : ℕ
  pub rules : List RuleSpec
  pub update_pending : Bool
  pub used_rule_masks : Masks

pub record Classifier (Tree : Type 0) : Type 0 where
  pub trees : ℕ → ℕ
  pub info : ℕ → TreeInfo Tree
  pub tree_cnt : ℕ
  pub rule_to_tree : List (RuleSpec × ℕ)
