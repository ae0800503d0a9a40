-- ===== src/Tests/TreeExamples.antt =====
-- The theorems about one level and about all levels of the B-tree, and about its leaves, at a tree of
-- three levels: an inner node with two leaves, one of which has a compressed node under its key.
use pclass_vectorized.Prelude.{
  ℕ, zero, suc, ◌+◌, ◌-◌, ◌*◌, ◌<◌, ◌≤◌, ◌≡◌, ◌≢◌, refl, inl, inr, true, false, ltb, if◌then◌else◌,
  Option, none, some, [], ◌∷◌, arith,
}
use pclass_vectorized.Prelude.State.{ok}
use pclass_vectorized.Range.{Range1d, range}
use pclass_vectorized.Mempool.Dynamic.{new}
use pclass_vectorized.BTree.{BTreeCfg, Ptr, Node, Tree, RuleValueInt, no_rule, get_key}
use pclass_vectorized.BTree.Search.{point, search_seq, search_possition_1d, find_key}
use pclass_vectorized.BTree.Search.Sequential.{
  KeysSorted, Locates, IsLeast, search_seq-Locates, find_key-IsLeast,
}
use pclass_vectorized.BTree.Search.Level.{
  Holds, IsLevel, FindsIn, Holds-leaf, search_possition_1d-FindsIn,
}
use pclass_vectorized.BTree.Search.Levels.{search, search_rest_of_path_in_compressed_node}
use pclass_vectorized.Classifier.Tree.{TreeInfo, Classifier}
use pclass_vectorized.Classifier.Search
use pclass_vectorized.Classifier.Search.Best.{TreesSorted, TreesBounded, IsBestOf}
use pclass_vectorized.Classifier.BTrees.{btree_ops}
use pclass_vectorized.Classifier.BTrees.Deepest.{AreTrees, search-btree_ops}
use pclass_vectorized.BTree.Search.Meets.{IsCompressed, IsTree, IsDeepest}
use pclass_vectorized.BTree.Search.Deepest.{search-IsDeepest}
use pclass_vectorized.BTree.Search.Packet.{get_val, default_in_packet_position, bytes_of}
use pclass_vectorized.BTree.Search.Bytes.{get_val-bytes_of}
use pclass_vectorized.BTree.Insert.Cookie.{InsertCookie, actual_key}
use pclass_vectorized.BTree.Insert.{insert_non_full}
use pclass_vectorized.BTree.Remove.Rebalance.{remove_from_leaf}
use pclass_vectorized.BTree.LeafKeys.{SameBut}
use pclass_vectorized.BTree.LeafKeys.Insertion.{insert_non_full-KeysSorted}
use pclass_vectorized.BTree.LeafKeys.Removal.{remove_from_leaf-KeysSorted}

abbrev one_key : Range1d → RuleValueInt → Option Ptr → Node
one_key r v next = record {
  keys = λ _. r;
  dim_index = λ _. 0;
  value = λ _. v;
  next_level = λ _. next;
  child_index = λ _. none;
  key_mask = 1;
  key_cnt = 1;
  is_leaf = true;
  is_compressed = false;
  parent = none;
}

abbrev rule_7 : RuleValueInt
rule_7 = record { priority = 7; rule_id = 7 }

abbrev children : ℕ → Option Ptr
children zero = some 1
children (suc j) = some 2

abbrev packed_keys : ℕ → Range1d
packed_keys zero = range 7 7
packed_keys (suc i) = range 4 4

abbrev packed_values : ℕ → RuleValueInt
packed_values zero = no_rule
packed_values (suc i) = rule_7

-- Two keys of the dimensions 1 and 2, with a rule at the second one.
abbrev packed_node : Node
packed_node = record (one_key (range 7 7) no_rule none) {
  keys = packed_keys;
  dim_index = λ i. i + 1;
  value = packed_values;
  key_cnt = 2;
  is_compressed = true;
}

abbrev nodes : Ptr → Node
nodes zero = record (one_key (range 5 6) no_rule none) { is_leaf = false; child_index = children }
nodes (suc zero) = one_key (range 1 2) no_rule (some 3)
nodes (suc (suc zero)) = one_key (range 8 9) no_rule none
nodes (suc (suc (suc p))) = packed_node

abbrev two_levels : Tree
two_levels = record { node = nodes; pool = new 64; root = some 0; dimension_order = 0 ∷ 1 ∷ 2 ∷ [] }

abbrev packet : ℕ → ℕ
packet zero = 2
packet (suc zero) = 7
packet (suc (suc d)) = 4

root_sorted : KeysSorted (nodes 0).keys 1
root_sorted = ((λ i lt. omega arith), λ i j less lt. absurd (omega arith))

leaf_1 : IsLevel nodes 1 (some 1)
leaf_1 = (((λ i lt. omega arith), λ i j less lt. absurd (omega arith)), refl, λ inner. cc)

leaf_2 : IsLevel nodes 1 (some 2)
leaf_2 = (((λ i lt. omega arith), λ i j less lt. absurd (omega arith)), refl, λ inner. cc)

packed-IsCompressed : IsCompressed packed_node
packed-IsCompressed = record {
  compressed = refl;
  leaf = refl;
  many = omega arith;
  links = λ k lt. refl;
}

child-IsLevel :
    (j : ℕ)
    → j ≤ 1
    → IsLevel nodes 1 (children j)
      × ((q i k : ℕ) → Holds nodes (children j) q i → k < j → 6 < ((nodes q).keys i).low)
      × ((q i k : ℕ) → Holds nodes (children j) q i → j ≤ k → k < 1 → ((nodes q).keys i).high < 5)
child-IsLevel zero le = (
  leaf_1,
  (λ q i k held lt. absurd (omega arith)),
  λ q i k held ge lt. let e = (Holds-leaf nodes 1 q i refl held).0 in rw e (omega arith),
)
child-IsLevel (suc zero) le = (
  leaf_2,
  (λ q i k held lt. let e = (Holds-leaf nodes 2 q i refl held).0 in rw e (omega arith)),
  λ q i k held ge lt. absurd (omega arith),
)
child-IsLevel (suc (suc j)) le = absurd (omega arith)

root-IsLevel : IsLevel nodes 2 (some 0)
root-IsLevel = (root_sorted, refl, λ more j le. child-IsLevel j le)

next_levels : (q k : ℕ) → IsTree nodes (0 ∷ 1 ∷ 2 ∷ []) 2 1 1 ((nodes q).next_level k)
next_levels zero k = tt
next_levels (suc zero) k = (omega arith, inr (packed-IsCompressed, tt))
next_levels (suc (suc zero)) k = tt
next_levels (suc (suc (suc q))) k = tt

search-IsDeepest_example :
    (r : RuleValueInt) × (search 5 packet two_levels ≡ ok r two_levels)
    × IsDeepest nodes (0 ∷ 1 ∷ 2 ∷ []) packet (some 0) 0 no_rule r
search-IsDeepest_example =
    search-IsDeepest 2 2 5 two_levels packet
      (omega arith, inl (root-IsLevel, λ q k held. next_levels q k)) (omega arith)

-- A classifier with this tree and one of a single key, whose rule has a lower priority.
abbrev small_cfg : BTreeCfg
small_cfg = record { key_bits = 16; d = 3; t = 2; path_compression = true }

abbrev rule_3 : RuleValueInt
rule_3 = record { priority = 3; rule_id = 3 }

abbrev single : Tree
single = record two_levels { node = λ p. one_key (range 2 4) rule_3 none }

single-IsLevel : IsLevel single.node 1 (some 0)
single-IsLevel = (((λ i lt. omega arith), λ i j less lt. absurd (omega arith)), refl, λ inner. cc)

abbrev info_of : Tree → ℕ → TreeInfo Tree
info_of t priority = record {
  tree = t;
  max_priority = priority;
  used_dim_cnt = 3;
  rules = [];
  update_pending = false;
  used_rule_masks = [];
}

abbrev infos : ℕ → TreeInfo Tree
infos zero = info_of two_levels 7
infos (suc p) = info_of single 3

abbrev two_trees : Classifier Tree
two_trees = record { trees = λ i. i; info = infos; tree_cnt = 2; rule_to_tree = [] }

found_7 : search 5 packet two_levels ≡ ok rule_7 two_levels
unfolding search search_possition_1d search_rest_of_path_in_compressed_node
found_7 = refl

found_3 : search 5 packet single ≡ ok rule_3 single
unfolding search search_possition_1d search_rest_of_path_in_compressed_node
found_3 = refl

two_trees_bounded : TreesBounded (btree_ops small_cfg 5) two_trees packet
two_trees_bounded zero lt valid = rw found_7 (omega arith)
two_trees_bounded (suc i) lt valid = rw found_3 (omega arith)

two_trees_sorted : TreesSorted (btree_ops small_cfg 5) two_trees packet
two_trees_sorted zero zero less lt = omega arith
two_trees_sorted zero (suc j) less lt = omega arith
two_trees_sorted (suc i) zero less lt = omega arith
two_trees_sorted (suc i) (suc j) less lt = omega arith

two_trees_formed : AreTrees small_cfg 5 two_trees packet
two_trees_formed zero lt =
    (2, 2, (omega arith, inl (root-IsLevel, λ q k held. next_levels q k)), omega arith)
two_trees_formed (suc i) lt =
    (1, 1, (omega arith, inl (single-IsLevel, λ q k held. tt)), omega arith)

search-btree_ops_example :
    (deepest : ℕ → RuleValueInt) × ((i : ℕ)
      → i < 2
      → IsDeepest
          (infos i).tree.node
          (infos i).tree.dimension_order
          packet
          (infos i).tree.root
          0
          no_rule
          (deepest i))
    × IsBestOf deepest 2 (Search.search (btree_ops small_cfg 5) two_trees packet)
search-btree_ops_example =
    search-btree_ops small_cfg 5 two_trees packet two_trees_formed two_trees_sorted
      two_trees_bounded

search_possition_1d-FindsIn_example :
    (r : Option (Ptr × ℕ)) × (search_possition_1d 3 (some 0) (point 9) two_levels ≡ ok r two_levels)
    × FindsIn nodes (some 0) 9 r
search_possition_1d-FindsIn_example =
    search_possition_1d-FindsIn 2 3 two_levels (some 0) 9 root-IsLevel (omega arith)

search_seq-Locates_example : Locates (nodes 0).keys 0 1 6 (search_seq (nodes 0) (point 6))
search_seq-Locates_example = search_seq-Locates (nodes 0) 6 root_sorted

find_key-IsLeast_example : IsLeast (nodes 0).keys (range 7 7) 0 1 (find_key (nodes 0) (range 7 7))
find_key-IsLeast_example = find_key-IsLeast (nodes 0) (range 7 7)

get_val-bytes_of_example : get_val default_in_packet_position (bytes_of (λ d. d * 1000)) 3 ≡ 3000
get_val-bytes_of_example = get_val-bytes_of (λ d. d * 1000) 3 (omega arith) (omega arith)

-- The last level of a rule whose second field is [8, 9], to be put into the leaf 1.
abbrev cfg : BTreeCfg
cfg = record { key_bits = 16; d = 2; t = 4; path_compression = false }

abbrev cookie : InsertCookie
cookie = record {
  level = 1;
  requires_levels = 2;
  rule = record { ranges = range 1 1 ∷ range 8 9 ∷ []; value = rule_7 };
}

actual_8 : actual_key cookie two_levels ≡ ok (range 8 9) two_levels
unfolding actual_key
actual_8 = refl

insert_non_full-KeysSorted_example :
    (i : ℕ) × (t : Tree) × (insert_non_full cfg 1 1 cookie two_levels ≡ ok tt t)
    × SameBut 1 two_levels t
    × ((t.node 1).key_cnt ≡ 2)
    × (i ≤ 1)
    × (get_key (t.node 1) i ≡ record { key = range 8 9; value = rule_7; next_level = none })
    × ((l : ℕ)
        → l ≤ 1
        → l ≢ i
        → get_key (t.node 1) l ≡ get_key (nodes 1) (if ltb l i then l else l - 1))
    × KeysSorted (t.node 1).keys (t.node 1).key_cnt
insert_non_full-KeysSorted_example =
    insert_non_full-KeysSorted cfg 0 1 cookie (range 8 9) two_levels refl (omega arith) refl
      actual_8 (omega arith) (λ l lt. inl (omega arith)) leaf_1.0

remove_from_leaf-KeysSorted_example :
    (t : Tree) × (remove_from_leaf 2 0 two_levels ≡ ok tt t)
    × SameBut 2 two_levels t
    × ((t.node 2).key_cnt ≡ 0)
    × ((l : ℕ)
        → l + 1 < 1
        → get_key (t.node 2) l ≡ get_key (nodes 2) (if ltb l 0 then l else l + 1))
    × KeysSorted (t.node 2).keys (t.node 2).key_cnt
remove_from_leaf-KeysSorted_example =
    remove_from_leaf-KeysSorted 2 0 two_levels (omega arith) refl leaf_2.0
