-- ===== src/BTree/Navigator.antt =====
-- include/pcv/partition_sort/b_tree_node_navigator.h: links between nodes (`_BTreeNodeNavigator`),
-- and the operations of b_tree_node.h and b_tree.h that follow them.
use pclass_vectorized.Prelude.{ℕ, zero, suc, ◌+◌, ◌-◌, Option, none, some, if◌then◌else◌, update}
use pclass_vectorized.Prelude.State.{Fault, ok, pure, throw, ◌>>=◌, ◌>>◌, for_up}
use pclass_vectorized.BTree.{Ptr, Node, Op, load, modify, move_key, dealloc}

unfoldable pub set_child : Ptr → ℕ → Option Ptr → Op (Unit {0})
set_child n i none = modify n λ m. record m { child_index = update m.child_index i none }
set_child n i (some c) = do
  modify n λ m. record m { child_index = update m.child_index i (some c) }
  modify c λ m. record m { parent = some n }

unfoldable pub set_next_layer : Ptr → ℕ → Option Ptr → Op (Unit {0})
set_next_layer n i root = modify n λ m. record m { next_level = update m.next_level i root }

-- `child(n, i)` and `child_const(n, i)`
unfoldable pub child : Ptr → ℕ → Op (Option Ptr)
child n i s = ok ((s.node n).child_index i) s

-- `get_next_layer(n, i)` and `get_next_layer_const(n, i)`
unfoldable pub get_next_layer : Ptr → ℕ → Op (Option Ptr)
get_next_layer n i s = ok ((s.node n).next_level i) s

unfoldable pub move_child : Ptr → ℕ → Ptr → ℕ → Op (Unit {0})
unfolding child set_child
move_child n src_i dst dst_i = do c ← child n src_i; set_child dst dst_i c

unfoldable pub transfer_items : Ptr → ℕ → Ptr → ℕ → ℕ → Op (Unit {0})
unfolding child set_child move_key for_up
transfer_items src src_start dst dst_start key_cnt = do
  for_up key_cnt src_start λ i. move_key src i dst (i + dst_start)
  d ← load dst
  if d.is_leaf
      then pure tt
      else for_up (key_cnt + 1) src_start λ i. do c ← child src i; set_child dst (i + dst_start) c

-- `_BTreeNode::shift_items_on_right_to_left`
unfoldable pub shift_items_on_right_to_left : Ptr → ℕ → Op (Unit {0})
unfolding move_key for_up
shift_items_on_right_to_left p start = do
  n ← load p
  for_up (n.key_cnt - (start + 1)) (start + 1) λ i. move_key p i p (i - 1)
  for_up (n.key_cnt + 1 - (start + 2)) (start + 2)
      λ i. modify p λ m. record m { child_index = update m.child_index (i - 1) (m.child_index i) }

-- The sum that a loop over the links 0, ..., count - 1 collects.
sum_links : ℕ → (ℕ → Option Ptr) → (Ptr → Option ℕ) → Option ℕ
sum_links zero link f = some 0
sum_links (suc count) link f = elim (sum_links count link f) [
  | none ↦ none
  | some a ↦ elim (link count) [
    | none ↦ some a
    | some p ↦ elim (f p) [ none ↦ none | some b ↦ some (a + b) ]
  ]
]

-- `size`: the number of keys in a node and in all that hangs under it; `none` if the links go deeper
-- than the fuel.
unfoldable pub size : ℕ → (Ptr → Node) → Ptr → Option ℕ
unfolding sum_links
size zero mem p = none
size (suc fuel) mem p =
    let n = mem p in
    elim (sum_links (n.key_cnt + 1) n.child_index (size fuel mem)) [
      | none ↦ none
      | some a ↦ elim (sum_links n.key_cnt n.next_level (size fuel mem)) [
        | none ↦ none
        | some b ↦ some (n.key_cnt + a + b)
      ]
    ]

-- `_BTree::destroy_node`
unfoldable pub destroy_node : ℕ → Option Ptr → Op (Unit {0})
unfolding child get_next_layer dealloc for_up
destroy_node zero p = throw Fault.out_of_fuel
destroy_node (suc fuel) none = pure tt
destroy_node (suc fuel) (some p) = do
  n ← load p
  if n.is_leaf then pure tt else for_up (n.key_cnt + 1) 0 λ i. do c ← child p i; destroy_node fuel c
  for_up n.key_cnt 0 λ i. do l ← get_next_layer p i; destroy_node fuel l
  dealloc p
