-- ===== src/BTree/Insert/Split.antt =====
-- include/pcv/partition_sort/b_tree_insert.h: `split_child`.
use pclass_vectorized.Prelude.{ℕ, ltb, ◌+◌, ◌-◌, Bool, some, if◌then◌else◌}
use pclass_vectorized.Prelude.State.{Fault, throw, pure, ◌>>=◌, ◌>>◌, for_up, for_down}
use pclass_vectorized.BTree.{
  BTreeCfg, Ptr, Op, load, modify, alloc, move_key, set_key_cnt, min_degree, max_degree,
}
use pclass_vectorized.BTree.Navigator.{child, set_child, move_child}

-- The second step: the upper half of the keys and of the children of y moves to z.
unfoldable pub move_upper : ℕ → Bool → Ptr → Ptr → Op (Unit {0})
move_upper d leaf y z = do
  for_up d 0 λ j. move_key y (d + j + 1) z j
  if leaf then pure tt else for_up (d + 1) 0 λ j. do ch ← child y (d + j + 1); set_child z j ch
  modify y λ m. set_key_cnt m d

-- The last step: the node of c keys gets z as its child i + 1 and the middle key of y.
unfoldable pub link_upper : ℕ → ℕ → ℕ → Ptr → Ptr → Ptr → Op (Unit {0})
link_upper d c i node y z = do
  for_down (c - i) (i + 1) λ j. move_child node j node (j + 1)
  set_child node (i + 1) (some z)
  for_down (c - i) i λ j. move_key node j node (j + 1)
  move_key y d node i
  modify node λ m. set_key_cnt m (c + 1)

-- Splits the full child y at place i of the node; the new node z takes the upper half. A node without
-- room for one more key, which the source excludes by an assertion, is written behind its arrays.
unfoldable pub split_child : BTreeCfg → Ptr → ℕ → Ptr → Op (Unit {0})
unfolding alloc move_key set_key_cnt child set_child move_child for_up for_down move_upper
    link_upper
split_child cfg node i y = do
  z ← alloc cfg
  y0 ← load y
  modify z λ m. set_key_cnt (record m { is_leaf = y0.is_leaf }) (min_degree cfg)
  move_upper (min_degree cfg) y0.is_leaf y z
  n ← load node
  if ltb n.key_cnt (max_degree cfg)
      then link_upper (min_degree cfg) n.key_cnt i node y z
      else throw Fault.out_of_range
