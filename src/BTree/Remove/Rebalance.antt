-- ===== src/BTree/Remove/Rebalance.antt =====
-- include/pcv/partition_sort/b_tree_remove.h: the operations on a node and its children that keep
-- enough keys in each of them (`removeFromLeaf`, `borrowFromPrev`, `borrowFromNext`, `merge`, `fill`).
use pclass_vectorized.Prelude.{ℕ, ◌+◌, ◌-◌, Bool, leb, ◌==◌, if◌then◌else◌, update}
use pclass_vectorized.Prelude.State.{pure, ◌>>=◌, ◌>>◌, for_up, for_down}
use pclass_vectorized.BTree.{
  BTreeCfg, Ptr, Op, load, modify, deref, dealloc, set_key_cnt, clean_children, move_key,
  min_degree,
}
use pclass_vectorized.BTree.Navigator.{
  child, set_child, transfer_items, shift_items_on_right_to_left,
}

unfoldable pub remove_from_leaf : Ptr → ℕ → Op (Unit {0})
unfolding for_up move_key set_key_cnt
remove_from_leaf p idx = do
  n ← load p
  for_up (n.key_cnt - (idx + 1)) (idx + 1) λ i. move_key p i p (i - 1)
  modify p λ m. set_key_cnt m (n.key_cnt - 1)

-- `child_index[to] = child_index[from]` in one node
unfoldable pub move_child_index : Ptr → ℕ → ℕ → Op (Unit {0})
move_child_index p from to =
    modify p λ m. record m { child_index = update m.child_index to (m.child_index from) }

unfoldable pub borrow_from_prev : Ptr → ℕ → Op (Unit {0})
unfolding for_down move_key move_child_index child set_child set_key_cnt
borrow_from_prev p idx = do
  ch ← deref (← child p idx)
  sib ← deref (← child p (idx - 1))
  c ← load ch
  for_down c.key_cnt 0 λ i. move_key ch i ch (i + 1)
  if c.is_leaf then pure tt else for_down (c.key_cnt + 1) 0 λ i. move_child_index ch i (i + 1)
  move_key p (idx - 1) ch 0
  b ← load sib
  if c.is_leaf then pure tt else do last ← child sib b.key_cnt; set_child ch 0 last
  move_key sib (b.key_cnt - 1) p (idx - 1)
  modify ch λ m. set_key_cnt m (m.key_cnt + 1)
  modify sib λ m. set_key_cnt m (m.key_cnt - 1)

unfoldable pub borrow_from_next : Ptr → ℕ → Op (Unit {0})
unfolding for_up move_key move_child_index child set_child set_key_cnt
borrow_from_next p idx = do
  ch ← deref (← child p idx)
  sib ← deref (← child p (idx + 1))
  c ← load ch
  move_key p idx ch c.key_cnt
  if c.is_leaf then pure tt else do first ← child sib 0; set_child ch (c.key_cnt + 1) first
  move_key sib 0 p idx
  b ← load sib
  for_up (b.key_cnt - 1) 1 λ i. move_key sib i sib (i - 1)
  if b.is_leaf then pure tt else for_up b.key_cnt 1 λ i. move_child_index sib i (i - 1)
  modify ch λ m. set_key_cnt m (m.key_cnt + 1)
  modify sib λ m. set_key_cnt m (m.key_cnt - 1)

-- Child idx takes key idx and all that is in child idx + 1, which is freed.
unfoldable pub merge : BTreeCfg → Ptr → ℕ → Op (Unit {0})
unfolding move_key child transfer_items shift_items_on_right_to_left set_key_cnt clean_children
    dealloc
merge cfg p idx = do
  ch ← deref (← child p idx)
  sib ← deref (← child p (idx + 1))
  move_key p idx ch (min_degree cfg)
  b ← load sib
  transfer_items sib 0 ch (min_degree cfg + 1) b.key_cnt
  shift_items_on_right_to_left p idx
  modify ch λ m. set_key_cnt m (m.key_cnt + b.key_cnt + 1)
  modify p λ m. set_key_cnt m (m.key_cnt - 1)
  modify sib clean_children
  dealloc sib

-- `child(node, i)->key_cnt >= MIN_DEGREE + 1`
unfoldable pub has_spare_key : BTreeCfg → Ptr → ℕ → Op Bool
unfolding child
has_spare_key cfg p i = do
  c ← deref (← child p i)
  m ← load c
  pure (leb (min_degree cfg + 1) m.key_cnt)

unfoldable pub fill : BTreeCfg → Ptr → ℕ → Op (Unit {0})
unfolding has_spare_key borrow_from_prev borrow_from_next merge
fill cfg p idx = do
  n ← load p
  prev ← (if idx == 0 then pure Bool.false else has_spare_key cfg p (idx - 1))
  if prev then borrow_from_prev p idx else do
    next ← (if idx == n.key_cnt then pure Bool.false else has_spare_key cfg p (idx + 1))
    if next
        then borrow_from_next p idx
        else if idx == n.key_cnt
        then merge cfg p (idx - 1)
        else merge cfg p idx
