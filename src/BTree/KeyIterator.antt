-- ===== src/BTree/KeyIterator.antt =====
-- include/pcv/partition_sort/b_tree_key_iterator.h: positions in one level of the tree, in the order of
-- the keys (`BTreeKeyIterator::State`). A position is a node and an index; the end is `none`.
use pclass_vectorized.Prelude.{ℕ, zero, suc, ◌+◌, ◌-◌, Option, none, some, ltb, ◌==◌, if◌then◌else◌}
use pclass_vectorized.Prelude.State.{Fault, pure, throw, ◌>>=◌}
use pclass_vectorized.BTree.{Ptr, KeyInfo, Node, Op, load, get_key}
use pclass_vectorized.BTree.Navigator.{child}
use pclass_vectorized.BTree.Search.{right_most, left_most}

abbrev pub Position : Type 0
Position = Option (Ptr × ℕ)

-- The loop of `index_of_child` at index i, with `count` links left.
unfoldable pub index_loop : (ℕ → Option Ptr) → Ptr → ℕ → ℕ → ℕ
index_loop link ch zero i = i
index_loop link ch (suc count) i =
    let rest = index_loop link ch count (i + 1) in
    elim (link i) [ none ↦ rest | some q ↦ if q == ch then i else rest ]

unfoldable pub index_of_child : Node → Ptr → ℕ
unfolding index_loop
index_of_child p ch = index_loop p.child_index ch (p.key_cnt + 1) 0

-- The loops of `getSucc_global` and `getPred_global` towards the root, from node n with parent p.
unfoldable pub climb_right : ℕ → Option Ptr → Ptr → Op Position
unfolding index_of_child
climb_right zero p n = throw Fault.out_of_fuel
climb_right (suc fuel) none n = pure none
climb_right (suc fuel) (some p) n = do
  m ← load p
  let i = index_of_child m n
  if i == m.key_cnt then climb_right fuel m.parent p else pure (some (p, i))

unfoldable pub climb_left : ℕ → Option Ptr → Ptr → Op Position
unfolding index_of_child
climb_left zero p n = throw Fault.out_of_fuel
climb_left (suc fuel) none n = pure none
climb_left (suc fuel) (some p) n = do
  m ← load p
  let i = index_of_child m n
  if ltb 0 i then pure (some (p, i - 1)) else climb_left fuel m.parent p

-- `get_most_left_after`
unfoldable pub most_left_after : ℕ → Option Ptr → Ptr → Op Position
unfolding index_of_child child left_most
most_left_after zero p ch = throw Fault.out_of_fuel
most_left_after (suc fuel) none ch = pure none
most_left_after (suc fuel) (some p) ch = do
  m ← load p
  let i = index_of_child m ch
  if ltb (i + 1) m.key_cnt
      then (do q ← left_most (suc fuel) (← child p (i + 1)); pure (some (q, 0)))
      else most_left_after fuel m.parent p

-- `getSucc_global`, the step of `++`
unfoldable pub get_succ_global : ℕ → Ptr → ℕ → Op Position
unfolding climb_right most_left_after child left_most
get_succ_global fuel p idx = do
  n ← load p
  if n.is_leaf
      then (if ltb (idx + 1) n.key_cnt
          then pure (some (p, idx + 1))
          else climb_right fuel n.parent p)
      else do
        c ← child p (idx + 1)
        elim c [
          | none ↦ most_left_after fuel n.parent p
          | some q ↦ do l ← left_most fuel (some q); pure (some (l, 0))
        ]

-- `getPred_global`, the step of `--`
unfoldable pub get_pred_global : ℕ → Ptr → ℕ → Op Position
unfolding climb_left child right_most
get_pred_global fuel p idx = do
  n ← load p
  if n.is_leaf
      then (if ltb 0 idx then pure (some (p, idx - 1)) else climb_left fuel n.parent p)
      else do q ← right_most fuel (← child p idx); m ← load q; pure (some (q, m.key_cnt - 1))

-- `operator*`
unfoldable pub key_at : Ptr → ℕ → Op KeyInfo
unfolding get_key
key_at p idx = do n ← load p; pure (get_key n idx)
