-- ===== src/BTree/CollisionCheck.antt =====
-- include/pcv/partition_sort/b_tree_collision_check.h: whether a rule collides with the rules of a tree
-- (`BTreeCollisionCheck`).
use pclass_vectorized.Prelude.{
  ℕ, zero, suc, ◌+◌, ◌-◌, Bool, true, false, Option, none, some, ltb, ◌==◌, if◌then◌else◌,
}
use pclass_vectorized.Prelude.State.{Fault, pure, throw, ◌>>=◌}
use pclass_vectorized.Range.{Range1d, eq_range, overlaps}
use pclass_vectorized.BTree.{BTreeCfg, Ptr, RuleSpec, Op, get_root, load, dim_at, field}
use pclass_vectorized.BTree.Navigator.{child, get_next_layer}
use pclass_vectorized.BTree.Search.{point, search_seq, left_most}
use pclass_vectorized.BTree.KeyIterator.{Position, get_succ_global, get_pred_global, key_at}

-- `search_closest_lower_or_equal_key`; `search_closest_lower_or_equal_seq` is the loop of `search_seq`.
unfoldable pub search_closest_lower_or_equal_key : ℕ → Option Ptr → ℕ → Op Position
unfolding search_seq child get_pred_global
search_closest_lower_or_equal_key zero n val = throw Fault.out_of_fuel
search_closest_lower_or_equal_key (suc fuel) none val = pure none
search_closest_lower_or_equal_key (suc fuel) (some p) val = do
  n ← load p
  let s = search_seq n (point val)
  if s.in_range
      then pure (some (p, s.val_index))
      else if n.is_leaf
      then get_pred_global (suc fuel) p 0
      else do c ← child p s.val_index; search_closest_lower_or_equal_key fuel c val

-- The loop over the keys from a position on: does one overlap the range?
unfoldable pub scan_keys : ℕ → Range1d → Position → Op Bool
unfolding key_at overlaps get_succ_global
scan_keys zero val it = throw Fault.out_of_fuel
scan_keys (suc fuel) val none = pure false
scan_keys (suc fuel) val (some (p, idx)) = do
  k ← key_at p idx
  if overlaps k.key val
      then pure true
      else if ltb val.high k.key.low
      then pure false
      else do it ← get_succ_global (suc fuel) p idx; scan_keys fuel val it

-- The key at a position, if there is one.
abbrev pub key_of : Position → Op (Option Range1d)
key_of none = pure none
key_of (some (p, idx)) = do n ← load p; pure (some (n.keys idx))

abbrev pub is_key : Option Range1d → Range1d → Bool
is_key none val = false
is_key (some k) val = eq_range k val

-- The loop of `does_rule_colide` at a level, with `count` levels left. The links of one level are
-- followed on fuel.
unfoldable pub collide_loop : BTreeCfg → ℕ → RuleSpec → ℕ → ℕ → Option Ptr → ℕ → Op Bool
unfolding search_closest_lower_or_equal_key scan_keys dim_at get_next_layer left_most overlaps
collide_loop cfg fuel rule zero level n start_of_this_node = pure false
collide_loop cfg fuel rule (suc count) level none start_of_this_node = pure false
collide_loop cfg fuel rule (suc count) level (some p) start_of_this_node = do
  d ← dim_at level
  let d_val = field rule d
  n ← load p
  if n.is_compressed
      then (do
        let i = level - start_of_this_node
        let k = n.keys i
        if eq_range k d_val
            then (do
              next ← (if i + 1 == n.key_cnt then get_next_layer p i else pure (some p))
              collide_loop cfg fuel rule count (level + 1) next start_of_this_node)
            else pure (overlaps k d_val))
      else do
        p_low ← search_closest_lower_or_equal_key fuel (some p) d_val.low
        lk ← key_of p_low
        if is_key lk d_val
            then (if level + 1 == cfg.d then pure false else elim p_low [
              | none ↦ pure false
              | some (q, idx) ↦ do
                next ← get_next_layer q idx
                collide_loop cfg fuel rule count (level + 1) next level
            ])
            else do
              it ← elim p_low [
                | none ↦ do l ← left_most fuel (some p); pure (some (l, 0))
                | some at ↦ pure (some at)
              ]
              scan_keys fuel d_val it

-- `does_rule_colide`
unfoldable pub does_rule_colide : BTreeCfg → ℕ → RuleSpec → Op Bool
unfolding collide_loop
does_rule_colide cfg fuel rule = do root ← get_root; collide_loop cfg fuel rule cfg.d 0 root 0
