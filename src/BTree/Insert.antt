-- ===== src/BTree/Insert.antt =====
-- include/pcv/partition_sort/b_tree_insert.h: the insertion of a rule (`BTreeInsert`).
-- `InsertCookie` is passed by reference in the source and its level only grows on the way down; no
-- caller reads it after a call, so that it is passed by value here.
-- A leaf that is full, to which no caller goes, would be written behind its arrays.
pub mod Cookie
pub mod Split
pub mod Compressed
use pclass_vectorized.Prelude.{
  leb, ℕ, zero, suc, ◌+◌, ◌-◌, Bool, true, false, ◌&&◌, Option, none, some, List, [], ◌∷◌, ltb,
  ◌==◌, if◌then◌else◌, update, length,
}
use pclass_vectorized.Prelude.State.{Fault, Run, ok, fail, pure, throw, ◌>>=◌, ◌>>◌}
use pclass_vectorized.Range.{Range1d, gt_range, lt_range}
use pclass_vectorized.BTree.{
  BTreeCfg, Ptr, RuleSpec, KeyInfo, Node, Tree, Op, get_root, set_root, get_order, load, modify,
  deref, alloc, move_key, set_key, set_key_cnt, no_rule, max_degree,
}
use pclass_vectorized.BTree.Navigator.{child, set_child, get_next_layer, set_next_layer}
use pclass_vectorized.BTree.Search.Levels.{PathItem, search_path}
use pclass_vectorized.BTree.Insert.Cookie.{
  InsertCookie, new_cookie, actual_key, required_more_levels, additional_level_required_cnt, down,
}
use pclass_vectorized.BTree.Insert.Split.{split_child}
use pclass_vectorized.BTree.Insert.Compressed.{
  decompress_node, compress_loop, common_prefix, last_item,
}

-- The loops of `insert_non_full` from key `count - 1` down. In a leaf the keys that begin above k
-- move one place up; the result is the place for k.
unfoldable pub shift_greater : Ptr → Range1d → ℕ → Op ℕ
unfolding move_key
shift_greater p k zero = pure 0
shift_greater p k (suc i) = do
  n ← load p
  if gt_range (n.keys i) k then (do move_key p i p (i + 1); shift_greater p k i) else pure (suc i)

-- In an inner node the result is the index of the child for k.
unfoldable pub child_for : (ℕ → Range1d) → Range1d → ℕ → ℕ
child_for keys k zero = 0
child_for keys k (suc i) =
    let rest = child_for keys k i in if gt_range (keys i) k then rest else suc i

unfoldable mutual
  unfolding shift_greater child_for search_path split_child decompress_node compress_loop
      common_prefix actual_key last_item alloc set_key set_key_cnt child set_child get_next_layer
      set_next_layer

  -- `insert(Node *root, InsertCookie &cookie)`
  pub insert_at : BTreeCfg → ℕ → Option Ptr → InsertCookie → Op (Option Ptr)
  insert_at cfg zero root cookie = throw Fault.out_of_fuel
  insert_at cfg (suc fuel) root cookie = do
    path ← search_path (suc fuel) root cookie.rule cookie.level
    elim (last_item path) [
      | none ↦ insert_to_root cfg fuel root cookie
      | some b ↦ do
        let c = record cookie { level = cookie.level + (length path - 1) }
        n ← load b.node
        if required_more_levels c
            then (if n.is_compressed
                then insert_behind_prefix cfg fuel b.node (down c) (b.index + 1)
                else do
                  next ← get_next_layer b.node b.index
                  ins_root ← insert_to_root cfg fuel next (down c)
                  set_next_layer b.node b.index ins_root)
            else modify b.node λ m. record m { value = update m.value b.index c.rule.value }
        pure root
    ]

  pub insert_non_full : BTreeCfg → ℕ → Ptr → InsertCookie → Op (Unit {0})
  insert_non_full cfg zero p cookie = throw Fault.out_of_fuel
  insert_non_full cfg (suc fuel) p cookie = do
    k ← actual_key cookie
    n ← load p
    if n.is_leaf
        then (if leb (max_degree cfg) n.key_cnt then throw Fault.out_of_range else do
          i ← shift_greater p k n.key_cnt
          let more = required_more_levels cookie
          let rv = if more then no_rule else cookie.rule.value
          modify p λ m.
              set_key_cnt (set_key m i (record { key = k; value = rv; next_level = none }))
                (m.key_cnt + 1)
          if more
              then (do
                next ← get_next_layer p i
                nl ← insert_to_root cfg fuel next (down cookie)
                set_next_layer p i nl)
              else pure tt)
        else do
          let i = child_for n.keys k n.key_cnt
          y ← deref (← child p i)
          m ← load y
          i' ←
              (if m.key_cnt == max_degree cfg
                then (do
                  split_child cfg p i y
                  n' ← load p
                  pure (if lt_range (n'.keys i) k then i + 1 else i))
                else pure i)
          c ← deref (← child p i')
          insert_non_full cfg fuel c cookie

  pub insert_in_to_compressed : BTreeCfg → ℕ → Ptr → InsertCookie → Op (Unit {0})
  insert_in_to_compressed cfg zero p cookie = throw Fault.out_of_fuel
  insert_in_to_compressed cfg (suc fuel) p cookie = do
    n ← load p
    keep ← common_prefix n cookie n.key_cnt 0
    insert_behind_prefix cfg fuel p (record cookie { level = cookie.level + keep }) keep

  -- `_insert_in_to_compressed`
  pub insert_behind_prefix : BTreeCfg → ℕ → Ptr → InsertCookie → ℕ → Op (Unit {0})
  insert_behind_prefix cfg zero p cookie keep = throw Fault.out_of_fuel
  insert_behind_prefix cfg (suc fuel) p cookie keep = do
    n ← load p
    if keep == n.key_cnt
        then (if ltb cookie.level cookie.requires_levels
            then (do
              next ← get_next_layer p (keep - 1)
              nl ← insert_at cfg fuel next cookie
              set_next_layer p (keep - 1) nl)
            else modify p λ m. record m { value = update m.value (keep - 1) cookie.rule.value })
        else do q ← decompress_node cfg p keep; insert_at cfg fuel (some q) cookie; pure tt

  pub insert_compressed : BTreeCfg → ℕ → Ptr → InsertCookie → ℕ → Op (Unit {0})
  insert_compressed cfg zero p cookie keys_to_insert = throw Fault.out_of_fuel
  insert_compressed cfg (suc fuel) p cookie keys_to_insert = do
    n ← load p
    let sum = n.key_cnt + keys_to_insert
    let end = if ltb sum (max_degree cfg) then sum else max_degree cfg
    c ← compress_loop p keys_to_insert end (end - n.key_cnt) n.key_cnt cookie
    modify p λ m. set_key_cnt m end
    if required_more_levels c
        then (do
          next ← get_next_layer p (end - 1)
          nl ← insert_to_root cfg fuel next (down c)
          set_next_layer p (end - 1) nl)
        else pure tt
    modify p λ m. record m { is_compressed = ltb 1 end }

  pub insert_in_to_new_node : BTreeCfg → ℕ → InsertCookie → Op Ptr
  insert_in_to_new_node cfg zero cookie = throw Fault.out_of_fuel
  insert_in_to_new_node cfg (suc fuel) cookie = do
    k ← actual_key cookie
    p ← alloc cfg
    let nl_cnt =
        if cfg.path_compression && required_more_levels cookie
        then additional_level_required_cnt cookie
        else 0
    if ltb 0 nl_cnt then insert_compressed cfg fuel p cookie (nl_cnt + 1) else do
      modify p λ m.
          set_key_cnt
            (set_key m 0 (record { key = k; value = cookie.rule.value; next_level = none })) 1
      if required_more_levels cookie
          then (do
            next ← get_next_layer p 0
            nl ← insert_to_root cfg fuel next (down cookie)
            set_next_layer p 0 nl)
          else pure tt
    pure p

  pub insert_to_root : BTreeCfg → ℕ → Option Ptr → InsertCookie → Op (Option Ptr)
  insert_to_root cfg zero root cookie = throw Fault.out_of_fuel
  insert_to_root cfg (suc fuel) none cookie = do
    p ← insert_in_to_new_node cfg fuel cookie
    pure (some p)
  insert_to_root cfg (suc fuel) (some p) cookie = do
    n ← load p
    if n.is_compressed
        then (do insert_in_to_compressed cfg fuel p cookie; pure (some p))
        else if n.key_cnt == max_degree cfg
        then (do
          k ← actual_key cookie
          s ← alloc cfg
          modify s λ m. record m { is_leaf = false }
          set_child s 0 (some p)
          split_child cfg s 0 p
          m ← load s
          c ← deref (← child s (if lt_range (m.keys 0) k then 1 else 0))
          insert_non_full cfg fuel c cookie
          pure (some s))
        else do insert_non_full cfg fuel p cookie; pure (some p)

-- `insert(const rule_spec_t &rule)`
unfoldable pub insert : BTreeCfg → ℕ → RuleSpec → Op (Unit {0})
unfolding insert_at new_cookie
insert cfg fuel rule = do
  root ← get_root
  order ← get_order
  new_root ← insert_at cfg fuel root (new_cookie cfg order rule)
  set_root new_root
