-- ===== src/BTree/Insert/Compressed.antt =====
-- include/pcv/partition_sort/b_tree_insert.h: the parts of the insertion that work on one compressed
-- node (`decompress_node`, and the loops of `insert_in_to_compressed` and `insert_compressed`).
use pclass_vectorized.Prelude.{
  ℕ, zero, suc, ◌+◌, ◌-◌, false, Option, none, some, List, [], ◌∷◌, leb, ltb, ◌==◌, if◌then◌else◌,
}
use pclass_vectorized.Prelude.State.{pure, ◌>>=◌, ◌>>◌, for_up}
use pclass_vectorized.Range.{eq_range}
use pclass_vectorized.BTree.{
  BTreeCfg, Ptr, Node, Op, load, modify, alloc, get_key, set_key, set_dim, set_key_cnt, dim_at,
  no_rule,
}
use pclass_vectorized.BTree.Navigator.{set_next_layer}
use pclass_vectorized.BTree.Search.Levels.{PathItem}
use pclass_vectorized.BTree.Insert.Cookie.{InsertCookie, actual_key, down}

-- `path.back()`
unfoldable pub last_item : List PathItem → Option PathItem
last_item [] = none
last_item (x ∷ []) = some x
last_item (x ∷ y ∷ r) = last_item (y ∷ r)

-- The loop of `insert_in_to_compressed` at key i, with `count` keys left: how many keys of the node
-- are those of the rule.
unfoldable pub common_prefix : Node → InsertCookie → ℕ → ℕ → Op ℕ
unfolding actual_key
common_prefix n cookie zero i = pure i
common_prefix n cookie (suc count) i = do
  k ← actual_key cookie
  if eq_range (n.keys i) k then common_prefix n (down cookie) count (i + 1) else pure i

-- Keys `from`, ..., `from + count - 1` of a node and their dimensions, as the first of another one.
unfoldable pub copy_items : Ptr → ℕ → Ptr → ℕ → Op (Unit {0})
unfolding for_up get_key set_key set_dim
copy_items src from dst count = for_up count 0 λ i. do
  n ← load src
  modify dst λ m. set_dim (set_key m i (get_key n (from + i))) i (n.dim_index (from + i))

unfoldable pub decompress_node : BTreeCfg → Ptr → ℕ → Op Ptr
unfolding alloc copy_items set_next_layer set_key_cnt get_key set_key
decompress_node cfg p index = do
  n ← load p
  if leb n.key_cnt index
      then (do nl ← alloc cfg; set_next_layer p (index - 1) (some nl); pure nl)
      else if index == 0
      then (if n.key_cnt == 1 then pure p else do
        nl ← alloc cfg
        copy_items p 1 nl (n.key_cnt - 1)
        modify nl
            λ m. record (set_key_cnt m (n.key_cnt - 1)) { is_compressed = ltb 1 (n.key_cnt - 1) }
        set_next_layer p 0 (some nl)
        modify p λ m. record (set_key_cnt m 1) { is_compressed = false }
        pure p)
      else do
        let behind = n.key_cnt - index - 1
        nnl ←
            (if behind == 0 then pure none else do
              q ← alloc cfg
              copy_items p (index + 1) q behind
              modify q λ m. record (set_key_cnt m behind) { is_compressed = ltb 1 behind }
              pure (some q))
        nl ← alloc cfg
        n' ← load p
        modify nl λ m. set_key_cnt (set_key m 0 (get_key n' index)) 1
        set_next_layer p (index - 1) (some nl)
        elim nnl [ none ↦ pure tt | some q ↦ set_next_layer nl 0 (some q) ]
        modify p λ m. record (set_key_cnt m index) { is_compressed = ltb 1 index }
        pure nl

-- The loop of `insert_compressed` at key i, with `count` keys left up to `end`: writes the keys of the
-- rule from the cookie's level on, and returns the cookie at the level of the last one.
unfoldable pub compress_loop : Ptr → ℕ → ℕ → ℕ → ℕ → InsertCookie → Op InsertCookie
unfolding actual_key dim_at set_key set_dim
compress_loop p keys_to_insert end zero i cookie = pure cookie
compress_loop p keys_to_insert end (suc count) i cookie = do
  k ← actual_key cookie
  d ← dim_at cookie.level
  let rv = if i == keys_to_insert - 1 then cookie.rule.value else no_rule
  modify p λ m. set_dim (set_key m i (record { key = k; value = rv; next_level = none })) i d
  compress_loop p keys_to_insert end count (i + 1) (if i + 1 == end then cookie else down cookie)
