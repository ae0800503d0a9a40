-- ===== src/BTree/Search/Levels.antt =====
-- include/pcv/partition_sort/b_tree_search.h: `search` and `search_path`, over all levels of the tree.
use pclass_vectorized.Prelude.{
  ℕ, zero, suc, ◌+◌, ◌-◌, Bool, true, false, ◌&&◌, Option, none, some, List, [], ◌∷◌, ◌++◌, ltb,
  if◌then◌else◌,
}
use pclass_vectorized.Prelude.State.{Fault, pure, throw, ◌>>=◌}
use pclass_vectorized.Range.{in_range, ne_range}
use pclass_vectorized.BTree.{
  Ptr, RuleValueInt, RuleSpec, Node, Op, load, dim_at, field, is_valid, no_rule,
}
use pclass_vectorized.BTree.Navigator.{get_next_layer}
use pclass_vectorized.BTree.Search.{point, whole, search_possition_1d}

-- The loop of `search_rest_of_path_in_compressed_node` at index i2 with `count` keys left:
-- the best value so far, the next node, and what is added to the level.
pub record Walk : Type 0 where
  pub res : RuleValueInt
  pub next_n : Option Ptr
  pub add_to_i : ℕ

abbrev pub better : RuleValueInt → RuleValueInt → RuleValueInt
better v res = if is_valid v then v else res

unfoldable pub compressed_loop : Node → (ℕ → ℕ) → ℕ → ℕ → Walk → Walk
compressed_loop n val zero i2 w = w
compressed_loop n val (suc count) i2 w =
    let next = n.next_level i2 in
    let w' : Walk = record {
      res = better (n.value i2) w.res;
      next_n = elim next [ none ↦ w.next_n | some q ↦ some q ];
      add_to_i = elim next [ none ↦ w.add_to_i | some _ ↦ i2 + 1 ];
    } in
    let rest = compressed_loop n val count (i2 + 1) w' in
    if in_range (n.keys i2) (val (n.dim_index i2)) then rest else w

unfoldable pub search_rest_of_path_in_compressed_node :
    Node → (ℕ → ℕ) → RuleValueInt → ℕ → Option Ptr × RuleValueInt × ℕ
unfolding compressed_loop
search_rest_of_path_in_compressed_node n val res i =
    let start : Walk = record { res = better (n.value 0) res; next_n = none; add_to_i = 0 } in
    let w = compressed_loop n val (n.key_cnt - 1) 1 start in (w.next_n, w.res, i + w.add_to_i)

-- The loop of `search`; `val d` is `get_val(val_vec, d)`. The nodes of one level and the levels are
-- walked on fuel.
unfoldable pub search_loop : ℕ → (ℕ → ℕ) → Option Ptr → ℕ → RuleValueInt → Op RuleValueInt
unfolding search_possition_1d search_rest_of_path_in_compressed_node dim_at get_next_layer
search_loop zero val n i res = throw Fault.out_of_fuel
search_loop (suc fuel) val none i res = pure res
search_loop (suc fuel) val (some p) i res = do
  d ← dim_at i
  r ← search_possition_1d (suc fuel) (some p) (point (val d))
  elim r [
    | none ↦ pure res
    | some (q, index) ↦ do
      n ← load q
      if n.is_compressed
          then (let (next, res', i') = search_rest_of_path_in_compressed_node n val res i in
              search_loop fuel val next i' res')
          else do
            next ← get_next_layer q index
            search_loop fuel val next (i + 1) (better (n.value index) res)
  ]

-- `search`
unfoldable pub search : ℕ → (ℕ → ℕ) → Op RuleValueInt
unfolding search_loop
search fuel val s = search_loop fuel val s.root 0 no_rule s

-- One item of a path: the root of its level, the node and the index of the key in the node.
pub record PathItem : Type 0 where
  pub root : Ptr
  pub node : Ptr
  pub index : ℕ

abbrev pub item : Ptr → Ptr → ℕ → PathItem
item r n i = record { root = r; node = n; index = i }

-- The loop over the keys i2, i2 + 1, ... of a compressed node n: the items that match the rule, and
-- whether all `count` keys do.
unfoldable pub match_compressed : Ptr → RuleSpec → ℕ → ℕ → ℕ → Op (List PathItem × Bool)
unfolding dim_at
match_compressed n rule level zero i2 = pure ([], true)
match_compressed n rule level (suc count) i2 = do
  d ← dim_at (level + i2)
  m ← load n
  if ne_range (m.keys i2) (field rule d) then pure ([], false) else do
    (rest, all) ← match_compressed n rule level count (i2 + 1)
    pure (item n n i2 ∷ rest, all)

-- `search_path`, from `root` at the given level on
unfoldable pub search_path : ℕ → Option Ptr → RuleSpec → ℕ → Op (List PathItem)
unfolding search_possition_1d match_compressed dim_at get_next_layer
search_path zero n rule level = throw Fault.out_of_fuel
search_path (suc fuel) none rule level = pure []
search_path (suc fuel) (some n) rule level = do
  d ← dim_at level
  r ← search_possition_1d (suc fuel) (some n) (whole (field rule d))
  elim r [
    | none ↦ pure []
    | some (q, index) ↦ do
      m ← load n
      m' ← load q
      if m'.is_compressed && ltb index m.key_cnt
          then (do
            (items, all) ← match_compressed n rule level (m.key_cnt - 1) 1
            if all
                then (do
                  next ← get_next_layer n (m.key_cnt - 1)
                  rest ← search_path fuel next rule (level + m.key_cnt)
                  pure (item n q index ∷ items ++ rest))
                else pure (item n q index ∷ items))
          else do
            next ← get_next_layer q index
            rest ← search_path fuel next rule (level + 1)
            pure (item n q index ∷ rest)
  ]
