-- ===== src/BTree/Remove.antt =====
-- include/pcv/partition_sort/b_tree_remove.h: the removal of a rule (`BTreeRemove`).
pub mod Rebalance
use pclass_vectorized.Prelude.{
  ℕ, zero, suc, ◌+◌, ◌-◌, Bool, ◌&&◌, Option, none, some, List, [], ◌∷◌, ltb, leb, ◌==◌,
  if◌then◌else◌, update, length, get_elem?,
}
use pclass_vectorized.Prelude.State.{Fault, Run, ok, fail, pure, throw, ◌>>=◌, ◌>>◌, for_up}
use pclass_vectorized.Range.{Range1d, eq_range}
use pclass_vectorized.BTree.{
  BTreeCfg, Ptr, RuleSpec, KeyInfo, Node, Tree, Op, get_root, set_root, load, modify, deref,
  dealloc, dim_at, field, get_key, set_key, set_key_cnt, clean_children, move_key, no_rule,
  min_degree,
}
use pclass_vectorized.BTree.Navigator.{child, get_next_layer, set_next_layer}
use pclass_vectorized.BTree.Search.{find_key, get_pred, get_succ}
use pclass_vectorized.BTree.Search.Levels.{PathItem, search_path}
use pclass_vectorized.BTree.Remove.Rebalance.{remove_from_leaf, fill, merge}

unfoldable mutual
  unfolding remove_from_leaf fill merge find_key get_pred get_succ child set_key

  -- `remove(Node &node, Range1d<key_t> k)`
  pub remove_key : BTreeCfg → ℕ → Ptr → Range1d → Op (Unit {0})
  remove_key cfg zero p k = throw Fault.out_of_fuel
  remove_key cfg (suc fuel) p k = do
    n ← load p
    let idx = find_key n k
    if ltb idx n.key_cnt && eq_range (n.keys idx) k
        then (if n.is_leaf then remove_from_leaf p idx else remove_from_non_leaf cfg fuel p idx)
        else if n.is_leaf
        then throw Fault.runtime_error
        else do
          c ← deref (← child p idx)
          m ← load c
          if ltb m.key_cnt (min_degree cfg + 1) then fill cfg p idx else pure tt
          n' ← load p
          c' ← deref (← child p (if idx == n.key_cnt && ltb n'.key_cnt idx then idx - 1 else idx))
          remove_key cfg fuel c' k

  -- `removeFromNonLeaf`
  pub remove_from_non_leaf : BTreeCfg → ℕ → Ptr → ℕ → Op (Unit {0})
  remove_from_non_leaf cfg zero p idx = throw Fault.out_of_fuel
  remove_from_non_leaf cfg (suc fuel) p idx = do
    n ← load p
    c ← deref (← child p idx)
    m ← load c
    if leb (min_degree cfg + 1) m.key_cnt
        then (do
          pred ← get_pred (suc fuel) p idx
          modify p λ q. set_key q idx pred
          c' ← deref (← child p idx)
          remove_key cfg fuel c' pred.key)
        else do
          c2 ← deref (← child p (idx + 1))
          m2 ← load c2
          if leb (min_degree cfg + 1) m2.key_cnt
              then (do
                succ ← get_succ (suc fuel) p idx
                modify p λ q. set_key q idx succ
                c' ← deref (← child p (idx + 1))
                remove_key cfg fuel c' succ.key)
              else do
                merge cfg p idx
                c' ← deref (← child p idx)
                remove_key cfg fuel c' (n.keys idx)

-- `remove_1d`: the new root of the level
unfoldable pub remove_1d : BTreeCfg → ℕ → Range1d → Ptr → Op (Option Ptr)
unfolding remove_key child clean_children dealloc
remove_1d cfg fuel k root = do
  remove_key cfg fuel root k
  n ← load root
  if n.key_cnt == 0
      then (do
        new_root ←
            (if n.is_leaf then pure none else do
              c ← deref (← child root 0)
              modify c λ m. record m { parent = none }
              pure (some c))
        modify root clean_children
        dealloc root
        pure new_root)
      else pure (some root)

abbrev pub same_ptr : Ptr → Option Ptr → Bool
same_ptr p none = Bool.false
same_ptr p (some q) = p == q

-- The loop of `remove` over the items i = count - 1, ..., 0 of the path.
unfoldable pub remove_loop : BTreeCfg → ℕ → RuleSpec → List PathItem → ℕ → Op (Unit {0})
unfolding remove_1d dim_at get_next_layer set_next_layer
remove_loop cfg fuel rule path zero = pure tt
remove_loop cfg fuel rule path (suc i) = elim (get_elem? path i) [
  | none ↦ throw Fault.out_of_range
  | some it ↦ do
    d ← dim_at i
    nl ← get_next_layer it.node it.index
    elim nl [
      | some _ ↦ modify it.node λ m. record m { value = update m.value it.index no_rule }
      | none ↦ do
        new_root ← remove_1d cfg fuel (field rule d) it.root
        top ← get_root
        if same_ptr it.root top
            then set_root new_root
            else elim (if i == 0 then none else get_elem? path (i - 1)) [
              | none ↦ throw Fault.out_of_range
              | some prev ↦ do
                set_next_layer prev.node prev.index none
                remove_loop cfg fuel rule path i
            ]
    ]
]

-- `remove(const rule_spec_t &k)`
unfoldable pub remove : BTreeCfg → ℕ → RuleSpec → Op (Unit {0})
unfolding search_path remove_loop
remove cfg fuel rule = do
  root ← get_root
  path ← search_path fuel root rule 0
  remove_loop cfg fuel rule path (length path)
