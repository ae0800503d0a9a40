-- ===== src/BTree/ToRules.antt =====
-- include/pcv/partition_sort/b_tree_to_rules.h: the rules that a tree holds (`_BTreeToRules`).
use pclass_vectorized.Prelude.{
  ℕ, zero, suc, ◌+◌, Option, none, some, List, [], ◌∷◌, ◌++◌, if◌then◌else◌, set,
}
use pclass_vectorized.Prelude.State.{Fault, pure, throw, ◌>>=◌}
use pclass_vectorized.Range.{Range1d, wildcard}
use pclass_vectorized.BTree.{
  BTreeCfg, Ptr, RuleValueInt, RuleSpec, Op, get_root, load, dim_at, is_valid,
}
use pclass_vectorized.BTree.Navigator.{child, get_next_layer}

-- `save_actual_path`, if the value is valid
abbrev pub save : List Range1d → RuleValueInt → List RuleSpec
save path v = if is_valid v then record { ranges = path; value = v } ∷ [] else []

-- `actual_path`, in which every field is a wildcard at the start.
unfoldable pub any_path : BTreeCfg → ℕ → List Range1d
any_path cfg zero = []
any_path cfg (suc d) = wildcard cfg.key_bits ∷ any_path cfg d

-- The loops of `to_rules` over the keys i, i + 1, ... of a compressed node and of any other node, and
-- over the children; `f` is the call of `to_rules` itself.
unfoldable pub compressed_keys :
    (Option Ptr → ℕ → List Range1d → Op (List RuleSpec))
    → Ptr
    → ℕ
    → List Range1d
    → ℕ
    → ℕ
    → Op (List RuleSpec)
unfolding dim_at get_next_layer
compressed_keys f p level path zero i = pure []
compressed_keys f p level path (suc count) i = do
  d ← dim_at (level + i)
  n ← load p
  let path' = set path d (n.keys i)
  next ← get_next_layer p i
  below ← f next (level + i + 1) path'
  rest ← compressed_keys f p level path' count (i + 1)
  pure (save path' (n.value i) ++ below ++ rest)

unfoldable pub plain_keys :
    (Option Ptr → ℕ → List Range1d → Op (List RuleSpec))
    → Ptr
    → ℕ
    → ℕ
    → List Range1d
    → ℕ
    → ℕ
    → Op (List RuleSpec)
unfolding get_next_layer
plain_keys f p level d path zero i = pure []
plain_keys f p level d path (suc count) i = do
  n ← load p
  let path' = set path d (n.keys i)
  next ← get_next_layer p i
  below ← f next (level + 1) path'
  rest ← plain_keys f p level d path' count (i + 1)
  pure (save path' (n.value i) ++ below ++ rest)

unfoldable pub children : (Option Ptr → Op (List RuleSpec)) → Ptr → ℕ → ℕ → Op (List RuleSpec)
unfolding child
children f p zero i = pure []
children f p (suc count) i = do
  c ← child p i
  here ← f c
  rest ← children f p count (i + 1)
  pure (here ++ rest)

-- `to_rules(Node *n, size_t level)`. The path is passed by value: each call of the source writes only
-- the fields of its own level and of those below, and sets them to `any` again before it returns.
unfoldable pub to_rules_at : BTreeCfg → ℕ → Option Ptr → ℕ → List Range1d → Op (List RuleSpec)
unfolding compressed_keys plain_keys children dim_at
to_rules_at cfg zero p level path = throw Fault.out_of_fuel
to_rules_at cfg (suc fuel) none level path = pure []
to_rules_at cfg (suc fuel) (some p) level path = do
  n ← load p
  if n.is_compressed then compressed_keys (to_rules_at cfg fuel) p level path n.key_cnt 0 else do
    d ← dim_at level
    here ← plain_keys (to_rules_at cfg fuel) p level d path n.key_cnt 0
    below ←
        children (λ c. to_rules_at cfg fuel c level (set path d (wildcard cfg.key_bits))) p
          (n.key_cnt + 1) 0
    pure (here ++ below)

-- `to_rules()`
unfoldable pub to_rules : BTreeCfg → ℕ → Op (List RuleSpec)
unfolding to_rules_at any_path
to_rules cfg fuel = do root ← get_root; to_rules_at cfg fuel root 0 (any_path cfg cfg.d)
