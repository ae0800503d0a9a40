-- ===== src/Classifier/Update/Order.antt =====
-- include/pcv/partition_sort/partition_sort_classifier.h: the failure of `insert`.
use pclass_vectorized.Prelude.{
  ℕ, zero, suc, ◌+◌, ◌<◌, ◌≤◌, ◌≡◌, refl, inl, inr, Bool, true, false, not, List, arith, ltb,
  if◌then◌else◌, update, Bool-cases,
}
use pclass_vectorized.Prelude.State.{Cmd, Fault, ok, fail}
use pclass_vectorized.BTree.{RuleSpec}
use pclass_vectorized.Classifier.Tree.{TreeOps, ClassifierCfg, TreeInfo, Classifier}
use pclass_vectorized.Classifier.Update.{
  get_rule_mask, has_mask, try_insert_to_tree_without_collisions, insert_loop, insert,
}

module _ {Tree Packet : Type 0} (cfg : ClassifierCfg) (ops : TreeOps Tree Packet) where
  insert_loop-false :
      (attempt_at : ℕ → Cmd (Classifier Tree) Bool) (wanted : TreeInfo Tree → ℕ → Bool)
      (c : Classifier Tree) (count i : ℕ) (tried : ℕ → Bool)
      → ((k : ℕ) → k < c.tree_cnt → attempt_at k c ≡ ok false c)
      → (tried' : ℕ → Bool) × (insert_loop cfg ops attempt_at wanted count i tried c
          ≡ ok (false, tried') c)
  unfolding insert_loop
  insert_loop-false attempt_at wanted c zero i tried colides = (tried, refl)
  insert_loop-false attempt_at wanted c (suc count) i tried colides =
      elim (Bool-cases (ltb i c.tree_cnt)) [
        | inr out ↦ (tried, rw out)
        | inl inside ↦ elim (Bool-cases (wanted (c.info (c.trees i)) i)) [
          | inl wants ↦
              let (tried', e) =
                insert_loop-false attempt_at wanted c count (i + 1) (update tried i true) colides in
              (tried', rw (inside, wants, colides i (ground arith)) e)
          | inr skips ↦
              let (tried', e) = insert_loop-false attempt_at wanted c count (i + 1) tried colides in
              (tried', rw (inside, skips) e)
        ]
      ]

  try_insert-false :
      (again : RuleSpec → Cmd (Classifier Tree) (Unit {0})) (rule : RuleSpec) (mask : List ℕ)
      (c : Classifier Tree) (i : ℕ)
      → ops.does_rule_colide (c.info (c.trees i)).tree rule ≡ true
      → try_insert_to_tree_without_collisions cfg ops again rule mask i c ≡ ok false c
  unfolding try_insert_to_tree_without_collisions
  try_insert-false again rule mask c i colides = rw (colides, if◌then◌else◌)

  -- If the rule collides with every tree in use and no other tree is left, `insert` throws a runtime
  -- error.
  pub insert-runtime_error :
      (fuel : ℕ) (rule : RuleSpec) (c : Classifier Tree)
      → ((i : ℕ) → i < c.tree_cnt → ops.does_rule_colide (c.info (c.trees i)).tree rule ≡ true)
      → cfg.max_tree_cnt ≤ c.tree_cnt
      → insert cfg ops (suc fuel) rule c ≡ fail Fault.runtime_error
  unfolding insert
  insert-runtime_error fuel rule c colides full =
      let mask = get_rule_mask cfg.key_bytes rule in
      let attempt_at =
        try_insert_to_tree_without_collisions cfg ops (insert cfg ops fuel) rule mask in
      let stuck : (i : ℕ) → i < c.tree_cnt → attempt_at i c ≡ ok false c =
        λ i h. try_insert-false (insert cfg ops fuel) rule mask c i (colides i h) in
      let (tried, e) =
        insert_loop-false attempt_at (λ t i. has_mask cfg ops mask t) c cfg.max_tree_cnt 0
          (λ _. false) stuck in
      let (_, e') =
        insert_loop-false attempt_at (λ t i. not (tried i)) c cfg.max_tree_cnt 0 tried stuck in
      let no_room : ltb c.tree_cnt cfg.max_tree_cnt ≡ false = ground arith in
      rw (e, e', no_room) refl
