-- ===== src/Classifier/Update.antt =====
-- include/pcv/partition_sort/partition_sort_classifier.h: insertion and removal of rules. A call of
-- `insert` may rebuild a tree and insert the rules that no longer fit into other trees, so that
-- `insert`, `try_insert_to_tree_without_collisions` and `update_dimension_order` run on fuel. The
-- source's loop over `ti.rules` reads the vector while an insertion may append to it; here it runs
-- over the rules that are there at its start.
pub mod Order
use pclass_vectorized.Prelude.{
  ℕ, zero, suc, ◌+◌, ◌-◌, Bool, true, false, ◌&&◌, not, Option, none, some, List, [], ◌∷◌, ◌++◌,
  map, ltb, ◌==◌, if◌then◌else◌, length, update, set, get_or,
}
use pclass_vectorized.Prelude.State.{Cmd, Fault, Run, ok, fail, pure, throw, ◌>>=◌, ◌>>◌}
use pclass_vectorized.Range.{is_wildcard}
use pclass_vectorized.Range.Mask.{get_mask_le}
use pclass_vectorized.BTree.{RuleSpec, RuleValueInt, field}
use pclass_vectorized.ArrayResort.{array_resort}
use pclass_vectorized.DimensionOrder.{resolve}
use pclass_vectorized.Classifier.Tree.{TreeOps, ClassifierCfg, TreeInfo, Classifier}
use pclass_vectorized.Classifier.Maps.{
  Masks, array_eq, rule_spec_eq, find, assign, erase, used_rule_mask_incr, used_rule_mask_decr,
}

-- `RuleValueInt::get_rule_mask`
unfoldable pub get_rule_mask : ℕ → RuleSpec → List ℕ
unfolding get_mask_le
get_rule_mask key_bytes rule = map (λ r. (get_mask_le key_bytes r).0) rule.ranges

module _ {Tree Packet : Type 0} (cfg : ClassifierCfg) (ops : TreeOps Tree Packet) where
  abbrev C : Type 0 → Type 0
  C A = Cmd (Classifier Tree) A

  -- A failure of a called function is an exception.
  abbrev attempt : {A : Type 0} → Option A → C A
  attempt none s = fail Fault.runtime_error
  attempt (some a) s = ok a s

  -- `*trees[i]` as a pointer, and what a pointer points to
  abbrev tree_at : ℕ → C ℕ
  tree_at i s = ok (s.trees i) s

  abbrev read : ℕ → C (TreeInfo Tree)
  read p s = ok (s.info p) s

  abbrev write : ℕ → TreeInfo Tree → C (Unit {0})
  write p t s = ok tt (record s { info = update s.info p t })

  abbrev get_tree_cnt : C ℕ
  get_tree_cnt s = ok s.tree_cnt s

  unfoldable pub resort_on_priority_change : ℕ → C (Unit {0})
  unfolding array_resort
  resort_on_priority_change original_i s = ok tt (record s {
    trees = array_resort (λ p. (s.info p).max_priority) s.trees s.tree_cnt original_i;
  })

  -- `tree.insert(r)`
  unfoldable pub insert_to_tree : ℕ → RuleSpec → C (Unit {0})
  insert_to_tree p rule = do
    t ← read p
    tree ← attempt (ops.insert t.tree rule)
    write p (record t { tree = tree })

  abbrev same_order : List ℕ → List ℕ → Bool
  same_order [] [] = true
  same_order [] (b ∷ bs) = false
  same_order (a ∷ as') [] = false
  same_order (a ∷ as') (b ∷ bs) = (a == b) && same_order as' bs

  abbrev resolve_order : List RuleSpec → List ℕ → C (List ℕ × ℕ)
  resolve_order rules order =
      attempt (resolve cfg.sort cfg.sort_scores cfg.key_bits cfg.d rules order)

  -- `rules.push_back` of the rule, if there is one
  abbrev with_rule : List RuleSpec → Option RuleSpec → List RuleSpec
  with_rule rules none = rules
  with_rule rules (some r) = rules ++ r ∷ []

  -- The loop that moves a dimension used by the rule in front of the unused ones, from place d_i on.
  unfoldable pub use_dimensions : RuleSpec → ℕ → ℕ → List ℕ × ℕ → List ℕ × ℕ
  use_dimensions rule zero d_i (order, used) = (order, used)
  use_dimensions rule (suc count) d_i (order, used) =
      let d = get_or order d_i 0 in
      let swapped = set (set order used d) d_i (get_or order used 0) in
      use_dimensions rule count (d_i + 1)
        (if is_wildcard cfg.key_bits (field rule d) then (order, used) else (swapped, used + 1))

  -- The loop over the rules of a tree that is rebuilt; `again` is the call of `insert`.
  unfoldable pub reinsert : (RuleSpec → C (Unit {0})) → ℕ → List RuleSpec → C (Unit {0})
  unfolding insert_to_tree
  reinsert again p [] = pure tt
  reinsert again p (r ∷ rs) = do
    t ← read p
    if ops.does_rule_colide t.tree r then again r else insert_to_tree p r
    reinsert again p rs

  -- `update_dimension_order`; `again` is the call of `insert`.
  unfoldable pub update_dimension_order :
      (RuleSpec → C (Unit {0})) → ℕ → Option RuleSpec → C (Unit {0})
  unfolding insert_to_tree reinsert
  update_dimension_order again p rule_to_add_before = do
    t ← read p
    if t.update_pending
        then (elim rule_to_add_before [
          | none ↦ pure tt
          | some r ↦ do
            insert_to_tree p r
            t' ← read p
            write p (record t' { rules = t'.rules ++ r ∷ [] })
        ])
        else do
          let rules = with_rule t.rules rule_to_add_before
          write p (record t { update_pending = true; rules = rules })
          let order = ops.dimension_order t.tree
          (new_order, used) ← resolve_order rules order
          if not (same_order order new_order)
              then (do
                let cleared = ops.set_dimension_order (ops.clear t.tree) new_order
                write p (record t {
                  update_pending = true;
                  rules = rules;
                  tree = cleared;
                  used_dim_cnt = used;
                })
                reinsert again p rules)
              else elim rule_to_add_before [ none ↦ pure tt | some r ↦ insert_to_tree p r ]
          t' ← read p
          write p (record t' { update_pending = false })

  -- `try_insert_to_tree_without_collisions`
  unfoldable pub try_insert_to_tree_without_collisions :
      (RuleSpec → C (Unit {0})) → RuleSpec → List ℕ → ℕ → C Bool
  unfolding update_dimension_order use_dimensions insert_to_tree resort_on_priority_change assign
      used_rule_mask_incr
  try_insert_to_tree_without_collisions again rule mask tree_i = do
    p ← tree_at tree_i
    t ← read p
    if ops.does_rule_colide t.tree rule then pure false else do
      write p (record t {
        rules = t.rules ++ rule ∷ [];
        used_rule_masks = used_rule_mask_incr mask t.used_rule_masks;
      })
      λ s. ok tt (record s { rule_to_tree = assign rule_spec_eq rule p s.rule_to_tree })
      if ltb (length t.rules + 1) cfg.tree_fixation_threshold
          then update_dimension_order again p (some rule)
          else do
            t' ← read p
            let (order, used) =
                use_dimensions rule (cfg.d - t.used_dim_cnt) t.used_dim_cnt
                  (ops.dimension_order t.tree, t.used_dim_cnt)
            write p
                (record t' { tree = ops.set_dimension_order t'.tree order; used_dim_cnt = used })
            insert_to_tree p rule
      t' ← read p
      if ltb t'.max_priority rule.value.priority
          then (do
            write p (record t' { max_priority = rule.value.priority })
            resort_on_priority_change tree_i)
          else pure tt
      pure true

  -- The two loops of `insert` over the trees i, ...: in the first one over the trees that hold a rule
  -- with the same mask, in the second one over the others. The result is whether the rule was
  -- inserted, and for which trees it was tried.
  unfoldable pub insert_loop :
      (ℕ → C Bool) → (TreeInfo Tree → ℕ → Bool) → ℕ → ℕ → (ℕ → Bool) → C (Bool × (ℕ → Bool))
  insert_loop attempt_at wanted zero i tried = pure (false, tried)
  insert_loop attempt_at wanted (suc count) i tried = do
    cnt ← get_tree_cnt
    p ← tree_at i
    t ← read p
    if not (ltb i cnt)
        then pure (false, tried)
        else if wanted t i
        then (do
          done ← attempt_at i
          if done
              then pure (true, tried)
              else insert_loop attempt_at wanted count (i + 1) (update tried i true))
        else insert_loop attempt_at wanted count (i + 1) tried

  -- `used_masks.find(this_rule_mask) != used_masks.end()`
  abbrev pub has_mask : List ℕ → TreeInfo Tree → Bool
  has_mask mask t = elim (find array_eq mask t.used_rule_masks) [ none ↦ false | some _ ↦ true ]

  -- The end of `insert`: a tree that is not in use yet takes the rule.
  unfoldable pub insert_to_new_tree : (RuleSpec → C (Unit {0})) → RuleSpec → List ℕ → C (Unit {0})
  unfolding update_dimension_order insert_to_tree resort_on_priority_change assign
      used_rule_mask_incr
  insert_to_new_tree again rule mask = do
    cnt ← get_tree_cnt
    p ← tree_at cnt
    t ← read p
    write p (record t { max_priority = rule.value.priority })
    if length t.rules == 0
        then (do
          (order, used) ← resolve_order (rule ∷ []) (ops.dimension_order t.tree)
          write p (record t {
            max_priority = rule.value.priority;
            tree = ops.set_dimension_order t.tree order;
            used_dim_cnt = used;
          }))
        else pure tt
    insert_to_tree p rule
    t' ← read p
    write p (record t' {
      rules = t'.rules ++ rule ∷ [];
      used_rule_masks = used_rule_mask_incr mask t'.used_rule_masks;
    })
    λ s. ok tt (record s { rule_to_tree = assign rule_spec_eq rule p s.rule_to_tree })
    if ltb 1 (length t'.rules + 1) then update_dimension_order again p none else pure tt
    cnt' ← get_tree_cnt
    λ s. ok tt (record s { tree_cnt = cnt' + 1 })
    resort_on_priority_change cnt'

  -- `insert`
  unfoldable pub insert : ℕ → RuleSpec → C (Unit {0})
  unfolding get_rule_mask find insert_loop try_insert_to_tree_without_collisions insert_to_new_tree
  insert zero rule = throw Fault.out_of_fuel
  insert (suc fuel) rule = do
    let mask = get_rule_mask cfg.key_bytes rule
    let attempt_at = try_insert_to_tree_without_collisions (insert fuel) rule mask
    (done, tried) ← insert_loop attempt_at (λ t i. has_mask mask t) cfg.max_tree_cnt 0 (λ _. false)
    if done then pure tt else do
      (done', _) ← insert_loop attempt_at (λ t i. not (tried i)) cfg.max_tree_cnt 0 tried
      if done' then pure tt else do
        cnt ← get_tree_cnt
        if ltb cnt cfg.max_tree_cnt
            then insert_to_new_tree (insert fuel) rule mask
            else throw Fault.runtime_error

  -- `remove`; the rule stays in the list of rules of its tree_info, from which a later rebuilding of
  -- the tree inserts it again. (The source reads `ti->second` after it has erased `ti`.)
  unfoldable pub remove : ℕ → RuleSpec → C (Unit {0})
  unfolding get_rule_mask find erase used_rule_mask_decr update_dimension_order insert
  remove fuel rule = do
    found ← (λ s. ok (find rule_spec_eq rule s.rule_to_tree) s)
    elim found [
      | none ↦ pure tt
      | some p ↦ do
        t ← read p
        tree ← attempt (ops.remove t.tree rule)
        λ s. ok tt (record s { rule_to_tree = erase rule_spec_eq rule s.rule_to_tree })
        masks ← attempt (used_rule_mask_decr (get_rule_mask cfg.key_bytes rule) t.used_rule_masks)
        write p (record t { tree = tree; used_rule_masks = masks })
        if ltb (length t.rules) cfg.tree_fixation_threshold
            then update_dimension_order (insert fuel) p none
            else pure tt
    ]
