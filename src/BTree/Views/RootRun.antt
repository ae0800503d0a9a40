-- ===== src/BTree/Views/RootRun.antt =====
-- include/pcv/partition_sort/b_tree_insert.h: the steps of `insert_to_root` with a full root.
use pclass_vectorized.Prelude.{
  ℕ, suc, ◌+◌, ◌≤◌, ◌≡◌, ◌≢◌, refl, sym, ap, ◌∙◌, subst, inl, inr, true, false, some, List, ◌∷◌,
  arith, length, ◌==◌, if◌then◌else◌, update,
}
use pclass_vectorized.Prelude.State.{ok, and_then}
use pclass_vectorized.Range.{Range1d, lt_range}
use pclass_vectorized.Mempool.Slots.{has}
use pclass_vectorized.Mempool.Dynamic.{DynamicMempool}
use pclass_vectorized.Mempool.Dynamic
use pclass_vectorized.Mempool.Dynamic.FreeList.{IsFree}
use pclass_vectorized.BTree.{BTreeCfg, Ptr, KeyInfo, Tree, max_degree, new_node, alloc}
use pclass_vectorized.BTree.Insert.{insert_non_full, insert_to_root}
use pclass_vectorized.BTree.Insert.Split.{split_child}
use pclass_vectorized.BTree.Insert.Cookie.{InsertCookie}
use pclass_vectorized.BTree.Views.{View, views}
use pclass_vectorized.BTree.Views.Levels.{Has, Under, IsOrdered}
use pclass_vectorized.BTree.Views.Shape.{IsTreeShaped}
use pclass_vectorized.BTree.Views.Places.{Apart}
use pclass_vectorized.BTree.Views.Insertion.{
  CanInsert, IsLastKey, place_empty, child_ptr, run_split,
}
use pclass_vectorized.BTree.Views.SplitResult.{split_child-SplitResult}
use pclass_vectorized.BTree.Views.NewRoot.{
  HasRoot, rooted, rooted_lem, IsOrdered-root, IsTreeShaped-root, Has-root, Under-root,
}

alloc_lem :
    (cfg : BTreeCfg) (z : Ptr) (pool : DynamicMempool) (s : Tree)
    → Dynamic.get s.pool ≡ ok z pool
    → alloc cfg s ≡ ok z (record s { pool = pool; node = update s.node z (new_node cfg) })
unfolding alloc
alloc_lem cfg z pool s got = rw (got, alloc) refl

module _ (cfg : BTreeCfg) (cookie : InsertCookie) (k : Range1d) (order : List ℕ)
    (given : IsLastKey cfg cookie k order) where
  root_run :
      (fuel : ℕ) (p z c : Ptr) (pool : DynamicMempool) (s t : Tree)
      → s.dimension_order ≡ order
      → (s.node p).is_compressed ≡ false
      → ((s.node p).key_cnt == max_degree cfg) ≡ true
      → Dynamic.get s.pool ≡ ok z pool
      → (r : HasRoot cfg p z pool s) → split_child cfg z 0 p r.state ≡ ok tt t
      → (t.node z).child_index (if lt_range ((t.node z).keys 0) k then 1 else 0) ≡ some c
      → insert_to_root cfg (suc fuel) (some p) cookie s
        ≡ and_then (insert_non_full cfg fuel c cookie t) (λ _ u. ok (some z) u)
  unfolding insert_to_root
  root_run fuel p z c pool s t eo plain full got r split at =
      let split' : split_child cfg z 0 p (rooted cfg p z pool s) ≡ ok tt t =
        ap (split_child cfg z 0 p) (rooted_lem cfg p z pool s r) ∙ split in
      rw (plain, full, given.actual s eo, alloc_lem cfg z pool s got, split', at) refl

  -- The new root has room for the key.
  pub root-CanInsert :
      (h : ℕ) (p z : Ptr) (pool : DynamicMempool) (s : Tree) (rest : List ℕ)
      → (r : HasRoot cfg p z pool s) → IsOrdered (views s) h (some p)
      → IsTreeShaped (views s) (max_degree cfg) h (some p)
      → ((x : KeyInfo) → Has (views s) (some p) x → Apart x.key k)
      → IsFree pool rest
      → has z rest ≡ false
      → h ≤ length rest
      → ((q : Ptr) → Under (views s) (some p) q → has q (z ∷ rest) ≡ false)
      → CanInsert cfg (suc h) z k r.state rest
  root-CanInsert h p z pool s rest r level shape apart slots once enough fresh =
      let m = views s in
      let m' = views r.state in
      let not_z : (q : Ptr) → Under m (some p) q → q ≢ z = λ q u e. ground (arith, fresh q u) in
      record {
        level =
            IsOrdered-root m m' (max_degree cfg) h p z rest r.inner r.plain r.empty r.link r.others
              not_z level;
        shape =
            IsTreeShaped-root m m' (max_degree cfg) h p z rest r.inner r.plain r.empty r.link
              r.others not_z shape;
        room = omega (arith, given.degree, r.empty);
        apart = λ x held. apart x (
            (Has-root m m' (max_degree cfg) h p z rest r.inner r.plain r.empty r.link r.others not_z
                x).0
              held);
        slots = rw r.slots slots;
        enough = omega arith;
        fresh = λ q u.
            elim (Under-root m m' (max_degree cfg) h p z rest r.inner r.plain r.empty r.link
              r.others not_z q u) [
                | inl before ↦ ground (arith, fresh q before)
                | inr e ↦ rw e once
              ];
      }

  -- The root splits, and the insertion goes on as from the new root.
  pub full-run :
      (fuel h : ℕ) (p z z1 : Ptr) (pool : DynamicMempool) (s u : Tree) (rest : List ℕ)
      → s.dimension_order ≡ order
      → (s.node p).is_compressed ≡ false
      → ((s.node p).key_cnt == max_degree cfg) ≡ true
      → Dynamic.get s.pool ≡ ok z pool
      → (r : HasRoot cfg p z pool s) → CanInsert cfg (suc (suc h)) z k r.state (z1 ∷ rest)
      → ((r.state.node p).key_cnt == max_degree cfg) ≡ true
      → insert_non_full cfg (suc (suc fuel)) z cookie r.state ≡ ok tt u
      → insert_to_root cfg (suc (suc fuel)) (some p) cookie s ≡ ok (some z) u
  full-run fuel h p z z1 pool s u rest eo plain full got r can full_r run =
      let full' : (r.state.node p).key_cnt ≡ max_degree cfg = ground arith in
      let none_yet : (r.state.node z).key_cnt ≡ 0 = r.empty in
      let (t, split) =
        split_child-SplitResult cfg h 0 z p z1 r.state rest given.degree can.level can.shape
          can.room r.inner (omega arith) r.link full' can.slots can.fresh in
      let inner1 : (t.node z).is_leaf ≡ false =
        ap (λ (x : View). x.leaf) split.node_after ∙ r.inner in
      let cnt : (t.node z).key_cnt ≡ (r.state.node z).key_cnt + 1 =
        ap (λ (x : View). x.cnt) split.node_after in
      let i' : ℕ = if lt_range ((t.node z).keys 0) k then 1 else 0 in
      let le : i' ≤ (t.node z).key_cnt = ground arith in
      let (c, at) =
        child_ptr cfg cookie k order given (views t) (suc h) ((t.node z).child_index i')
          (split.shape.1 inner1 i' le).0 in
      let eo' = r.order ∙ eo in
      let place = sym (place_empty cfg cookie k order given z r.state r.empty) in
      let same =
        run_split cfg cookie k order given (suc fuel) z p c r.state t eo' r.inner
          (subst (λ i. (r.state.node z).child_index i ≡ some p) place r.link) full_r
          (subst (λ i. split_child cfg z i p r.state ≡ ok tt t) place split.run)
          (subst
            (λ i.
              (t.node z).child_index (if lt_range ((t.node z).keys i) k then i + 1 else i) ≡ some c)
            place at) in
      root_run (suc fuel) p z c pool s t eo plain full got r split.run at
      ∙ ap (λ x. and_then x (λ _ v. ok (some z) v)) (sym same ∙ run)
