-- ===== src/BTree/Views/SplitResult.antt =====
-- include/pcv/partition_sort/b_tree_insert.h: the level after `split_child`, from which an insertion
-- goes on.
use pclass_vectorized.Prelude.{
  ℕ, suc, ◌+◌, ◌*◌, ◌<◌, ◌≤◌, ◌≡◌, ◌≢◌, ◌⊎◌, ◌↔◌, sym, ap, ◌∙◌, inl, inr, false, some, List, ◌∷◌,
  arith,
}
use pclass_vectorized.Prelude.State.{ok}
use pclass_vectorized.Mempool.Slots.{has}
use pclass_vectorized.Mempool.Dynamic.FreeList.{IsFree, IsFree-head, get-IsFree}
use pclass_vectorized.BTree.{BTreeCfg, Ptr, KeyInfo, Tree, min_degree, max_degree, new_node}
use pclass_vectorized.BTree.Insert.Split.{split_child}
use pclass_vectorized.BTree.Views.{View, view, views}
use pclass_vectorized.BTree.Views.Split.{linked}
use pclass_vectorized.BTree.Views.Levels.{Has, Under, top, below, IsOrdered}
use pclass_vectorized.BTree.Views.Shape.{IsTreeShaped}
use pclass_vectorized.BTree.Views.SplitChild.{split_child-SplitNodes, split_level, new_node_plain}
use pclass_vectorized.BTree.Views.SplitShape.{IsTreeShaped-IsSeparate}
use pclass_vectorized.BTree.Views.SplitTree.{IsTreeShaped-split, Under-split}

-- The state of the level after the split, from which the insertion goes on.
pub record SplitResult (cfg : BTreeCfg) (h i : ℕ) (p y z : Ptr) (s t : Tree) (free rest : List ℕ)
    : Type 0 where
  pub run : split_child cfg p i y s ≡ ok tt t
  pub level : IsOrdered (views t) (suc (suc h)) (some p)
  pub shape : IsTreeShaped (views t) (max_degree cfg) (suc (suc h)) (some p)
  pub same : (k : KeyInfo) → Has (views s) (some p) k ↔ Has (views t) (some p) k
  pub nodes : (q : Ptr) → Under (views t) (some p) q → Under (views s) (some p) q ⊎ (q ≡ z)
  pub others : (q : Ptr) → q ≢ p → q ≢ y → q ≢ z → views t q ≡ views s q
  pub node_after : views t p ≡ linked ((views s y).key (min_degree cfg)) i z (views s p)
  pub y_cnt : (t.node y).key_cnt ≡ min_degree cfg
  pub z_cnt : (t.node z).key_cnt ≡ min_degree cfg
  pub slots : IsFree t.pool rest
  pub fresh : (q : Ptr) → Under (views t) (some p) q → has q rest ≡ false
  pub root : t.root ≡ s.root
  pub order : t.dimension_order ≡ s.dimension_order

pub split_child-SplitResult :
    (cfg : BTreeCfg) (h i : ℕ) (p y z : Ptr) (s : Tree) (rest : List ℕ)
    → 1 ≤ cfg.t
    → IsOrdered (views s) (suc (suc h)) (some p)
    → IsTreeShaped (views s) (max_degree cfg) (suc (suc h)) (some p)
    → (s.node p).key_cnt < max_degree cfg
    → (s.node p).is_leaf ≡ false
    → i ≤ (s.node p).key_cnt
    → (s.node p).child_index i ≡ some y
    → (s.node y).key_cnt ≡ max_degree cfg
    → IsFree s.pool (z ∷ rest)
    → ((q : Ptr) → Under (views s) (some p) q → has q (z ∷ rest) ≡ false)
    → (t : Tree) × SplitResult cfg h i p y z s t (z ∷ rest) rest
split_child-SplitResult cfg h i p y z s rest pos level shape room inner le at full slots fresh =
    let m = views s in
    let d = min_degree cfg in
    let w = view (new_node cfg) in
    let ((pool, got, slots', _), _, _) = get-IsFree s.pool (z ∷ rest) slots in
    let full' : (m y).cnt ≡ 2 * d + 1 = full ∙ omega arith in
    let not_z : (q : Ptr) → Under m (some p) q → q ≢ z = λ q u e. ground (arith, fresh q u) in
    let separate = IsTreeShaped-IsSeparate m (max_degree cfg) h i p y z shape inner le at not_z in
    let under_y : Under m (some p) y = below {j = i} inner le (rw at top) in
    let ny : p ≢ y = λ e. separate.no_cycle i y le (rw at top) (sym e) in
    let r = split_child-SplitNodes cfg p i y z pool s got (not_z y under_y) (not_z p top) ny room in
    let t = r.state in
    let (o, same) =
      split_level m (views t) d i h p y z w (new_node_plain cfg) inner le at full' separate
        r.node_after r.y_after r.z_after r.others level in
    let nodes =
      Under-split m (views t) (max_degree cfg) d h i p y z w ((m y).key d) full' room le inner at
        r.y_after r.z_after r.node_after r.others not_z shape in
    (
      t,
      record {
        run = r.run;
        level = o;
        shape =
            IsTreeShaped-split m (views t) (max_degree cfg) d h i p y z w ((m y).key d) full' room
              le inner at r.y_after r.z_after r.node_after r.others not_z shape;
        same = same;
        nodes = nodes;
        others = r.others;
        node_after = r.node_after;
        y_cnt = ap (λ (x : View). x.cnt) r.y_after;
        z_cnt = ap (λ (x : View). x.cnt) r.z_after;
        slots = rw r.slots slots';
        fresh = λ q u. elim (nodes q u) [
          | inl before ↦ ground (arith, fresh q before)
          | inr e ↦ rw e (IsFree-head s.pool z rest slots)
        ];
        root = r.root;
        order = r.order;
      },
    )
