-- ===== src/BTree/Views/SplitChild.antt =====
-- include/pcv/partition_sort/b_tree_insert.h: `split_child` keeps a level a search tree with the same
-- keys.
use pclass_vectorized.Prelude.{
  ◌<◌, ℕ, suc, ◌+◌, ◌*◌, ◌≤◌, ◌≡◌, ◌≢◌, ◌↔◌, refl, sym, ap, ◌∙◌, subst, false, some, arith, update,
  update_self, update_ne,
}
use pclass_vectorized.Prelude.State.{ok}
use pclass_vectorized.Mempool.Dynamic.{DynamicMempool}
use pclass_vectorized.Mempool.Dynamic
use pclass_vectorized.BTree.{BTreeCfg, Ptr, KeyInfo, Tree, new_node, min_degree, max_degree}
use pclass_vectorized.BTree.Insert.Split.{split_child}
use pclass_vectorized.BTree.Views.{View, view, Views, views}
use pclass_vectorized.BTree.Views.SplitUpper.{upper}
use pclass_vectorized.BTree.Views.Split.{linked, split_views, split_child-views}
use pclass_vectorized.BTree.Views.Levels.{Has, own, Under, below, Agree, IsOrdered}
use pclass_vectorized.BTree.Views.Halves.{
  IsOrdered-lower, IsOrdered-upper, Has-lower, Has-upper, Has-halves,
}
use pclass_vectorized.BTree.Views.SplitLevel.{IsOrdered-split, Has-split, Has-unsplit}

-- The slot z is no node of the level; no link under the node leads back to it, and y stands under it
-- as child i only.
pub record IsSeparate (m : Views) (node y z : Ptr) (i : ℕ) : Type 0 where
  pub fresh : (q : Ptr) → Under m (some node) q → q ≢ z
  pub no_cycle : (j : ℕ) (q : Ptr) → j ≤ (m node).cnt → Under m ((m node).link j) q → q ≢ node
  pub once : (j : ℕ) (q : Ptr) → j ≤ (m node).cnt → j ≢ i → Under m ((m node).link j) q → q ≢ y
  pub no_cycle_y :
      (j : ℕ) (q : Ptr) → (m y).leaf ≡ false → j ≤ (m y).cnt → Under m ((m y).link j) q → q ≢ y

-- The nodes after the split, one by one.
module _ (d i : ℕ) (node y z : Ptr) (m : Views) (w : View) (yz : y ≢ z) (nz : node ≢ z)
    (ny : node ≢ y) where
  abbrev after : Views
  after = split_views d i node y z (update m z w)

  abbrev m0 : Views
  m0 = update m z w

  abbrev m1 : Views
  m1 = update m0 z (upper d (m0 y) (m0 z))

  abbrev y' : View
  y' = record (m0 y) { cnt = d }

  abbrev node' : View
  node' = linked ((m0 y).key d) i z (m0 node)

  same_y : m0 y ≡ m y
  same_y = update_ne m z y w yz

  at_node : after node ≡ linked ((m y).key d) i z (m node)
  at_node =
      update_self (update m1 y y') node node'
      ∙ ap (λ (x : View). linked (x.key d) i z (m0 node)) same_y
      ∙ ap (linked ((m y).key d) i z) (update_ne m z node w nz)

  at_y : after y ≡ record (m y) { cnt = d }
  at_y =
      update_ne (update m1 y y') node y node' (λ e. ny (sym e))
      ∙ update_self m1 y y'
      ∙ ap {B = View} (λ (x : View). record x { cnt = d }) same_y

  at_z : after z ≡ upper d (m y) w
  at_z =
      update_ne (update m1 y y') node z node' (λ e. nz (sym e))
      ∙ update_ne m1 y z y' (λ e. yz (sym e))
      ∙ update_self m0 z (upper d (m0 y) (m0 z))
      ∙ ap (λ (x : View). upper d x (m0 z)) same_y
      ∙ ap (upper d (m y)) (update_self m z w)

  at_other : (q : Ptr) → q ≢ node → q ≢ y → q ≢ z → after q ≡ m q
  at_other q n ny' nz' =
      update_ne (update m1 y y') node q node' n
      ∙ update_ne m1 y q y' ny'
      ∙ update_ne m0 z q (upper d (m0 y) (m0 z)) nz'
      ∙ update_ne m z q w nz'

-- The level, from what the nodes are after the split.
module _ (m m' : Views) (d i h : ℕ) (node y z : Ptr) (w : View) (plain : w.compressed ≡ false)
    (inner : (m node).leaf ≡ false) (le : i ≤ (m node).cnt) (at_child : (m node).link i ≡ some y)
    (full : (m y).cnt ≡ 2 * d + 1) (separate : IsSeparate m node y z i)
    (node_after : m' node ≡ linked ((m y).key d) i z (m node))
    (y_after : m' y ≡ record (m y) { cnt = d }) (z_after : m' z ≡ upper d (m y) w)
    (others : (q : Ptr) → q ≢ node → q ≢ y → q ≢ z → m' q ≡ m q)
    (ordered : IsOrdered m (suc (suc h)) (some node)) where
  agree : (j : ℕ) → j ≤ (m node).cnt → j ≢ i → Agree m m' ((m node).link j)
  agree j le' ne q u =
      others q (separate.no_cycle j q le' u) (separate.once j q le' ne u)
        (separate.fresh q (below {j = j} inner le' u))

  Agree-y : (m y).leaf ≡ false → (j : ℕ) → j ≤ (m y).cnt → Agree m m' ((m y).link j)
  Agree-y leaf j le' q u =
      let under_y : Under m ((m node).link i) q = rw at_child (below {j = j} leaf le' u) in
      others q (separate.no_cycle i q le under_y) (separate.no_cycle_y j q leaf le' u)
        (separate.fresh q (below {j = i} inner le under_y))

  IsOrdered-y : IsOrdered m (suc h) (some y)
  IsOrdered-y = subst (IsOrdered m (suc h)) at_child (ordered.2 inner i le).0

  Has-middle : Has m (some y) ((m y).key d)
  Has-middle = own {l = d} (omega arith) refl

  pub split_level :
      IsOrdered m' (suc (suc h)) (some node)
      × ((k : KeyInfo) → Has m (some node) k ↔ Has m' (some node) k)
  split_level =
      let lower = IsOrdered-lower m m' d h y z w full y_after z_after plain Agree-y IsOrdered-y in
      let upper' = IsOrdered-upper m m' d h y z w full y_after z_after plain Agree-y IsOrdered-y in
      let has_lower = Has-lower m m' d h y z w full y_after z_after plain Agree-y IsOrdered-y in
      let has_upper = Has-upper m m' d h y z w full y_after z_after plain Agree-y IsOrdered-y in
      let has_halves = Has-halves m m' d h y z w full y_after z_after plain Agree-y IsOrdered-y in
      let positive = IsOrdered-y.0.0 d (omega arith) in
      let middle = (m y).key d in
      (
        IsOrdered-split m m' h i node y z middle le inner at_child node_after agree ordered lower
            upper' Has-middle positive has_lower has_upper has_halves,
        λ k. (
          Has-split m m' h i node y z middle le inner at_child node_after agree ordered lower upper'
              Has-middle positive has_lower has_upper has_halves k,
          Has-unsplit m m' h i node y z middle le inner at_child node_after agree ordered lower
              upper' Has-middle positive has_lower has_upper has_halves k,
        ),
      )

pub new_node_plain : (cfg : BTreeCfg) → (new_node cfg).is_compressed ≡ false
unfolding new_node
new_node_plain cfg = refl

-- What `split_child` leaves, node by node.
pub record SplitNodes (cfg : BTreeCfg) (node : Ptr) (i : ℕ) (y z : Ptr) (pool : DynamicMempool)
    (s : Tree) : Type 0 where
  pub state : Tree
  pub run : split_child cfg node i y s ≡ ok tt state
  pub node_after : views state node ≡ linked ((views s y).key (min_degree cfg)) i z (views s node)
  pub y_after : views state y ≡ record (views s y) { cnt = min_degree cfg }
  pub z_after : views state z ≡ upper (min_degree cfg) (views s y) (view (new_node cfg))
  pub others : (q : Ptr) → q ≢ node → q ≢ y → q ≢ z → views state q ≡ views s q
  pub slots : state.pool ≡ pool
  pub root : state.root ≡ s.root
  pub order : state.dimension_order ≡ s.dimension_order

pub split_child-SplitNodes :
    (cfg : BTreeCfg) (node : Ptr) (i : ℕ) (y z : Ptr) (pool : DynamicMempool) (s : Tree)
    → Dynamic.get s.pool ≡ ok z pool
    → y ≢ z
    → node ≢ z
    → node ≢ y
    → (s.node node).key_cnt < max_degree cfg
    → SplitNodes cfg node i y z pool s
split_child-SplitNodes cfg node i y z pool s got yz nz ny room =
    let m = views s in
    let d = min_degree cfg in
    let w = view (new_node cfg) in
    let (t, run, shown, pool', root', order') =
      split_child-views cfg node i y z pool s got yz nz ny room in
    record {
      state = t;
      run = run;
      node_after = ap (λ (x : Views). x node) shown ∙ at_node d i node y z m w yz nz ny;
      y_after = ap (λ (x : Views). x y) shown ∙ at_y d i node y z m w yz nz ny;
      z_after = ap (λ (x : Views). x z) shown ∙ at_z d i node y z m w yz nz ny;
      others =
          λ q a b c. ap (λ (x : Views). x q) shown ∙ at_other d i node y z m w yz nz ny q a b c;
      slots = pool';
      root = root';
      order = order';
    }
