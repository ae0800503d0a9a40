-- ===== src/BTree/Views/NewRoot.antt =====
-- include/pcv/partition_sort/b_tree_insert.h: `insert_to_root` with a full root: a new root with the old
-- one as its only child.
use pclass_vectorized.Prelude.{
  ℕ, suc, ◌≤◌, ◌≡◌, ◌≢◌, ◌⊎◌, ◌↔◌, refl, ap, ◌∙◌, subst, inl, inr, false, some, List, arith, update,
  update_self, update_ne,
}
use pclass_vectorized.Prelude.State.{ok, and_then}
use pclass_vectorized.Mempool.Dynamic.{DynamicMempool}
use pclass_vectorized.BTree.{BTreeCfg, Ptr, KeyInfo, Node, Tree, new_node, get_key}
use pclass_vectorized.BTree.Navigator.{set_child}
use pclass_vectorized.BTree.Views.{View, view, Views, views, modify-Acts, put_child, set_child-Acts}
use pclass_vectorized.BTree.Views.Levels.{
  Has, child_has, Has-cases, Has-Agree, Under, Under-cases, Agree, Agree-sym, IsOrdered,
  IsOrdered-Agree,
}
use pclass_vectorized.BTree.Views.Shape.{IsTreeShaped, Under-same, IsTreeShaped-Agree}

-- The new root z above the old one p, in m'.
module _ (m m' : Views) (most h : ℕ) (p z : Ptr) (free : List ℕ) (inner : (m' z).leaf ≡ false)
    (plain : (m' z).compressed ≡ false) (empty : (m' z).cnt ≡ 0) (link : (m' z).link 0 ≡ some p)
    (others : (q : Ptr) → q ≢ z → m' q ≡ m q) (not_z : (q : Ptr) → Under m (some p) q → q ≢ z) where
  agree : Agree m m' (some p)
  agree q u = others q (not_z q u)

  the_child : (j : ℕ) → j ≤ (m' z).cnt → (m' z).link j ≡ some p
  the_child j le = ap (m' z).link (omega (arith, empty)) ∙ link

  pub IsOrdered-root : IsOrdered m h (some p) → IsOrdered m' (suc h) (some z)
  IsOrdered-root o = (
    ((λ a lt. absurd (omega (arith, empty))), λ a b less lt. absurd (omega (arith, empty))),
    plain,
    λ _ j le.
        let e : j ≡ 0 = omega (arith, empty) in
        (
          rw (the_child j le) (IsOrdered-Agree m m' h (some p) agree o),
          ((λ k l held lt. absurd (omega arith)), λ k l held ge lt. absurd (omega (arith, empty))),
        ),
  )

  pub IsTreeShaped-root : IsTreeShaped m most h (some p) → IsTreeShaped m' most (suc h) (some z)
  IsTreeShaped-root shape = (
    omega (arith, empty),
    λ _ j le. (
      rw (the_child j le) (IsTreeShaped-Agree m m' most h (some p) agree shape),
      (λ q u.
          not_z q
            (Under-same m m' (some p) q agree (subst (λ c. Under m' c q) (the_child j le) u))),
      λ j' q le' ne u. absurd (omega (arith, empty)),
    ),
  )

  pub Has-root : (k : KeyInfo) → Has m' (some z) k ↔ Has m (some p) k
  Has-root k = (
    (λ held. elim (Has-cases m' z k held) [
      | inl (l, lt, e) ↦ absurd (omega (arith, empty))
      | inr (j, _, le, held') ↦
          Has-Agree m' m (subst (λ c. Has m' c k) (the_child j le) held')
            (Agree-sym m m' (some p) agree)
    ]),
    λ held. child_has {j = 0} inner (omega arith) (rw link (Has-Agree m m' held agree)),
  )

  pub Under-root : (q : Ptr) → Under m' (some z) q → Under m (some p) q ⊎ (q ≡ z)
  Under-root q u = elim (Under-cases m' z q u) [
    | inl e ↦ inr e
    | inr (j, _, le, u') ↦
        inl (Under-same m m' (some p) q agree (subst (λ c. Under m' c q) (the_child j le) u'))
  ]

-- The state with a new inner node.
abbrev pub inner_node : BTreeCfg → Ptr → DynamicMempool → Tree → Tree
inner_node cfg z pool s =
    let nodes = update s.node z (new_node cfg) in
    record s { pool = pool; node = update nodes z (record (nodes z) { is_leaf = false }) }

-- The state with the new root.
pub record HasRoot (cfg : BTreeCfg) (p z : Ptr) (pool : DynamicMempool) (s : Tree) : Type 0 where
  pub state : Tree
  pub run : set_child z 0 (some p) (inner_node cfg z pool s) ≡ ok tt state
  pub inner : (views state z).leaf ≡ false
  pub plain : (views state z).compressed ≡ false
  pub empty : (views state z).cnt ≡ 0
  pub link : (views state z).link 0 ≡ some p
  pub others : (q : Ptr) → q ≢ z → views state q ≡ views s q
  pub slots : state.pool ≡ pool
  pub root : state.root ≡ s.root
  pub order : state.dimension_order ≡ s.dimension_order

inner_view : (n : Node) → view (record n { is_leaf = false }) ≡ record (view n) { leaf = false }
unfolding get_key
inner_view n = refl

-- The view of the new root.
abbrev root_view : BTreeCfg → Ptr → View
root_view cfg p = record (view (new_node cfg)) {
  leaf = false;
  link = update (view (new_node cfg)).link 0 (some p);
}

-- Two changes of one node, of which the second one sets a link.
linked_once :
    (m : Views) (p z : Ptr) (v : View)
    → put_child z 0 (some p) (update m z v) z ≡ record v { link = update v.link 0 (some p) }
linked_once m p z v =
    update_self (update m z v) z
      (record (update m z v z) { link = update (update m z v z).link 0 (some p) })
    ∙ ap {B = View} (λ (x : View). record x { link = update x.link 0 (some p) }) (update_self m z v)

linked_others :
    (m : Views) (p z : Ptr) (v : View) (q : Ptr)
    → q ≢ z
    → put_child z 0 (some p) (update m z v) q ≡ m q
linked_others m p z v q ne =
    update_ne (update m z v) z q
      (record (update m z v z) { link = update (update m z v z).link 0 (some p) }) ne
    ∙ update_ne m z q v ne

pub new_root :
    (cfg : BTreeCfg) (p z : Ptr) (pool : DynamicMempool) (s : Tree) → HasRoot cfg p z pool s
unfolding new_node
new_root cfg p z pool s =
    let s0 : Tree = record s { pool = pool; node = update s.node z (new_node cfg) } in
    let v : View = record (views s0 z) { leaf = false } in
    let a1 =
      modify-Acts z (λ n. record n { is_leaf = false }) (λ x. record x { leaf = false }) s0
        (inner_view (s0.node z)) in
    let a2 = set_child-Acts z 0 (some p) a1.state in
    let shown = a2.shown ∙ ap (put_child z 0 (some p)) a1.shown in
    let at_z : views a2.state z ≡ root_view cfg p =
      ap (λ (x : Views). x z) shown
      ∙ linked_once (views s0) p z v
      ∙ ap {B = View}
          (λ (x : Node). record (view x) { leaf = false; link = update (view x).link 0 (some p) })
          (update_self s.node z (new_node cfg)) in
    record {
      state = a2.state;
      run = ap (λ r. and_then r (λ _. set_child z 0 (some p))) a1.run ∙ a2.run;
      inner = ap (λ (x : View). x.leaf) at_z;
      plain = ap (λ (x : View). x.compressed) at_z;
      empty = ap (λ (x : View). x.cnt) at_z;
      link = ap (λ (x : View). x.link 0) at_z;
      others = λ q ne.
          ap (λ (x : Views). x q) shown
          ∙ linked_others (views s0) p z v q ne
          ∙ ap view (update_ne s.node z q (new_node cfg) ne);
      slots = a2.pool ∙ a1.pool;
      root = a2.root ∙ a1.root;
      order = a2.order ∙ a1.order;
    }

-- The same state, as `set_child` computes it.
abbrev pub rooted : BTreeCfg → Ptr → Ptr → DynamicMempool → Tree → Tree
rooted cfg p z pool s =
    let s1 = inner_node cfg z pool s in
    let n = s1.node z in
    let nodes = update s1.node z (record n { child_index = update n.child_index 0 (some p) }) in
    record s1 { node = update nodes p (record (nodes p) { parent = some z }) }

pub rooted_lem :
    (cfg : BTreeCfg) (p z : Ptr) (pool : DynamicMempool) (s : Tree) (r : HasRoot cfg p z pool s)
    → rooted cfg p z pool s ≡ r.state
unfolding set_child
rooted_lem cfg p z pool s r = let e : ok tt (rooted cfg p z pool s) ≡ ok tt r.state = r.run in cc
