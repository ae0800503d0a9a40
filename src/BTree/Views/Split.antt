-- ===== src/BTree/Views/Split.antt =====
-- include/pcv/partition_sort/b_tree_insert.h: what `split_child` leaves in the node, in its child y and
-- in the new node z.
use pclass_vectorized.Prelude.{
  ltb, if◌then◌else◌, ◌<◌, arith, true, ℕ, ◌+◌, ◌-◌, ◌≡◌, ◌≢◌, refl, sym, ap, ◌∙◌, some, update,
  update_self, update_ne,
}
use pclass_vectorized.Prelude.State.{Fault, throw, ok, and_then}
use pclass_vectorized.Mempool.Dynamic.{DynamicMempool}
use pclass_vectorized.Mempool.Dynamic
use pclass_vectorized.BTree.{
  BTreeCfg, Ptr, KeyInfo, Node, Tree, max_degree, modify, new_node, move_key, set_key_cnt,
  min_degree,
}
use pclass_vectorized.BTree.Navigator.{move_child}
use pclass_vectorized.BTree.Insert.Split.{move_upper, link_upper, split_child}
use pclass_vectorized.BTree.Views.{
  View, view, Views, views, put_key, put_child, put_cnt, Acts, move_key-Acts, set_child-Acts,
  views-update, move_child-Acts, set_key_cnt-Acts, fold_down, for_down-Acts, update_same,
}
use pclass_vectorized.BTree.Views.Loops.{window, fold_down-onto}
use pclass_vectorized.BTree.Views.SplitUpper.{upper, rewritten, start-Acts, move_upper-Acts}

abbrev pub linked : KeyInfo → ℕ → Ptr → View → View
linked middle i z n = record n {
  key = update (window (i + 1) (n.cnt - i) (λ l. n.key (l - 1)) n.key) i middle;
  link = update (window (i + 1 + 1) (n.cnt - i) (λ l. n.link (l - 1)) n.link) (i + 1) (some z);
  cnt = n.cnt + 1;
}

link_upper-Acts :
    (d i : ℕ) (node y z : Ptr) (s : Tree)
    → y ≢ node
    → Acts
        (link_upper d (s.node node).key_cnt i node y z)
        s
        (λ m. update m node (linked ((m y).key d) i z (m node)))
unfolding link_upper
link_upper-Acts d i node y z s ne =
    let m = views s in
    let c = (s.node node).key_cnt in
    let v = m node in
    let v1 : View = record v { link = window (i + 1 + 1) (c - i) (λ l. v.link (l - 1)) v.link } in
    let v2 : View = record v1 { link = update v1.link (i + 1) (some z) } in
    let v3 : View = record v2 { key = window (i + 1) (c - i) (λ l. v.key (l - 1)) v.key } in
    let v4 : View = record v3 { key = update v3.key i ((m y).key d) } in
    let a1 =
      for_down-Acts (c - i) (i + 1) (λ j. move_child node j node (j + 1))
        (λ j n. put_child node (j + 1) ((n node).link j) n) s
        (λ j t. move_child-Acts node node j (j + 1) t) in
    let a2 = set_child-Acts node (i + 1) (some z) a1.state in
    let a3 =
      for_down-Acts (c - i) i (λ j. move_key node j node (j + 1))
        (λ j n. put_key node (j + 1) ((n node).key j) n) a2.state
        (λ j t. move_key-Acts node node j (j + 1) t) in
    let a4 = move_key-Acts y node d i a3.state in
    let a5 = set_key_cnt-Acts node (c + 1) a4.state in
    let e1 : views a1.state ≡ update m node v1 =
      a1.shown
      ∙ ap (fold_down (c - i) (i + 1) (λ j n. put_child node (j + 1) ((n node).link j) n))
          (sym (update_same m node))
      ∙ fold_down-onto (λ w. w.link) (λ w f. record w { link = f }) (λ w f. refl) (λ w. refl)
          (λ w f g. refl) node (c - i) (i + 1) m v in
    let e2 : views a2.state ≡ update m node v2 =
      a2.shown
      ∙ ap (put_child node (i + 1) (some z)) e1
      ∙ rewritten m node v1 (λ w. record w { link = update w.link (i + 1) (some z) }) in
    let e3 : views a3.state ≡ update m node v3 =
      a3.shown
      ∙ ap (fold_down (c - i) i (λ j n. put_key node (j + 1) ((n node).key j) n)) e2
      ∙ fold_down-onto (λ w. w.key) (λ w f. record w { key = f }) (λ w f. refl) (λ w. refl)
          (λ w f g. refl) node (c - i) i m v2 in
    let e4 : views a4.state ≡ update m node v4 =
      a4.shown
      ∙ ap (λ n. put_key node i ((n y).key d) n) e3
      ∙ ap (λ w. put_key node i (w.key d) (update m node v3)) (update_ne m node y v3 ne)
      ∙ rewritten m node v3 (λ w. record w { key = update w.key i ((m y).key d) }) in
    record {
      state = a5.state;
      run = rw (a1.run, a2.run, a3.run, a4.run) a5.run;
      shown =
          a5.shown
          ∙ ap (put_cnt node (c + 1)) e4
          ∙ rewritten m node v4 (λ w. record w { cnt = c + 1 });
      pool = a5.pool ∙ a4.pool ∙ a3.pool ∙ a2.pool ∙ a1.pool;
      root = a5.root ∙ a4.root ∙ a3.root ∙ a2.root ∙ a1.root;
      order = a5.order ∙ a4.order ∙ a3.order ∙ a2.order ∙ a1.order;
    }

-- The views after `split_child`.
abbrev pub split_views : ℕ → ℕ → Ptr → Ptr → Ptr → Views → Views
split_views d i node y z m =
    let halves = update (update m z (upper d (m y) (m z))) y (record (m y) { cnt = d }) in
    update halves node (linked ((m y).key d) i z (m node))

-- The state in which the new node stands.
abbrev allocated : BTreeCfg → Ptr → DynamicMempool → Tree → Tree
allocated cfg z pool s = record s { pool = pool; node = update s.node z (new_node cfg) }

split_child_steps :
    (cfg : BTreeCfg) (node : Ptr) (i : ℕ) (y z : Ptr) (pool : DynamicMempool) (s : Tree)
    → Dynamic.get s.pool ≡ ok z pool
    → split_child cfg node i y s
      ≡ and_then
          (modify z
            (λ m.
              set_key_cnt
                (record m { is_leaf = ((allocated cfg z pool s).node y).is_leaf })
                (min_degree cfg))
            (allocated cfg z pool s))
          (λ _ t.
            and_then
              (move_upper (min_degree cfg) ((allocated cfg z pool s).node y).is_leaf y z t)
              (λ _ u.
                (if ltb (u.node node).key_cnt (max_degree cfg)
                    then link_upper (min_degree cfg) (u.node node).key_cnt i node y z
                    else throw Fault.out_of_range)
                  u))
unfolding split_child
split_child_steps cfg node i y z pool s got = rw (and_then, got) refl

pub split_child-views :
    (cfg : BTreeCfg) (node : Ptr) (i : ℕ) (y z : Ptr) (pool : DynamicMempool) (s : Tree)
    → Dynamic.get s.pool ≡ ok z pool
    → y ≢ z
    → node ≢ z
    → node ≢ y
    → (s.node node).key_cnt < max_degree cfg
    → (t : Tree) × (split_child cfg node i y s ≡ ok tt t)
      × (views t
          ≡ split_views (min_degree cfg) i node y z (update (views s) z (view (new_node cfg))))
      × (t.pool ≡ pool)
      × (t.root ≡ s.root)
      × (t.dimension_order ≡ s.dimension_order)
split_child-views cfg node i y z pool s got yz nz yn room =
    let d = min_degree cfg in
    let s0 = allocated cfg z pool s in
    let m = views s0 in
    let halves = update (update m z (upper d (m y) (m z))) y (record (m y) { cnt = d }) in
    let a1 = start-Acts z (s0.node y).is_leaf d s0 in
    let a2 = move_upper-Acts d y z (views s0) a1.state yz a1.shown in
    let a3 = link_upper-Acts d i node y z a2.state (λ e. yn (sym e)) in
    let kept : (a2.state.node node).key_cnt ≡ (s.node node).key_cnt =
      ap (λ (n : Views). (n node).cnt) a2.shown
      ∙ ap (λ (v : View). v.cnt)
          (update_ne (update m z (upper d (m y) (m z))) y node (record (m y) { cnt = d }) yn
            ∙ update_ne m z node (upper d (m y) (m z)) nz)
      ∙ ap (λ (n : Node). n.key_cnt) (update_ne s.node z node (new_node cfg) nz) in
    let fits : ltb (a2.state.node node).key_cnt (max_degree cfg) ≡ true =
      ground (arith, kept, room) in
    (
      a3.state,
      split_child_steps cfg node i y z pool s got
          ∙ ap
              (λ r. and_then r λ _ t. and_then (move_upper d (s0.node y).is_leaf y z t) λ _ u.
                (if ltb (u.node node).key_cnt (max_degree cfg)
                    then link_upper d (u.node node).key_cnt i node y z
                    else throw Fault.out_of_range)
                  u)
              a1.run
          ∙ rw (a2.run, fits) a3.run,
      a3.shown
          ∙ ap (λ n. update n node (linked ((n y).key d) i z (n node))) a2.shown
          ∙ ap (λ w. update halves node (linked (w.key d) i z (halves node)))
              (update_self (update m z (upper d (m y) (m z))) y (record (m y) { cnt = d }))
          ∙ ap (λ w. update halves node (linked ((m y).key d) i z w))
              (update_ne (update m z (upper d (m y) (m z))) y node (record (m y) { cnt = d }) yn
                ∙ update_ne m z node (upper d (m y) (m z)) nz)
          ∙ ap (split_views d i node y z) (views-update s z (new_node cfg)),
      a3.pool ∙ a2.pool ∙ a1.pool,
      a3.root ∙ a2.root ∙ a1.root,
      a3.order ∙ a2.order ∙ a1.order,
    )
