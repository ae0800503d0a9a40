-- ===== src/BTree/Views/SplitUpper.antt =====
-- include/pcv/partition_sort/b_tree_insert.h: what the first steps of `split_child` leave in the child y
-- and in the new node z.
use pclass_vectorized.Prelude.{
  ℕ, ◌+◌, ◌≡◌, ◌≢◌, refl, ap, ◌∙◌, Bool, true, false, if◌then◌else◌, update, update_self, update_ne,
}
use pclass_vectorized.Prelude.State.{pure, ◌>>=◌, for_up}
use pclass_vectorized.BTree.{Ptr, Tree, modify, move_key, set_key_cnt, get_key}
use pclass_vectorized.BTree.Navigator.{child, set_child}
use pclass_vectorized.BTree.Insert.Split.{move_upper}
use pclass_vectorized.BTree.Views.{
  View, Views, views, put_key, put_child, put_cnt, Acts, Acts-refl, modify-Acts, move_key-Acts,
  copy_child-Acts, set_key_cnt-Acts, fold_up, for_up-Acts,
}
use pclass_vectorized.BTree.Views.Loops.{window, fold_up-onto, update-update}

abbrev pub upper : ℕ → View → View → View
upper d y z = record z {
  key = window 0 d (λ l. y.key (d + l + 1)) z.key;
  link = if y.leaf then z.link else window 0 (d + 1) (λ l. y.link (d + l + 1)) z.link;
  cnt = d;
  leaf = y.leaf;
}

-- A second write of a node changes what the first one left.
pub rewritten :
    (m : Views) (p : Ptr) (v : View) (f : View → View)
    → update (update m p v) p (f (update m p v p)) ≡ update m p (f v)
rewritten m p v f =
    ap (λ w. update (update m p v) p (f w)) (update_self m p v) ∙ update-update m p v (f v)

pub start-Acts :
    (z : Ptr) (leaf : Bool) (d : ℕ) (s : Tree)
    → Acts
        (modify z λ m. set_key_cnt (record m { is_leaf = leaf }) d)
        s
        (λ m. update m z (record (m z) { cnt = d; leaf = leaf }))
unfolding set_key_cnt get_key
start-Acts z leaf d s =
    modify-Acts z (λ m. set_key_cnt (record m { is_leaf = leaf }) d)
      (λ v. record v { cnt = d; leaf = leaf }) s refl

children-Acts :
    (leaf : Bool) (d : ℕ) (y z : Ptr) (s : Tree)
    → Acts
        (if leaf
          then pure tt
          else for_up (d + 1) 0 λ j. do ch ← child y (d + j + 1); set_child z j ch)
        s
        (if leaf
          then (λ m. m)
          else fold_up (d + 1) 0 λ j m. put_child z j ((m y).link (d + j + 1)) m)
children-Acts true d y z s = Acts-refl s
children-Acts false d y z s =
    for_up-Acts (d + 1) 0 (λ j. do ch ← child y (d + j + 1); set_child z j ch)
      (λ j m. put_child z j ((m y).link (d + j + 1)) m) s λ j t. copy_child-Acts y z (d + j + 1) j t

-- The links of z, before the number of keys of y is set.
children_lem :
    (leaf : Bool) (d : ℕ) (y z : Ptr) (m : Views) (v : View)
    → y ≢ z
    → (if leaf then (λ n. n) else fold_up (d + 1) 0 λ j n. put_child z j ((n y).link (d + j + 1)) n)
        (update m z v)
      ≡ update m z (record v {
        link = if leaf then v.link else window 0 (d + 1) (λ l. (m y).link (d + l + 1)) v.link;
      })
children_lem true d y z m v ne = refl
children_lem false d y z m v ne =
    fold_up-onto (λ w. w.link) (λ w f. record w { link = f }) (λ w f. refl) (λ w. refl)
      (λ w f g. refl) y z (λ j. d + j + 1) (d + 1) 0 m v ne

pub move_upper-Acts :
    (d : ℕ) (y z : Ptr) (m : Views) (s : Tree)
    → y ≢ z
    → views s ≡ update m z (record (m z) { cnt = d; leaf = (m y).leaf })
    → Acts
        (move_upper d (m y).leaf y z)
        s
        (λ _. update (update m z (upper d (m y) (m z))) y (record (m y) { cnt = d }))
unfolding move_upper
move_upper-Acts d y z m s ne e1 =
    let leaf = (m y).leaf in
    let started : View = record (m z) { cnt = d; leaf = leaf } in
    let filled : View = record started {
      key = window 0 d (λ l. (m y).key (d + l + 1)) (m z).key;
    } in
    let a2 =
      for_up-Acts d 0 (λ j. move_key y (d + j + 1) z j)
        (λ j n. put_key z j ((n y).key (d + j + 1)) n) s
        (λ j t. move_key-Acts y z (d + j + 1) j t) in
    let a3 = children-Acts leaf d y z a2.state in
    let a4 = set_key_cnt-Acts y d a3.state in
    let e2 : views a2.state ≡ update m z filled =
      a2.shown
      ∙ ap (fold_up d 0 (λ j n. put_key z j ((n y).key (d + j + 1)) n)) e1
      ∙ fold_up-onto (λ w. w.key) (λ w f. record w { key = f }) (λ w f. refl) (λ w. refl)
          (λ w f g. refl) y z (λ j. d + j + 1) d 0 m started ne in
    let e3 : views a3.state ≡ update m z (upper d (m y) (m z)) =
      a3.shown
      ∙ ap
          (if leaf
            then (λ n. n)
            else fold_up (d + 1) 0 λ j n. put_child z j ((n y).link (d + j + 1)) n)
          e2
      ∙ children_lem leaf d y z m filled ne in
    record {
      state = a4.state;
      run = rw (a2.run, a3.run) a4.run;
      shown =
          a4.shown
          ∙ ap (put_cnt y d) e3
          ∙ ap (λ w. update (update m z (upper d (m y) (m z))) y (record w { cnt = d }))
              (update_ne m z y (upper d (m y) (m z)) ne);
      pool = a4.pool ∙ a3.pool ∙ a2.pool;
      root = a4.root ∙ a3.root ∙ a2.root;
      order = a4.order ∙ a3.order ∙ a2.order;
    }
