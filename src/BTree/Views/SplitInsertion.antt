-- ===== src/BTree/Views/SplitInsertion.antt =====
-- include/pcv/partition_sort/b_tree_insert.h: `insert_non_full` where the child is full and is split.
use pclass_vectorized.Prelude.{
  ℕ, suc, ◌+◌, ◌<◌, ◌≤◌, ◌≡◌, ◌≢◌, ◌⊎◌, ◌↔◌, refl, sym, ap, ◌∙◌, subst, inl, inr, true, false, none,
  some, List, [], ◌∷◌, arith, ◌==◌, if◌then◌else◌, Bool-cases,
}
use pclass_vectorized.Range.{Range1d, lt_range}
use pclass_vectorized.Mempool.Slots.{has}
use pclass_vectorized.BTree.{BTreeCfg, Ptr, KeyInfo, Tree, min_degree, max_degree}
use pclass_vectorized.BTree.Insert.{insert_non_full}
use pclass_vectorized.BTree.Insert.Cookie.{InsertCookie}
use pclass_vectorized.BTree.Views.{View, view, Views, views}
use pclass_vectorized.BTree.Views.Split.{linked}
use pclass_vectorized.BTree.Views.Linked.{key_middle, child_before, child_new}
use pclass_vectorized.BTree.Views.Levels.{
  node_key, Has, own, child_has, Under, top, below, IsOrdered,
}
use pclass_vectorized.BTree.Views.Shape.{IsTreeShaped}
use pclass_vectorized.BTree.Views.Grown.{Grown, Grown-up, unused-up, Place}
use pclass_vectorized.BTree.Views.Places.{Place-linked}
use pclass_vectorized.BTree.Views.Insertion.{
  CanInsert, IsLastKey, Inserts, Claim, most, new, place_of, place_lem, run_split,
}
use pclass_vectorized.BTree.Views.SplitResult.{SplitResult, split_child-SplitResult}

-- Growth after a change that keeps the keys and adds at most the node z.
Grown-after :
    (m m1 m2 : Views) (most h : ℕ) (node y z : Ptr) (new : KeyInfo) (free rest : List ℕ)
    → Under m (some node) y
    → has z free ≡ true
    → ((q : ℕ) → has q rest ≡ true → has q free ≡ true)
    → ((k : KeyInfo) → Has m (some node) k ↔ Has m1 (some node) k)
    → ((q : Ptr) → Under m1 (some node) q → Under m (some node) q ⊎ (q ≡ z))
    → ((q : Ptr) → q ≢ node → q ≢ y → q ≢ z → m1 q ≡ m q)
    → Grown m1 m2 most h (some node) new rest
    → Grown m m2 most h (some node) new free
Grown-after m m1 m2 most h node y z new free rest under_y slot_z fewer same nodes others grown =
    record {
      level = grown.level;
      shape = grown.shape;
      kept = λ k held. grown.kept k ((same k).0 held);
      added = grown.added;
      only = λ k held. elim (grown.only k held) [
        | inl before ↦ inl ((same k).1 before)
        | inr e ↦ inr e
      ];
      nodes = λ q u. elim (grown.nodes q u) [
        | inr slot ↦ inr (fewer q slot)
        | inl u1 ↦ elim (nodes q u1) [ inl before ↦ inl before | inr e ↦ inr (rw e slot_z) ]
      ];
      others = λ q out unused.
          let not_z : q ≢ z = λ e. cc (subst (λ x. has x free ≡ false) e unused) in
          let out1 : ¬ Under m1 (some node) q =
            λ u. elim (nodes q u) [ inl before ↦ out before | inr e ↦ not_z e ] in
          let unused1 : has q rest ≡ false = elim (Bool-cases (has q rest)) [
            | inl slot ↦ cc (fewer q slot)
            | inr unused' ↦ unused'
          ] in
          grown.others q out1 unused1
          ∙ others q (λ e. out (subst (Under m (some node)) (sym e) top))
              (λ e. out (subst (Under m (some node)) (sym e) under_y)) not_z;
    }

module _ (cfg : BTreeCfg) (cookie : InsertCookie) (k : Range1d) (order : List ℕ)
    (given : IsLastKey cfg cookie k order) where
  abbrev most_keys : ℕ
  most_keys = max_degree cfg

  abbrev new_key : KeyInfo
  new_key = record { key = k; value = cookie.rule.value; next_level = none }

  -- The insertion goes on at child i' of the node, the node c.
  insert-behind :
      (fuel h i i' : ℕ) (p y z c : Ptr) (s t : Tree) (rest : List ℕ)
      → s.dimension_order ≡ order
      → CanInsert cfg (suc (suc h)) p k s (z ∷ rest)
      → (s.node p).is_leaf ≡ false
      → Under (views s) (some p) y
      → SplitResult cfg h i p y z s t (z ∷ rest) rest
      → insert_non_full cfg (suc fuel) p cookie s ≡ insert_non_full cfg fuel c cookie t
      → i' ≤ (t.node p).key_cnt
      → (t.node p).child_index i' ≡ some c
      → (t.node c).key_cnt < most_keys
      → Place (view (t.node p)) k i'
      → Claim cfg cookie k order given fuel (suc h)
      → Inserts cfg cookie k order given (suc fuel) (suc (suc h)) p s (z ∷ rest)
  insert-behind fuel h i i' p y z c s t rest eo can inner under_y split run le at room place claim =
      let m = views s in
      let m1 = views t in
      let inner1 : (m1 p).leaf ≡ false = ap (λ (x : View). x.leaf) split.node_after ∙ inner in
      let level_c : IsOrdered m1 (suc h) (some c) =
        subst (IsOrdered m1 (suc h)) at (split.level.2 inner1 i' le).0 in
      let shape_c : IsTreeShaped m1 most_keys (suc h) (some c) =
        subst (IsTreeShaped m1 most_keys (suc h)) at (split.shape.1 inner1 i' le).0 in
      let r = claim c t rest (split.order ∙ eo) (record {
        level = level_c;
        shape = shape_c;
        room = room;
        apart =
            λ x held. can.apart x ((split.same x).1 (child_has {j = i'} inner1 le (rw at held)));
        slots = split.slots;
        enough = omega (arith, can.enough);
        fresh = λ q u. split.fresh q (below {j = i'} inner1 le (rw at u));
      }) in
      let child_grown : Grown m1 (views r.state) most_keys (suc h) ((m1 p).link i') new_key rest =
        rw at r.grown in
      let grown1 =
        Grown-up m1 (views r.state) most_keys (suc h) i' p new_key rest inner1 le place split.fresh
          split.level split.shape child_grown in
      let fewer : (q : ℕ) → has q rest ≡ true → has q (z ∷ rest) ≡ true = λ q e. ground arith in
      record {
        state = r.state;
        run = run ∙ r.run;
        grown =
            Grown-after m m1 (views r.state) most_keys (suc (suc h)) p y z new_key (z ∷ rest) rest
              under_y (ground arith) fewer split.same split.nodes split.others grown1;
        rest = r.rest;
        slots = r.slots;
        fewer = λ q e. fewer q (r.fewer q e);
        fresh =
            unused-up m1 (views r.state) most_keys (suc h) i' p new_key rest inner1 le place
              split.fresh split.level split.shape child_grown r.rest r.fewer (rw at r.fresh);
        root = r.root ∙ split.root;
        same_order = r.same_order ∙ split.order;
      }

  pub insert-split :
      (fuel h : ℕ) (p y : Ptr) (s : Tree) (free : List ℕ)
      → s.dimension_order ≡ order
      → CanInsert cfg (suc (suc h)) p k s free
      → (s.node p).is_leaf ≡ false
      → (s.node p).child_index (place_of cfg cookie k order given s p) ≡ some y
      → ((s.node y).key_cnt == most_keys) ≡ true
      → Claim cfg cookie k order given fuel (suc h)
      → Inserts cfg cookie k order given (suc fuel) (suc (suc h)) p s free
  insert-split fuel h p y s [] eo can inner at full claim = absurd (omega (arith, can.enough))
  insert-split fuel h p y s (z ∷ rest) eo can inner at full claim =
      let m = views s in
      let d = min_degree cfg in
      let i = place_of cfg cookie k order given s p in
      let (le, place) = place_lem cfg cookie k order given (suc h) p s (z ∷ rest) can in
      let full' : (s.node y).key_cnt ≡ most_keys = ground arith in
      let (t, split) =
        split_child-SplitResult cfg h i p y z s rest given.degree can.level can.shape can.room inner
          le at full' can.slots can.fresh in
      let middle = (m y).key d in
      let under_y : Under m (some p) y = below {j = i} inner le (rw at top) in
      let small : d < most_keys = omega (arith, given.degree) in
      let has_middle : Has m (some y) middle = own {l = d} (omega (arith, full', small)) refl in
      let level_y = subst (IsOrdered m (suc h)) at (can.level.2 inner i le).0 in
      let place1 =
        Place-linked middle i z (m p) k le (level_y.0.0 d (omega (arith, full', small))) given.full
          (can.apart middle (child_has {j = i} inner le (rw at has_middle))) place in
      let v' = split.node_after in
      let key_i : (t.node p).keys i ≡ middle.key =
        node_key (t.node p) i
        ∙ ap (λ (x : View). (x.key i).key) v'
        ∙ ap (λ (x : KeyInfo). x.key) (key_middle middle i z (m p) le) in
      let cnt : (t.node p).key_cnt ≡ (s.node p).key_cnt + 1 = ap (λ (x : View). x.cnt) v' in
      elim (Bool-cases (lt_range middle.key k)) [
        | inl less ↦
            let at' : (t.node p).child_index (i + 1) ≡ some z =
              ap (λ (x : View). x.link (i + 1)) v' ∙ child_new middle i z (m p) le in
            let place' : Place (linked middle i z (m p)) k (i + 1) =
              subst (λ b. Place (linked middle i z (m p)) k (if b then i + 1 else i)) less place1 in
            insert-behind fuel h i (i + 1) p y z z s t rest eo can inner under_y split
              (run_split cfg cookie k order given fuel p y z s t eo inner at full split.run
                (rw (key_i, less) at'))
              (omega (arith, cnt)) at' (omega (arith, split.z_cnt))
              (subst (λ x. Place x k (i + 1)) (sym v') place') claim
        | inr more ↦
            let at' : (t.node p).child_index i ≡ some y =
              ap (λ (x : View). x.link i) v'
              ∙ child_before middle i z (m p) le i (omega arith)
              ∙ at in
            let place' : Place (linked middle i z (m p)) k i =
              subst (λ b. Place (linked middle i z (m p)) k (if b then i + 1 else i)) more place1 in
            insert-behind fuel h i i p y z y s t rest eo can inner under_y split
              (run_split cfg cookie k order given fuel p y y s t eo inner at full split.run
                (rw (key_i, more) at'))
              (omega (arith, cnt)) at' (omega (arith, split.y_cnt))
              (subst (λ x. Place x k i) (sym v') place') claim
      ]
