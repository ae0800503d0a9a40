-- ===== src/BTree/Views/Insertion.antt =====
-- include/pcv/partition_sort/b_tree_insert.h: `insert_non_full` in a level of any height.
use pclass_vectorized.Prelude.{
  ℕ, suc, ◌+◌, ◌<◌, ◌≤◌, ◌≡◌, refl, sym, ap, ◌∙◌, subst, true, false, Option, none, some, List,
  arith, length, ◌==◌, if◌then◌else◌,
}
use pclass_vectorized.Prelude.State.{ok}
use pclass_vectorized.Range.{Range1d, lt_range}
use pclass_vectorized.Mempool.Slots.{has}
use pclass_vectorized.Mempool.Dynamic.FreeList.{IsFree}
use pclass_vectorized.BTree.{BTreeCfg, Ptr, KeyInfo, Tree, max_degree, get_key}
use pclass_vectorized.BTree.Insert.{insert_non_full, child_for}
use pclass_vectorized.BTree.Insert.Split.{split_child}
use pclass_vectorized.BTree.Insert.Cookie.{InsertCookie, required_more_levels, actual_key}
use pclass_vectorized.BTree.LeafKeys.Insertion.{insert_non_full-KeysSorted}
use pclass_vectorized.BTree.Views.{view, Views, views}
use pclass_vectorized.BTree.Views.Levels.{
  Has, own, child_has, Under, top, below, Under-leaf, IsOrdered,
}
use pclass_vectorized.BTree.Views.Shape.{IsTreeShaped, cnt-le-most}
use pclass_vectorized.BTree.Views.Grown.{Grown, Grown-up, unused-up, Place}
use pclass_vectorized.BTree.Views.LeafGrown.{Grown-leaf}
use pclass_vectorized.BTree.Views.Places.{Apart, child_for-Place}

-- What an insertion of the key k into the level of the node p needs.
pub record CanInsert (cfg : BTreeCfg) (h : ℕ) (p : Ptr) (k : Range1d) (s : Tree) (free : List ℕ)
    : Type 0 where
  pub level : IsOrdered (views s) h (some p)
  pub shape : IsTreeShaped (views s) (max_degree cfg) h (some p)
  pub room : (s.node p).key_cnt < max_degree cfg
  pub apart : (x : KeyInfo) → Has (views s) (some p) x → Apart x.key k
  pub slots : IsFree s.pool free
  pub enough : h ≤ length free + 1
  pub fresh : (q : Ptr) → Under (views s) (some p) q → has q free ≡ false

-- The key k is the last one of the rule, and it is not empty; `actual_key` reads it from the rule by
-- the order of the dimensions.
pub record IsLastKey (cfg : BTreeCfg) (cookie : InsertCookie) (k : Range1d) (order : List ℕ)
    : Type 0 where
  pub degree : 1 ≤ cfg.t
  pub last_level : required_more_levels cookie ≡ false
  pub full : k.low ≤ k.high
  pub actual : (s : Tree) → s.dimension_order ≡ order → actual_key cookie s ≡ ok k s

module _ (cfg : BTreeCfg) (cookie : InsertCookie) (k : Range1d) (order : List ℕ)
    (given : IsLastKey cfg cookie k order) where
  abbrev pub most : ℕ
  most = max_degree cfg

  abbrev pub new : KeyInfo
  new = record { key = k; value = cookie.rule.value; next_level = none }

  -- The insertion succeeds with a level that has the new key as well.
  pub record Inserts (fuel h : ℕ) (p : Ptr) (s : Tree) (free : List ℕ) : Type 0 where
    pub state : Tree
    pub run : insert_non_full cfg fuel p cookie s ≡ ok tt state
    pub grown : Grown (views s) (views state) most h (some p) new free
    pub rest : List ℕ
    pub slots : IsFree state.pool rest
    pub fewer : (q : ℕ) → has q rest ≡ true → has q free ≡ true
    pub fresh : (q : Ptr) → Under (views state) (some p) q → has q rest ≡ false
    pub root : state.root ≡ s.root
    pub same_order : state.dimension_order ≡ s.dimension_order

  pub insert-leaf :
      (fuel h : ℕ) (p : Ptr) (s : Tree) (free : List ℕ)
      → s.dimension_order ≡ order
      → CanInsert cfg (suc h) p k s free
      → (s.node p).is_leaf ≡ true
      → Inserts (suc fuel) (suc h) p s free
  unfolding get_key
  insert-leaf fuel h p s free eo can leaf =
      let (i, t, run, same, cnt, le, at_i, keys, sorted) =
        insert_non_full-KeysSorted cfg fuel p cookie k s leaf can.room given.last_level
          (given.actual s eo) given.full
          (λ l lt. can.apart (get_key (s.node p) l) (own {l = l} lt refl)) can.level.0 in
      let grown =
        Grown-leaf (views s) (views t) most h i p new free leaf (same.is_leaf ∙ leaf)
          (same.is_compressed ∙ can.level.1) can.room cnt le at_i keys sorted
          (λ q ne. ap view (same.others q ne)) in
      record {
        state = t;
        run = run;
        grown = grown;
        rest = free;
        slots = rw same.pool can.slots;
        fewer = λ q h. h;
        fresh = λ q u.
            subst (λ x. has x free ≡ false) (sym (Under-leaf (views t) p q (same.is_leaf ∙ leaf) u))
              (can.fresh p top);
        root = same.root;
        same_order = same.order;
      }

  pub place_of : Tree → Ptr → ℕ
  place_of s p = child_for (s.node p).keys k (s.node p).key_cnt

  pub place_empty : (p : Ptr) (s : Tree) → (s.node p).key_cnt ≡ 0 → place_of s p ≡ 0
  unfolding place_of child_for
  place_empty p s empty = rw empty refl

  pub run_kept :
      (fuel : ℕ) (p y : Ptr) (s : Tree)
      → s.dimension_order ≡ order
      → (s.node p).is_leaf ≡ false
      → (s.node p).child_index (place_of s p) ≡ some y
      → ((s.node y).key_cnt == most) ≡ false
      → insert_non_full cfg (suc fuel) p cookie s ≡ insert_non_full cfg fuel y cookie s
  unfolding insert_non_full place_of
  run_kept fuel p y s eo inner at room = rw (given.actual s eo, inner, at, room, at) refl

  pub run_split :
      (fuel : ℕ) (p y c : Ptr) (s t : Tree)
      → s.dimension_order ≡ order
      → (s.node p).is_leaf ≡ false
      → (s.node p).child_index (place_of s p) ≡ some y
      → ((s.node y).key_cnt == most) ≡ true
      → split_child cfg p (place_of s p) y s ≡ ok tt t
      → (t.node p).child_index
          (if lt_range ((t.node p).keys (place_of s p)) k then place_of s p + 1 else place_of s p)
        ≡ some c
      → insert_non_full cfg (suc fuel) p cookie s ≡ insert_non_full cfg fuel c cookie t
  unfolding insert_non_full place_of
  run_split fuel p y c s t eo inner at full split at' =
      rw (given.actual s eo, inner, at, full, split, at') refl

  -- The claim for all levels of height h.
  abbrev pub Claim : ℕ → ℕ → Type 0
  Claim fuel h =
      (p : Ptr) (s : Tree) (free : List ℕ)
      → s.dimension_order ≡ order
      → CanInsert cfg h p k s free
      → Inserts fuel h p s free

  pub place_lem :
      (h : ℕ) (p : Ptr) (s : Tree) (free : List ℕ)
      → CanInsert cfg (suc h) p k s free
      → (place_of s p ≤ (s.node p).key_cnt) × Place (view (s.node p)) k (place_of s p)
  unfolding place_of get_key
  place_lem h p s free can =
      child_for-Place (view (s.node p)) k can.level.0 given.full
        λ l lt. can.apart (get_key (s.node p) l) (own {l = l} lt refl)

  pub child_ptr :
      (m : Views) (h : ℕ) (l : Option Ptr) → IsTreeShaped m most h l → (c : Ptr) × (l ≡ some c)
  child_ptr m h none shape = absurd shape
  child_ptr m h (some c) shape = (c, refl)

  pub insert-kept :
      (fuel h : ℕ) (p y : Ptr) (s : Tree) (free : List ℕ)
      → s.dimension_order ≡ order
      → CanInsert cfg (suc h) p k s free
      → (s.node p).is_leaf ≡ false
      → (s.node p).child_index (place_of s p) ≡ some y
      → ((s.node y).key_cnt == most) ≡ false
      → Claim fuel h
      → Inserts (suc fuel) (suc h) p s free
  insert-kept fuel h p y s free eo can inner at room claim =
      let m = views s in
      let i = place_of s p in
      let (le, place) = place_lem h p s free can in
      let in_child : (x : KeyInfo) → Has m (some y) x → Has m (some p) x =
        λ x held. child_has {j = i} inner le (rw at held) in
      let under_child : (q : Ptr) → Under m (some y) q → Under m (some p) q =
        λ q u. below {j = i} inner le (rw at u) in
      let shape_y : IsTreeShaped m most h (some y) =
        subst (IsTreeShaped m most h) at (can.shape.1 inner i le).0 in
      let r = claim y s free eo (record {
        level = subst (IsOrdered m h) at (can.level.2 inner i le).0;
        shape = shape_y;
        room = ground (arith, cnt-le-most m most h y shape_y);
        apart = λ x held. can.apart x (in_child x held);
        slots = can.slots;
        enough = omega (arith, can.enough);
        fresh = λ q u. can.fresh q (under_child q u);
      }) in
      let child_grown : Grown m (views r.state) most h ((m p).link i) new free = rw at r.grown in
      let grown =
        Grown-up m (views r.state) most h i p new free inner le place can.fresh can.level can.shape
          child_grown in
      record {
        state = r.state;
        run = run_kept fuel p y s eo inner at room ∙ r.run;
        grown = grown;
        rest = r.rest;
        slots = r.slots;
        fewer = r.fewer;
        fresh =
            unused-up m (views r.state) most h i p new free inner le place can.fresh can.level
              can.shape child_grown r.rest r.fewer (rw at r.fresh);
        root = r.root;
        same_order = r.same_order;
      }
