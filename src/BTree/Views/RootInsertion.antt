-- ===== src/BTree/Views/RootInsertion.antt =====
-- include/pcv/partition_sort/b_tree_insert.h: `insert_to_root`, which splits a full root.
use pclass_vectorized.Prelude.{
  ℕ, zero, suc, ◌+◌, ◌≤◌, ◌≡◌, ◌≢◌, ◌⊎◌, refl, ap, ◌∙◌, inl, inr, true, false, some, List, [], ◌∷◌,
  arith, length, ◌==◌, Bool-cases,
}
use pclass_vectorized.Prelude.State.{ok}
use pclass_vectorized.Range.{Range1d}
use pclass_vectorized.Mempool.Slots.{has}
use pclass_vectorized.Mempool.Dynamic.FreeList.{IsFree, IsFree-head, get-IsFree}
use pclass_vectorized.BTree.{BTreeCfg, Ptr, KeyInfo, Tree, max_degree}
use pclass_vectorized.BTree.Insert.{insert_to_root}
use pclass_vectorized.BTree.Insert.Cookie.{InsertCookie}
use pclass_vectorized.BTree.Views.{View, views}
use pclass_vectorized.BTree.Views.Levels.{Has, Under, top, IsOrdered}
use pclass_vectorized.BTree.Views.Shape.{IsTreeShaped, cnt-le-most}
use pclass_vectorized.BTree.Views.Places.{Apart}
use pclass_vectorized.BTree.Views.Insertion.{CanInsert, IsLastKey, new}
use pclass_vectorized.BTree.Views.AnyHeight.{insert_non_full-Inserts}
use pclass_vectorized.BTree.Views.NewRoot.{new_root, Has-root, Under-root}
use pclass_vectorized.BTree.Views.RootRun.{root-CanInsert, full-run}

module _ (cfg : BTreeCfg) (cookie : InsertCookie) (k : Range1d) (order : List ℕ)
    (given : IsLastKey cfg cookie k order) where
  -- What the insertion leaves under the new link.
  pub record RootInserts (fuel h : ℕ) (p : Ptr) (s : Tree) (free : List ℕ) : Type 0 where
    pub top_node : Ptr
    pub height : ℕ
    pub state : Tree
    pub run : insert_to_root cfg fuel (some p) cookie s ≡ ok (some top_node) state
    pub tall : height ≤ h + 1
    pub level : IsOrdered (views state) height (some top_node)
    pub shape : IsTreeShaped (views state) (max_degree cfg) height (some top_node)
    pub kept : (x : KeyInfo) → Has (views s) (some p) x → Has (views state) (some top_node) x
    pub added : Has (views state) (some top_node) (new cfg cookie k order given)
    pub only :
        (x : KeyInfo)
        → Has (views state) (some top_node) x
        → Has (views s) (some p) x ⊎ (new cfg cookie k order given ≡ x)
    pub others :
        (q : Ptr) → ¬ Under (views s) (some p) q → has q free ≡ false → views state q ≡ views s q
    pub rest : List ℕ
    pub slots : IsFree state.pool rest
    pub fresh : (q : Ptr) → Under (views state) (some top_node) q → has q rest ≡ false
    pub root : state.root ≡ s.root
    pub same_order : state.dimension_order ≡ s.dimension_order

  -- The root has room.
  room-RootInserts :
      (fuel h : ℕ) (p : Ptr) (s : Tree) (free : List ℕ)
      → s.dimension_order ≡ order
      → h ≤ fuel
      → CanInsert cfg h p k s free
      → (s.node p).is_compressed ≡ false
      → RootInserts (suc fuel) h p s free
  unfolding insert_to_root
  room-RootInserts fuel h p s free eo le can plain =
      let r = insert_non_full-Inserts cfg cookie k order given fuel h le p s free eo can in
      let room : ((s.node p).key_cnt == max_degree cfg) ≡ false = ground (arith, can.room) in
      record {
        top_node = p;
        height = h;
        state = r.state;
        run = rw (plain, room, r.run) refl;
        tall = omega arith;
        level = r.grown.level;
        shape = r.grown.shape;
        kept = r.grown.kept;
        added = r.grown.added;
        only = r.grown.only;
        others = r.grown.others;
        rest = r.rest;
        slots = r.slots;
        fresh = r.fresh;
        root = r.root;
        same_order = r.same_order;
      }

  -- A root that is full gets a new one above it.
  full-RootInserts :
      (fuel h : ℕ) (p : Ptr) (s : Tree) (free : List ℕ)
      → s.dimension_order ≡ order
      → h ≤ fuel
      → IsOrdered (views s) (suc h) (some p)
      → IsTreeShaped (views s) (max_degree cfg) (suc h) (some p)
      → ((s.node p).key_cnt == max_degree cfg) ≡ true
      → ((x : KeyInfo) → Has (views s) (some p) x → Apart x.key k)
      → IsFree s.pool free
      → suc (suc h) ≤ length free
      → ((q : Ptr) → Under (views s) (some p) q → has q free ≡ false)
      → RootInserts (suc (suc fuel)) (suc h) p s free
  full-RootInserts fuel h p s [] eo le level shape full apart slots enough fresh =
      absurd (omega (arith, enough))
  full-RootInserts fuel h p s (z ∷ []) eo le level shape full apart slots enough fresh =
      absurd (omega (arith, enough))
  full-RootInserts fuel h p s (z ∷ z1 ∷ rest) eo le level shape full apart slots enough fresh =
      let m = views s in
      let ((pool, got, slots', _), _, _) = get-IsFree s.pool (z ∷ z1 ∷ rest) slots in
      let a = new_root cfg p z pool s in
      let not_z : (q : Ptr) → Under m (some p) q → q ≢ z = λ q u e. ground (arith, fresh q u) in
      let can =
        root-CanInsert cfg cookie k order given (suc h) p z pool s (z1 ∷ rest) a level shape apart
          slots' (IsFree-head s.pool z (z1 ∷ rest) slots) (omega arith) fresh in
      let r =
        insert_non_full-Inserts cfg cookie k order given (suc (suc fuel)) (suc (suc h))
          (omega arith) z a.state (z1 ∷ rest) (a.order ∙ eo) can in
      let has_root =
        Has-root m (views a.state) (max_degree cfg) (suc h) p z (z1 ∷ rest) a.inner a.plain a.empty
          a.link a.others not_z in
      let under_root =
        Under-root m (views a.state) (max_degree cfg) (suc h) p z (z1 ∷ rest) a.inner a.plain
          a.empty a.link a.others not_z in
      record {
        top_node = z;
        height = suc (suc h);
        state = r.state;
        run =
            full-run cfg cookie k order given fuel h p z z1 pool s r.state rest eo level.1 full got
              a can
              (ap (λ c. c == max_degree cfg) (ap (λ (x : View). x.cnt) (a.others p (not_z p top)))
                ∙ full)
              r.run;
        tall = omega arith;
        level = r.grown.level;
        shape = r.grown.shape;
        kept = λ x held. r.grown.kept x ((has_root x).1 held);
        added = r.grown.added;
        only = λ x held. elim (r.grown.only x held) [
          | inl before ↦ inl ((has_root x).0 before)
          | inr e ↦ inr e
        ];
        others = λ q out unused.
            let ne : q ≢ z = ground arith in
            let out' : ¬ Under (views a.state) (some z) q =
              λ u. elim (under_root q u) [ inl before ↦ out before | inr e ↦ ne e ] in
            r.grown.others q out' (ground arith) ∙ a.others q ne;
        rest = r.rest;
        slots = r.slots;
        fresh = r.fresh;
        root = r.root ∙ a.root;
        same_order = r.same_order ∙ a.order;
      }

-- The claim for a root that may be full.
pub insert_to_root-RootInserts :
    (cfg : BTreeCfg) (cookie : InsertCookie) (k : Range1d) (order : List ℕ)
    (given : IsLastKey cfg cookie k order) (fuel h : ℕ) (p : Ptr) (s : Tree) (free : List ℕ)
    → s.dimension_order ≡ order
    → h + 2 ≤ fuel
    → IsOrdered (views s) h (some p)
    → IsTreeShaped (views s) (max_degree cfg) h (some p)
    → ((x : KeyInfo) → Has (views s) (some p) x → Apart x.key k)
    → IsFree s.pool free
    → h + 1 ≤ length free
    → ((q : Ptr) → Under (views s) (some p) q → has q free ≡ false)
    → RootInserts cfg cookie k order given fuel h p s free
insert_to_root-RootInserts cfg cookie k order given zero h p s free eo le level shape apart slots
      enough fresh =
    absurd (omega arith)
insert_to_root-RootInserts cfg cookie k order given (suc zero) h p s free eo le level shape apart
      slots enough fresh =
    absurd (omega arith)
insert_to_root-RootInserts cfg cookie k order given (suc (suc fuel)) zero p s free eo le level shape
      apart slots enough fresh =
    absurd level
insert_to_root-RootInserts cfg cookie k order given (suc (suc fuel)) (suc h) p s free eo le level
      shape apart slots enough fresh =
    elim (Bool-cases ((s.node p).key_cnt == max_degree cfg)) [
      | inl full ↦
          full-RootInserts cfg cookie k order given fuel h p s free eo (omega arith) level shape
            full apart slots (omega arith) fresh
      | inr room ↦
          room-RootInserts cfg cookie k order given (suc fuel) (suc h) p s free eo (omega arith)
            (record {
              level = level;
              shape = shape;
              room = ground (arith, cnt-le-most (views s) (max_degree cfg) (suc h) p shape);
              apart = apart;
              slots = slots;
              enough = omega arith;
              fresh = fresh;
            })
            level.1
    ]
