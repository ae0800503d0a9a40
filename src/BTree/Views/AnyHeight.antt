-- ===== src/BTree/Views/AnyHeight.antt =====
-- include/pcv/partition_sort/b_tree_insert.h: `insert_non_full` keeps a level of any height a search
-- tree and adds the key.
use pclass_vectorized.Prelude.{
  ℕ, zero, suc, ◌≤◌, ◌≡◌, ◌⊎◌, refl, subst, ◌∙◌, inl, inr, ap, false, Option, none, some, List,
  arith, get_elem?, ◌==◌, Bool-cases,
}
use pclass_vectorized.Prelude.State.{ok, fail, Fault}
use pclass_vectorized.Range.{Range1d}
use pclass_vectorized.BTree.{BTreeCfg, Ptr, Tree, max_degree, dim_at, field}
use pclass_vectorized.BTree.Insert.Cookie.{InsertCookie, required_more_levels, actual_key}
use pclass_vectorized.BTree.Views.{views}
use pclass_vectorized.BTree.Views.Shape.{IsTreeShaped}
use pclass_vectorized.BTree.Views.Insertion.{
  CanInsert, IsLastKey, Inserts, Claim, place_of, place_lem, child_ptr, insert-leaf, insert-kept,
}
use pclass_vectorized.BTree.Views.SplitInsertion.{insert-split}

module _ (cfg : BTreeCfg) (cookie : InsertCookie) (k : Range1d) (order : List ℕ)
    (given : IsLastKey cfg cookie k order) where
  insert-inner :
      (fuel h : ℕ) (p : Ptr) (s : Tree) (free : List ℕ)
      → s.dimension_order ≡ order
      → CanInsert cfg (suc h) p k s free
      → (s.node p).is_leaf ≡ false
      → Claim cfg cookie k order given fuel h
      → Inserts cfg cookie k order given (suc fuel) (suc h) p s free
  insert-inner fuel zero p s free eo can inner claim =
      let (le, place) = place_lem cfg cookie k order given zero p s free can in
      let i = place_of cfg cookie k order given s p in
      let shape = (can.shape.1 inner i le).0 in
      let (y, at) =
        child_ptr cfg cookie k order given (views s) zero ((s.node p).child_index i) shape in
      absurd (subst (IsTreeShaped (views s) (max_degree cfg) zero) at shape)
  insert-inner fuel (suc h) p s free eo can inner claim =
      let (le, place) = place_lem cfg cookie k order given (suc h) p s free can in
      let i = place_of cfg cookie k order given s p in
      let (y, at) =
        child_ptr cfg cookie k order given (views s) (suc h) ((s.node p).child_index i)
          (can.shape.1 inner i le).0 in
      elim (Bool-cases ((s.node y).key_cnt == max_degree cfg)) [
        | inl full ↦
            insert-split cfg cookie k order given fuel h p y s free eo can inner at full claim
        | inr room ↦
            insert-kept cfg cookie k order given fuel (suc h) p y s free eo can inner at room claim
      ]

  pub insert_non_full-Inserts : (fuel h : ℕ) → h ≤ fuel → Claim cfg cookie k order given fuel h
  insert_non_full-Inserts fuel zero le p s free eo can = absurd can.level
  insert_non_full-Inserts zero (suc h) le p s free eo can = absurd (omega arith)
  insert_non_full-Inserts (suc fuel) (suc h) le p s free eo can =
      elim (Bool-cases (s.node p).is_leaf) [
        | inl leaf ↦ insert-leaf cfg cookie k order given fuel h p s free eo can leaf
        | inr inner ↦
            insert-inner fuel h p s free eo can inner (insert_non_full-Inserts fuel h (omega arith))
      ]

Option-cases : {A : Type 0} (o : Option A) → (o ≡ none) ⊎ ((a : A) × (o ≡ some a))
Option-cases none = inl refl
Option-cases (some a) = inr (a, refl)

-- The key depends on the order of the dimensions only.
actual_key-order :
    (cookie : InsertCookie) (k : Range1d) (s t : Tree)
    → actual_key cookie s ≡ ok k s
    → t.dimension_order ≡ s.dimension_order
    → actual_key cookie t ≡ ok k t
unfolding actual_key
actual_key-order cookie k s t e same =
    elim (Option-cases (get_elem? s.dimension_order cookie.level)) [
      | inl out ↦ let e' : fail Fault.out_of_range ≡ ok k s = rw (out, dim_at) at e in cc
      | inr (d, at) ↦
          let e' : ok (field cookie.rule d) s ≡ ok k s = rw (at, dim_at) at e in
          let e'' : field cookie.rule d ≡ k = cc in
          let at' : get_elem? t.dimension_order cookie.level ≡ some d =
            ap (λ o. get_elem? o cookie.level) same ∙ at in
          rw (at', dim_at) (ap (λ x. ok x t) e'')
    ]

pub IsLastKey-order :
    (cfg : BTreeCfg) (cookie : InsertCookie) (k : Range1d) (s : Tree)
    → 1 ≤ cfg.t
    → required_more_levels cookie ≡ false
    → actual_key cookie s ≡ ok k s
    → k.low ≤ k.high
    → IsLastKey cfg cookie k s.dimension_order
IsLastKey-order cfg cookie k s pos last_level actual full = record {
  degree = pos;
  last_level = last_level;
  full = full;
  actual = λ t same. actual_key-order cookie k s t actual same;
}
