-- ===== src/BTree/Views/SplitShape.antt =====
-- include/pcv/partition_sort/b_tree_insert.h: a level is a tree after the split of a node as well, of
-- the nodes that it had and the new one.
use pclass_vectorized.Prelude.{
  ℕ, suc, ◌+◌, ◌*◌, ◌<◌, ◌≤◌, ◌≡◌, ◌≢◌, ◌⊎◌, sym, ap, ◌∙◌, subst, inl, inr, false, some, arith,
}
use pclass_vectorized.BTree.{Ptr}
use pclass_vectorized.BTree.Views.{View, Views}
use pclass_vectorized.BTree.Views.SplitUpper.{upper}
use pclass_vectorized.BTree.Views.Halves.{upper_link}
use pclass_vectorized.BTree.Views.Levels.{Under, top, below, Under-cases, Agree}
use pclass_vectorized.BTree.Views.Shape.{IsTreeShaped, Under-same, IsTreeShaped-Agree}
use pclass_vectorized.BTree.Views.SplitChild.{IsSeparate}

-- A level that is a tree is separate, for a slot that is not in it.
pub IsTreeShaped-IsSeparate :
    (m : Views) (most h i : ℕ) (node y z : Ptr)
    → IsTreeShaped m most (suc (suc h)) (some node)
    → (m node).leaf ≡ false
    → i ≤ (m node).cnt
    → (m node).link i ≡ some y
    → ((q : Ptr) → Under m (some node) q → q ≢ z)
    → IsSeparate m node y z i
IsTreeShaped-IsSeparate m most h i node y z shape inner le at_child fresh = record {
  fresh = fresh;
  no_cycle = λ j q le' u. (shape.1 inner j le').1 q u;
  once = λ j q le' ne u e.
      (shape.1 inner j le').2 i q le ne u (rw at_child (subst (Under m (some y)) (sym e) top));
  no_cycle_y = λ j q leaf le' u. (shape_y.1 leaf j le').1 q u;
}
  where
    shape_y : IsTreeShaped m most (suc h) (some y)
    shape_y = subst (IsTreeShaped m most (suc h)) at_child (shape.1 inner i le).0

module _ (m m' : Views) (most d h : ℕ) (y z : Ptr) (w : View) (full : (m y).cnt ≡ 2 * d + 1)
    (y_after : m' y ≡ record (m y) { cnt = d }) (z_after : m' z ≡ upper d (m y) w)
    (agree : (m y).leaf ≡ false → (j : ℕ) → j ≤ (m y).cnt → Agree m m' ((m y).link j))
    (fresh : (q : Ptr) → Under m (some y) q → q ≢ z)
    (shape : IsTreeShaped m most (suc h) (some y)) where
  -- A node of the first half.
  pub Under-lower :
      (q : Ptr)
      → Under m' (some y) q
      → (q ≡ y) ⊎ ((j : ℕ) × ((m y).leaf ≡ false) × (j ≤ d) × Under m ((m y).link j) q)
  Under-lower q u = elim (Under-cases m' y q u) [
    | inl e ↦ inl e
    | inr (j, inner, le, v) ↦
        let inner' : (m y).leaf ≡ false = rw y_after at inner in
        let le' : j ≤ d = rw y_after at le in
        let v' : Under m' ((m y).link j) q = rw y_after at v in
        inr (j, inner', le', Under-same m m' ((m y).link j) q (agree inner' j (omega arith)) v')
  ]

  -- A node of the second half.
  pub Under-upper :
      (q : Ptr)
      → Under m' (some z) q
      → (q ≡ z)
        ⊎ ((j : ℕ) × ((m y).leaf ≡ false) × (d < j) × (j ≤ (m y).cnt) × Under m ((m y).link j) q)
  Under-upper q u = elim (Under-cases m' z q u) [
    | inl e ↦ inl e
    | inr (j, inner, le, v) ↦
        let inner' : (m y).leaf ≡ false = rw z_after at inner in
        let le' : j ≤ d = rw z_after at le in
        let place = d + j + 1 in
        let v' : Under m' ((m y).link place) q =
          subst (λ c. Under m' c q)
            (ap (λ (x : View). x.link j) z_after ∙ upper_link w d (m y) j le' inner') v in
        inr (
          place,
          inner',
          omega arith,
          omega arith,
          Under-same m m' ((m y).link place) q (agree inner' place (omega arith)) v',
        )
  ]

  pub IsTreeShaped-lower : IsTreeShaped m' most (suc h) (some y)
  IsTreeShaped-lower = rw y_after (
    omega (arith, shape.0),
    λ inner j le.
        let (s, no_cycle, once) = shape.1 inner j (omega arith) in
        let same = λ (j : ℕ) (le : j ≤ d). agree inner j (omega arith) in
        (
          IsTreeShaped-Agree m m' most h ((m y).link j) (same j le) s,
          (λ q u. no_cycle q (Under-same m m' ((m y).link j) q (same j le) u)),
          λ j' q le' ne u u'.
              once j' q (omega arith) ne (Under-same m m' ((m y).link j) q (same j le) u)
                (Under-same m m' ((m y).link j') q (same j' le') u'),
        ),
  )

  pub IsTreeShaped-upper : IsTreeShaped m' most (suc h) (some z)
  IsTreeShaped-upper = rw z_after (
    omega (arith, shape.0),
    λ inner j le.
        let at = λ (j : ℕ). d + j + 1 in
        let (s, no_cycle, once) = shape.1 inner (at j) (omega arith) in
        let same = λ (j : ℕ) (le : j ≤ d). agree inner (at j) (omega arith) in
        let link = λ (j : ℕ) (le : j ≤ d). upper_link w d (m y) j le inner in
        let back : (j : ℕ) (q : Ptr)
            → j ≤ d
            → Under m' ((upper d (m y) w).link j) q
            → Under m ((m y).link (at j)) q =
          λ j q le u.
            Under-same m m' ((m y).link (at j)) q (same j le)
              (subst (λ c. Under m' c q) (link j le) u) in
        (
          rw (link j le) (IsTreeShaped-Agree m m' most h ((m y).link (at j)) (same j le) s),
          (λ q u. fresh q (below {j = at j} inner (omega arith) (back j q le u))),
          λ j' q le' ne u u'.
              once (at j') q (omega arith) (omega arith) (back j q le u) (back j' q le' u'),
        ),
  )
