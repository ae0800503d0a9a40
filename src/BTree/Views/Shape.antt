-- ===== src/BTree/Views/Shape.antt =====
-- include/pcv/partition_sort/b_tree_node.h: a level is a tree: no node of it is reached in two ways.
use pclass_vectorized.Prelude.{ℕ, zero, suc, ◌≤◌, ◌≡◌, ◌≢◌, refl, false, Option, none, some}
use pclass_vectorized.BTree.{Ptr}
use pclass_vectorized.BTree.Views.{Views}
use pclass_vectorized.BTree.Views.Levels.{Under, top, Under-Agree, Agree, Agree-child}

module _ (m : Views) (most : ℕ) where
  -- The links to children of a node p of height h lead to trees of their own, none of which has p; no
  -- node has more keys than fit.
  abbrev pub IsTreeShaped : ℕ → Option Ptr → Type 0
  IsTreeShaped h none = ⊥
  IsTreeShaped zero (some p) = ⊥
  IsTreeShaped (suc h) (some p) =
      ((m p).cnt ≤ most)
      × ((m p).leaf ≡ false
          → (j : ℕ) → j ≤ (m p).cnt
          → IsTreeShaped h ((m p).link j)
            × ((q : Ptr) → Under m ((m p).link j) q → q ≢ p)
            × ((j' : ℕ) (q : Ptr)
                → j' ≤ (m p).cnt
                → j ≢ j'
                → Under m ((m p).link j) q
                → ¬ Under m ((m p).link j') q))

-- The nodes of a level that is the same in both.
pub Under-same :
    (m m' : Views) (p : Option Ptr) (q : Ptr) → Agree m m' p → Under m' p q → Under m p q
Under-same m m' p q agree u = Under-Agree m m' u p refl agree

pub IsTreeShaped-Agree :
    (m m' : Views) (most h : ℕ) (p : Option Ptr)
    → Agree m m' p
    → IsTreeShaped m most h p
    → IsTreeShaped m' most h p
IsTreeShaped-Agree m m' most h none agree shape = shape
IsTreeShaped-Agree m m' most zero (some p) agree shape = shape
IsTreeShaped-Agree m m' most (suc h) (some p) agree (fits, children) =
    let e = agree p top in
    rw e (
      fits,
      λ inner j le.
          let same = Agree-child m m' p j agree inner le in
          let (shape, no_cycle, once) = children inner j le in
          (
            IsTreeShaped-Agree m m' most h ((m p).link j) same shape,
            (λ q u. no_cycle q (Under-same m m' ((m p).link j) q same u)),
            λ j' q le' ne u u'.
                once j' q le' ne (Under-same m m' ((m p).link j) q same u)
                  (Under-same m m' ((m p).link j') q (Agree-child m m' p j' agree inner le') u'),
          ),
    )

pub cnt-le-most :
    (m : Views) (most h : ℕ) (p : Ptr) → IsTreeShaped m most h (some p) → (m p).cnt ≤ most
cnt-le-most m most zero p shape = absurd shape
cnt-le-most m most (suc h) p shape = shape.0
