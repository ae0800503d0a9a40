-- ===== src/BTree/Views/Places.antt =====
-- include/pcv/partition_sort/b_tree_insert.h: the child to which an insertion goes, also after a split.
use pclass_vectorized.Prelude.{
  ℕ, zero, suc, ◌+◌, ◌-◌, ◌<◌, ◌≤◌, ◌≡◌, ◌⊎◌, inl, inr, arith, ◌==◌, if◌then◌else◌, Bool-cases,
}
use pclass_vectorized.Range.{Range1d, gt_range, lt_range}
use pclass_vectorized.BTree.{Ptr, KeyInfo}
use pclass_vectorized.BTree.Insert.{child_for}
use pclass_vectorized.BTree.Search.Sequential.{KeysSorted}
use pclass_vectorized.BTree.Views.{View}
use pclass_vectorized.BTree.Views.Split.{linked}
use pclass_vectorized.BTree.Views.Linked.{key_middle, key_before, key_behind}
use pclass_vectorized.BTree.Views.Grown.{Place}

-- The two ranges share no value.
abbrev pub Apart : Range1d → Range1d → Type 0
Apart a b = (a.high < b.low) ⊎ (b.high < a.low)

child_for_lem :
    (keys : ℕ → Range1d) (k : Range1d) (count : ℕ)
    → (child_for keys k count ≤ count)
      × ((l : ℕ) → child_for keys k count ≤ l → l < count → k.low < (keys l).low)
      × ((l : ℕ) → l + 1 ≡ child_for keys k count → (keys l).low ≤ k.low)
unfolding child_for
child_for_lem keys k zero = (omega arith, (λ l a b. omega arith), λ l e. omega arith)
child_for_lem keys k (suc count) = elim (Bool-cases (gt_range (keys count) k)) [
  | inl greater ↦
      let (le, above, below) = child_for_lem keys k count in
      rw (greater, if◌then◌else◌)
        (
          omega arith,
          (λ l a b. elim (Bool-cases (l == count)) [
            | inl e ↦ let e' : l ≡ count = ground arith in rw e' (ground arith)
            | inr ne ↦ above l a (ground arith)
          ]),
          below,
        )
  | inr stop ↦
      rw (stop, if◌then◌else◌)
        (
          omega arith,
          (λ l a b. omega arith),
          λ l e. let e' : l ≡ count = omega arith in rw e' (ground arith),
        )
]

-- The child for a key that shares no value with those of the node.
pub child_for-Place :
    (v : View) (k : Range1d)
    → KeysSorted (λ l. (v.key l).key) v.cnt
    → k.low ≤ k.high
    → ((l : ℕ) → l < v.cnt → Apart (v.key l).key k)
    → (child_for (λ l. (v.key l).key) k v.cnt ≤ v.cnt)
      × Place v k (child_for (λ l. (v.key l).key) k v.cnt)
child_for-Place v k (full, sorted) ok_k apart =
    let (le, above, below) = child_for_lem (λ l. (v.key l).key) k v.cnt in
    let i = child_for (λ l. (v.key l).key) k v.cnt in
    (
      le,
      (
        (λ l lt. elim (apart l (omega arith)) [
          | inl done ↦ done
          | inr over ↦ elim (Bool-cases (l + 1 == i)) [
            | inl e ↦ omega (arith, below l (ground arith))
            | inr ne ↦ omega (
              arith,
              below (i - 1) (omega arith),
              sorted l (i - 1) (ground arith) (omega arith),
              full l (omega arith),
            )
          ]
        ]),
        λ l ge lt. elim (apart l lt) [
          | inl under ↦ omega (arith, above l ge lt, full l lt)
          | inr done ↦ done
        ],
      ),
    )

-- After a split the key goes to one of the halves.
pub Place-linked :
    (middle : KeyInfo) (i : ℕ) (z : Ptr) (v : View) (k : Range1d)
    → i ≤ v.cnt
    → middle.key.low ≤ middle.key.high
    → k.low ≤ k.high
    → Apart middle.key k
    → Place v k i
    → Place (linked middle i z v) k (if lt_range middle.key k then i + 1 else i)
Place-linked middle i z v k le full ok_k apart (low, high) =
    elim (Bool-cases (lt_range middle.key k)) [
      | inl less ↦
          let below : middle.key.high < k.low = elim apart [
            | inl done ↦ done
            | inr over ↦ ground arith
          ] in
          rw (less, if◌then◌else◌)
            (
              (λ l lt. elim (Bool-cases (l == i)) [
                | inl e ↦ let e' : l ≡ i = ground arith in rw (e', key_middle middle i z v le) below
                | inr ne ↦ rw (key_before middle i z v le l (ground arith)) (low l (ground arith))
              ]),
              λ l ge lt.
                  let lt' : l < v.cnt + 1 = lt in
                  rw (key_behind middle i z v le l (omega arith) (omega arith))
                    (high (l - 1) (omega arith) (omega arith)),
            )
      | inr more ↦
          let above : k.high < middle.key.low = elim apart [
            | inl under ↦ ground arith
            | inr done ↦ done
          ] in
          rw (more, if◌then◌else◌)
            (
              (λ l lt. rw (key_before middle i z v le l lt) (low l lt)),
              λ l ge lt.
                  let lt' : l < v.cnt + 1 = lt in
                  elim (Bool-cases (l == i)) [
                    | inl e ↦
                        let e' : l ≡ i = ground arith in rw (e', key_middle middle i z v le) above
                    | inr ne ↦
                        let gt : i < l = ground arith in
                        rw (key_behind middle i z v le l gt (omega arith))
                          (high (l - 1) (omega arith) (omega arith))
                  ],
            )
    ]
