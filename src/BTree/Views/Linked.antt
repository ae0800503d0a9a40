-- ===== src/BTree/Views/Linked.antt =====
-- include/pcv/partition_sort/b_tree_insert.h: the node that gets a new child and the middle key of the
-- split one.
use pclass_vectorized.Prelude.{
  ℕ, ◌+◌, ◌-◌, ◌<◌, ◌≤◌, ◌≡◌, ◌⊎◌, refl, ap, inl, inr, Option, some, arith, ltb, ◌==◌, Bool-cases,
}
use pclass_vectorized.BTree.{Ptr, KeyInfo}
use pclass_vectorized.BTree.Search.Sequential.{KeysSorted}
use pclass_vectorized.BTree.LeafKeys.Insertion.{KeysSorted-inserted}
use pclass_vectorized.BTree.Views.{View, Views}
use pclass_vectorized.BTree.Views.Split.{linked}
use pclass_vectorized.BTree.Views.Levels.{Has, Between}

module _ (middle : KeyInfo) (i : ℕ) (z : Ptr) (v : View) (le : i ≤ v.cnt) where
  pub key_middle : (linked middle i z v).key i ≡ middle
  key_middle = ground arith

  pub key_before : (l : ℕ) → l < i → (linked middle i z v).key l ≡ v.key l
  key_before l lt = ground arith

  pub key_behind : (l : ℕ) → i < l → l ≤ v.cnt → (linked middle i z v).key l ≡ v.key (l - 1)
  key_behind l lt le' = ground arith

  pub child_before : (l : ℕ) → l ≤ i → (linked middle i z v).link l ≡ v.link l
  child_before l le' = ground arith

  pub child_new : (linked middle i z v).link (i + 1) ≡ some z
  child_new = ground arith

  pub child_behind :
      (l : ℕ) → i + 1 < l → l ≤ v.cnt + 1 → (linked middle i z v).link l ≡ v.link (l - 1)
  child_behind l lt le' = ground arith

  -- A key at child j stays below the new key at this child, or above it at the next one.
  abbrev pub Side : ℕ → ℕ → KeyInfo → Type 0
  Side j j' k =
      ((j' ≡ j) × (j ≤ i) × (k.key.high < middle.key.low))
      ⊎ ((j' ≡ j + 1) × (i ≤ j) × (middle.key.high < k.key.low))

  -- Keys that lie at child j of the node lie at the same child, or at the next one, of the node with the
  -- new key, as they are below the new key or above it.
  pub Between-linked :
      (m m' : Views) (c c' : Option Ptr) (j j' : ℕ)
      → j ≤ v.cnt
      → Between m v c j
      → ((k : KeyInfo) → Has m' c' k → Has m c k × Side j j' k)
      → Between m' (linked middle i z v) c' j'
  Between-linked m m' c c' j j' inside (low, high) from =
      ((λ k l has lt. below k l lt (from k has)), λ k l has ge lt. above k l ge lt (from k has))
    where
      below :
          (k : KeyInfo) (l : ℕ)
          → l < j'
          → Has m c k × Side j j' k
          → ((linked middle i z v).key l).key.high < k.key.low
      below k l lt (has, inl (e, le', less)) =
          rw (key_before l (omega arith)) (low k l has (omega arith))
      below k l lt (has, inr (e, le', less)) = elim (Bool-cases (ltb l i)) [
        | inl first ↦ rw (key_before l (ground arith)) (low k l has (ground arith))
        | inr late ↦ elim (Bool-cases (l == i)) [
          | inl same ↦ let e' : l ≡ i = ground arith in rw (e', key_middle) less
          | inr more ↦
              rw (key_behind l (ground arith) (omega arith)) (low k (l - 1) has (ground arith))
        ]
      ]

      above :
          (k : KeyInfo) (l : ℕ)
          → j' ≤ l
          → l < v.cnt + 1
          → Has m c k × Side j j' k
          → k.key.high < ((linked middle i z v).key l).key.low
      above k l ge lt (has, inr (e, le', less)) =
          rw (key_behind l (omega arith) (omega arith))
            (high k (l - 1) has (omega arith) (omega arith))
      above k l ge lt (has, inl (e, le', less)) = elim (Bool-cases (ltb l i)) [
        | inl first ↦ rw (key_before l (ground arith)) (high k l has (omega arith) (ground arith))
        | inr late ↦ elim (Bool-cases (l == i)) [
          | inl same ↦ let e' : l ≡ i = ground arith in rw (e', key_middle) less
          | inr more ↦
              rw (key_behind l (ground arith) (omega arith))
                (high k (l - 1) has (ground arith) (ground arith))
        ]
      ]

  -- The keys of the node with the new one are sorted.
  pub KeysSorted-linked :
      KeysSorted (λ l. (v.key l).key) v.cnt
      → middle.key.low ≤ middle.key.high
      → ((l : ℕ) → l < i → (v.key l).key.high < middle.key.low)
      → ((l : ℕ) → i ≤ l → l < v.cnt → middle.key.high < (v.key l).key.low)
      → KeysSorted (λ l. ((linked middle i z v).key l).key) (v.cnt + 1)
  KeysSorted-linked sorted full low high =
      KeysSorted-inserted (λ l. (v.key l).key) (λ l. ((linked middle i z v).key l).key) v.cnt i
        middle.key sorted full
        (λ l lt. elim (Bool-cases (ltb l i)) [
          | inl first ↦ inl (low l (ground arith))
          | inr late ↦ inr (high l (ground arith) lt)
        ])
        (λ l ge lt. omega (arith, high l ge lt))
        (λ l e. omega (arith, low l (omega arith), sorted.0 l (omega arith))) le
        (ap (λ k. k.key) key_middle)
        (λ l le' ne. elim (Bool-cases (ltb l i)) [
          | inl first ↦ rw (first, key_before l (ground arith)) refl
          | inr late ↦ rw (late, key_behind l (ground arith) le') refl
        ])
