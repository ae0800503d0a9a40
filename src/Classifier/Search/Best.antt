-- ===== src/Classifier/Search/Best.antt =====
-- include/pcv/partition_sort/partition_sort_classifier.h: `search`, which may stop before the last
-- tree, against a search of all trees.
use pclass_vectorized.Prelude.{
  subst, ltb, false, ◌⊎◌, ℕ, zero, suc, ◌+◌, ◌<◌, ◌≤◌, ◌≡◌, refl, sym, inl, inr, true, ◌&&◌, ◌||◌,
  arith, leb, ◌==◌, if◌then◌else◌, Bool-cases,
}
use pclass_vectorized.BTree.{RuleValueInt, is_valid, no_rule}
use pclass_vectorized.Classifier.Tree.{TreeOps, Classifier}
use pclass_vectorized.Classifier.Search.{take_better, search_loop, search}

-- The best one of the first cnt results: it is valid and one of them, and no valid one has a greater
-- priority; or it is the invalid value, and none of them is valid.
abbrev pub IsBestOf : (ℕ → RuleValueInt) → ℕ → RuleValueInt → Type 0
IsBestOf results cnt best =
    ((is_valid best ≡ true)
      × ((i : ℕ) × (i < cnt) × (best ≡ results i))
      × ((i : ℕ) → i < cnt → is_valid (results i) ≡ true → (results i).priority ≤ best.priority))
    ⊎ ((best ≡ no_rule) × ((i : ℕ) → i < cnt → is_valid (results i) ≡ false))

module _ {Tree Packet : Type 0} (ops : TreeOps Tree Packet) (c : Classifier Tree)
    (val : Packet) where
  -- The trees in use stand in descending order of their greatest priority.
  abbrev pub TreesSorted : Type 0
  TreesSorted =
      (i j : ℕ)
      → i < j
      → j < c.tree_cnt
      → (c.info (c.trees j)).max_priority ≤ (c.info (c.trees i)).max_priority

  -- No tree finds a rule above its greatest priority.
  abbrev pub TreesBounded : Type 0
  TreesBounded =
      (i : ℕ)
      → i < c.tree_cnt
      → is_valid (ops.search (c.info (c.trees i)).tree val) ≡ true
      → (ops.search (c.info (c.trees i)).tree val).priority ≤ (c.info (c.trees i)).max_priority

  -- The best of the results of the trees i, ..., i + count - 1, all of which are searched.
  unfoldable best_of : ℕ → ℕ → RuleValueInt → RuleValueInt
  best_of zero i found = found
  best_of (suc count) i found =
      best_of count (i + 1) (take_better found (ops.search (c.info (c.trees i)).tree val))

  -- Trees with no result above what was found change nothing.
  best_of_stop :
      (count i : ℕ) (found : RuleValueInt)
      → is_valid found ≡ true
      → ((j : ℕ)
          → i ≤ j
          → j < i + count
          → is_valid (ops.search (c.info (c.trees j)).tree val) ≡ true
          → (ops.search (c.info (c.trees j)).tree val).priority ≤ found.priority)
      → best_of count i found ≡ found
  unfolding best_of
  best_of_stop zero i found valid low = refl
  best_of_stop (suc count) i found valid low =
      let keep : take_better found (ops.search (c.info (c.trees i)).tree val) ≡ found =
        ground (arith, low i (omega arith) (omega arith)) in
      rw keep (best_of_stop count (i + 1) found valid λ j a b. low j (omega arith) (omega arith))

  -- A tree behind place i + 1 has no greater priority than the tree there.
  max_priority-le :
      TreesSorted
      → (i j : ℕ) → i ≤ j
      → j < c.tree_cnt
      → (c.info (c.trees j)).max_priority ≤ (c.info (c.trees i)).max_priority
  max_priority-le sorted i j le lt = elim (Bool-cases (i == j)) [
    | inl e ↦ let e' : i ≡ j = ground arith in rw e' (omega arith)
    | inr ne ↦ sorted i j (ground arith) lt
  ]

  search_loop-best_of :
      (count i : ℕ) (found : RuleValueInt)
      → TreesSorted
      → TreesBounded
      → i + count ≡ c.tree_cnt
      → search_loop ops c val count i found ≡ best_of count i found
  unfolding search_loop best_of
  search_loop-best_of zero i found sorted bounded e = refl
  search_loop-best_of (suc count) i found sorted bounded e =
      let next = take_better found (ops.search (c.info (c.trees i)).tree val) in
      elim (Bool-cases (
        is_valid next
        && (leb c.tree_cnt (i + 1) || leb (c.info (c.trees (i + 1))).max_priority next.priority))) [
          | inl stop ↦
              rw (stop, if◌then◌else◌)
                (sym (
                  best_of_stop count (i + 1) next (ground arith) λ j a b v. ground (
                    arith,
                    bounded j (omega arith) v,
                    max_priority-le sorted (i + 1) j a (omega arith),
                  )))
          | inr go ↦
              rw (go, if◌then◌else◌)
                (search_loop-best_of count (i + 1) next sorted bounded (omega arith))
        ]

  -- What the search of the tree at place i finds.
  abbrev pub found_in : ℕ → RuleValueInt
  found_in i = ops.search (c.info (c.trees i)).tree val

  take_better-IsBestOf :
      (i : ℕ) (found : RuleValueInt)
      → IsBestOf found_in i found
      → IsBestOf found_in (i + 1) (take_better found (found_in i))
  take_better-IsBestOf i found (inl (valid, (j, lt, e), above)) =
      elim (Bool-cases (is_valid (found_in i) && ltb found.priority (found_in i).priority)) [
        | inl more ↦
            let same : take_better found (found_in i) ≡ found_in i = ground (arith, valid, more) in
            rw same (
              inl (
                ground (arith, more),
                (i, omega arith, refl),
                λ k lt' v. elim (Bool-cases (k == i)) [
                  | inl at_i ↦ let at' : k ≡ i = ground arith in rw at' (omega arith)
                  | inr ne ↦ ground (arith, above k (ground arith), more)
                ],
              ))
        | inr less ↦
            let same : take_better found (found_in i) ≡ found = ground (arith, valid, less) in
            rw same (
              inl (
                valid,
                (j, omega arith, e),
                λ k lt' v. elim (Bool-cases (k == i)) [
                  | inl at_i ↦
                      let at' : k ≡ i = ground arith in
                      let v' : is_valid (found_in i) ≡ true =
                        subst (λ x. is_valid (found_in x) ≡ true) at' v in
                      rw at' (ground (arith, less, v'))
                  | inr ne ↦ above k (ground arith) v
                ],
              ))
      ]
  take_better-IsBestOf i found (inr (e, invalid)) = elim (Bool-cases (is_valid (found_in i))) [
    | inl valid ↦
        let same : take_better found (found_in i) ≡ found_in i = rw (e, valid) refl in
        rw same (
          inl (
            valid,
            (i, omega arith, refl),
            λ k lt' v. elim (Bool-cases (k == i)) [
              | inl at_i ↦ let at' : k ≡ i = ground arith in rw at' (omega arith)
              | inr ne ↦ let no = invalid k (ground arith) in cc
            ],
          ))
    | inr none_here ↦
        let same : take_better found (found_in i) ≡ no_rule = rw (e, none_here) refl in
        rw same (
          inr (
            refl,
            λ k lt'. elim (Bool-cases (k == i)) [
              | inl at_i ↦ let at' : k ≡ i = ground arith in rw at' none_here
              | inr ne ↦ invalid k (ground arith)
            ],
          ))
  ]

  best_of-IsBestOf :
      (count i : ℕ) (found : RuleValueInt)
      → IsBestOf found_in i found
      → IsBestOf found_in (i + count) (best_of count i found)
  unfolding best_of
  best_of-IsBestOf zero i found best = subst (λ n. IsBestOf found_in n found) (omega arith) best
  best_of-IsBestOf (suc count) i found best =
      subst (λ n. IsBestOf found_in n (best_of count (i + 1) (take_better found (found_in i))))
        (omega arith)
        (best_of-IsBestOf count (i + 1) (take_better found (found_in i))
          (take_better-IsBestOf i found best))

  -- If the trees stand in descending order of their greatest priority and no tree finds a rule above
  -- it, the classifier's search, which may stop early, returns a valid result of one of its trees such
  -- that no tree has a valid result of greater priority, or the invalid value if no tree has a valid
  -- result.
  pub search-IsBestOf : TreesSorted → TreesBounded → IsBestOf found_in c.tree_cnt (search ops c val)
  unfolding search
  search-IsBestOf sorted bounded =
      rw (search_loop-best_of c.tree_cnt 0 no_rule sorted bounded (omega arith)) (
        subst (λ n. IsBestOf found_in n (best_of c.tree_cnt 0 no_rule)) (omega arith)
          (best_of-IsBestOf c.tree_cnt 0 no_rule (inr (refl, λ i lt. absurd (omega arith)))))
