-- ===== src/BTree/Search/UniqueKeys.antt =====
-- The keys of one level of the tree, and the values in them.
use pclass_vectorized.Prelude.{
  ℕ, zero, suc, ◌<◌, ◌≤◌, ◌≡◌, refl, inl, inr, true, false, Option, none, some, arith, ltb,
  Bool-cases,
}
use pclass_vectorized.Range.{Range1d, in_range}
use pclass_vectorized.BTree.{Ptr, Node}
use pclass_vectorized.BTree.Search.Sequential.{KeysSorted}
use pclass_vectorized.BTree.Search.Level.{Holds, here, under, IsLevel, Holds-none, misses}

module _ (mem : Ptr → Node) where
  -- A key of the level with the value in it is under the place that the bounds of the children allow.
  Holds-in_child :
      (h : ℕ) (p : Ptr) (v j : ℕ)
      → IsLevel mem (suc h) (some p)
      → (mem p).is_leaf ≡ false
      → j ≤ (mem p).key_cnt
      → (q i : ℕ) → Holds mem ((mem p).child_index j) q i
      → in_range ((mem q).keys i) v ≡ true
      → ((k : ℕ) → k < j → ((mem p).keys k).high < v)
        × ((k : ℕ) → j ≤ k → k < (mem p).key_cnt → v < ((mem p).keys k).low)
  Holds-in_child h p v j (sorted, plain, inner) more le q i held hit =
      let (_, after, before) = inner more j le in
      (
        (λ k lt. ground (arith, after q i k held lt)),
        λ k le' lt. ground (arith, before q i k held le' lt),
      )

  same_index :
      (keys : ℕ → Range1d) (cnt v i i' : ℕ)
      → KeysSorted keys cnt
      → i < cnt
      → i' < cnt
      → in_range (keys i) v ≡ true
      → in_range (keys i') v ≡ true
      → i ≡ i'
  same_index keys cnt v i i' sorted lt lt' hit hit' = elim (Bool-cases (ltb i i')) [
    | inl less ↦ absurd (ground (arith, sorted.1 i i' (ground arith) lt'))
    | inr more ↦ elim (Bool-cases (ltb i' i)) [
      | inl less ↦ absurd (ground (arith, sorted.1 i' i (ground arith) lt))
      | inr same ↦ ground arith
    ]
  ]

  module _ (h : ℕ) (p : Ptr) (v : ℕ) (level : IsLevel mem (suc h) (some p))
      (more : (mem p).is_leaf ≡ false) where
    -- The value is in no key of the node if it is in a key under a child,
    node_or_child :
        (j : ℕ)
        → j ≤ (mem p).key_cnt
        → (q i i' : ℕ) → Holds mem ((mem p).child_index j) q i
        → in_range ((mem q).keys i) v ≡ true
        → i' < (mem p).key_cnt
        → in_range ((mem p).keys i') v ≡ false
    node_or_child j le q i i' held hit lt =
        let (low, high) = Holds-in_child h p v j level more le q i held hit in
        misses mem p v j low high i' lt

    -- and it is in keys under one child only.
    one_child :
        (j j' : ℕ)
        → j < j'
        → j' ≤ (mem p).key_cnt
        → (q i q' i' : ℕ) → Holds mem ((mem p).child_index j) q i
        → Holds mem ((mem p).child_index j') q' i'
        → in_range ((mem q).keys i) v ≡ true
        → in_range ((mem q').keys i') v ≡ true
        → ⊥
    one_child j j' less le q i q' i' held held' hit hit' = omega (
      arith,
      (Holds-in_child h p v j level more (omega arith) q i held hit).1 j (omega arith)
          (omega arith),
      (Holds-in_child h p v j' level more le q' i' held' hit').0 j less,
      level.0.0 j (omega arith),
    )

  -- Two keys of a level with a common value are the same key.
  pub Holds-unique :
      (h : ℕ) (p : Option Ptr) (v : ℕ)
      → IsLevel mem h p
      → (q i q' i' : ℕ) → Holds mem p q i
      → Holds mem p q' i'
      → in_range ((mem q).keys i) v ≡ true
      → in_range ((mem q').keys i') v ≡ true
      → (q ≡ q') × (i ≡ i')
  Holds-unique h none v level q i q' i' held held' hit hit' = absurd (Holds-none mem q i held)
  Holds-unique zero (some p) v level q i q' i' held held' hit hit' = absurd level
  Holds-unique (suc h) (some p) v level q i q' i' (here lt) (here lt') hit hit' =
      (refl, same_index (mem p).keys (mem p).key_cnt v i i' level.0 lt lt' hit hit')
  Holds-unique (suc h) (some p) v level q i q' i' (here lt) (under {j = j} more le held) hit hit' =
      let no_hit = node_or_child h p v level more j le q' i' i held hit' lt in cc
  Holds-unique (suc h) (some p) v level q i q' i' (under {j = j} more le held) (here lt) hit hit' =
      let no_hit = node_or_child h p v level more j le q i i' held hit lt in cc
  Holds-unique (suc h) (some p) v level q i q' i' (under {j = j} more le held)
        (under {j = j'} more' le' held') hit hit' =
      elim (Bool-cases (ltb j j')) [
        | inl less ↦
            absurd
              (one_child h p v level more j j' (ground arith) le' q i q' i' held held' hit hit')
        | inr geq ↦ elim (Bool-cases (ltb j' j)) [
          | inl less ↦
              absurd
                (one_child h p v level more j' j (ground arith) le q' i' q i held' held hit' hit)
          | inr leq ↦
              let e : j' ≡ j = ground arith in
              Holds-unique h ((mem p).child_index j) v (level.2 more j le).0 q i q' i' held
                (rw e at held') hit hit'
        ]
      ]

  -- No node of the level is compressed.
  pub Holds-plain :
      (h : ℕ) (p : Option Ptr)
      → IsLevel mem h p
      → (q i : ℕ) → Holds mem p q i
      → (mem q).is_compressed ≡ false
  Holds-plain h none level q i held = absurd (Holds-none mem q i held)
  Holds-plain zero (some p) level q i held = absurd level
  Holds-plain (suc h) (some p) level q i (here lt) = level.1
  Holds-plain (suc h) (some p) level q i (under {j = j} more le held) =
      Holds-plain h ((mem p).child_index j) (level.2 more j le).0 q i held
