-- ===== src/BTree/Search/Level.antt =====
-- include/pcv/partition_sort/b_tree_search.h: the search in one level of the tree
-- (`search_possition_1d`).
use pclass_vectorized.Prelude.{
  ℕ, zero, suc, ◌<◌, ◌≤◌, ◌≡◌, ◌≢◌, refl, inl, inr, true, false, Option, none, some, arith, ltb,
  ◌==◌, Bool-cases,
}
use pclass_vectorized.Prelude.State.{ok}
use pclass_vectorized.Range.{in_range}
use pclass_vectorized.BTree.{Ptr, Node, Tree}
use pclass_vectorized.BTree.Search.{point, search_possition_1d}
use pclass_vectorized.BTree.Search.Sequential.{KeysSorted, search_seq-Locates}

module _ (mem : Ptr → Node) where
  -- Key i of the node q is a key of the level under the link.
  pub data Holds : Option Ptr → Ptr → ℕ → Type 0 where
    here : {p : Ptr} {i : ℕ} → i < (mem p).key_cnt → Holds (some p) p i
    under :
        {p : Ptr} {j : ℕ} {q : Ptr} {i : ℕ}
        → (mem p).is_leaf ≡ false
        → j ≤ (mem p).key_cnt
        → Holds ((mem p).child_index j) q i
        → Holds (some p) q i

  -- The level under the link is a search tree without compressed nodes, of at most the given height:
  -- the keys of each node are sorted, and those under child j lie between the keys j - 1 and j.
  abbrev pub IsLevel : ℕ → Option Ptr → Type 0
  IsLevel h none = Unit {0}
  IsLevel zero (some p) = ⊥
  IsLevel (suc h) (some p) =
      KeysSorted (mem p).keys (mem p).key_cnt
      × ((mem p).is_compressed ≡ false)
      × ((mem p).is_leaf ≡ false
          → (j : ℕ) → j ≤ (mem p).key_cnt
          → IsLevel h ((mem p).child_index j)
            × ((q : Ptr) (i k : ℕ)
                → Holds ((mem p).child_index j) q i
                → k < j
                → ((mem p).keys k).high < ((mem q).keys i).low)
            × ((q : Ptr) (i k : ℕ)
                → Holds ((mem p).child_index j) q i
                → j ≤ k
                → k < (mem p).key_cnt
                → ((mem q).keys i).high < ((mem p).keys k).low))

  -- The result for a value: a key of the level with the value in it, or that there is none.
  abbrev pub FindsIn : Option Ptr → ℕ → Option (Ptr × ℕ) → Type 0
  FindsIn p v none = (q : Ptr) (i : ℕ) → Holds p q i → in_range ((mem q).keys i) v ≡ false
  FindsIn p v (some (q, i)) = Holds p q i × (in_range ((mem q).keys i) v ≡ true)

  pub Holds-none : (q : Ptr) (i : ℕ) → Holds none q i → ⊥
  Holds-none q i held = elim held [ ]

  -- A key of the level under a leaf is one of its own.
  pub Holds-leaf :
      (p q : Ptr) (i : ℕ)
      → (mem p).is_leaf ≡ true
      → Holds (some p) q i
      → (q ≡ p) × (i < (mem p).key_cnt)
  Holds-leaf p q i leaf (here lt) = (refl, lt)
  Holds-leaf p q i leaf (under inner le h) = cc

  module _ (p : Ptr) (v j : ℕ) where
    -- The keys before j are below the value, the others are above it.
    abbrev Below : Type 0
    Below = (k : ℕ) → k < j → ((mem p).keys k).high < v

    abbrev Above : Type 0
    Above = (k : ℕ) → j ≤ k → k < (mem p).key_cnt → v < ((mem p).keys k).low

    pub misses : Below → Above → (i : ℕ) → i < (mem p).key_cnt → in_range ((mem p).keys i) v ≡ false
    misses low high i lt = elim (Bool-cases (ltb i j)) [
      | inl first ↦ ground (arith, low i (ground arith))
      | inr last ↦ ground (arith, high i (ground arith) lt)
    ]

    misses-leaf : (mem p).is_leaf ≡ true → Below → Above → FindsIn (some p) v none
    misses-leaf leaf low high q i held =
        let (e, lt) = Holds-leaf p q i leaf held in rw e (misses low high i lt)

    -- Child j' is not the one that the search goes to, so that no key under it holds the value.
    misses_under :
        (h : ℕ)
        → IsLevel (suc h) (some p)
        → (mem p).is_leaf ≡ false
        → Below
        → Above
        → (j' q i : ℕ) → j' ≤ (mem p).key_cnt
        → j ≤ (mem p).key_cnt
        → Holds ((mem p).child_index j') q i
        → j' ≢ j
        → in_range ((mem q).keys i) v ≡ false
    misses_under h (sorted, plain, inner) more low high j' q i le le' held ne =
        let (_, after, before) = inner more j' le in
        elim (Bool-cases (ltb j' j)) [
          | inl first ↦ ground (
            arith,
            before q i j' held (omega arith) (ground arith),
            low j' (ground arith),
            sorted.0 j' (ground arith),
          )
          | inr last ↦ ground (
            arith,
            after q i j held (ground arith),
            high j (omega arith) (ground arith),
            sorted.0 j (ground arith),
          )
        ]

    misses_inner :
        (h : ℕ)
        → IsLevel (suc h) (some p)
        → (mem p).is_leaf ≡ false
        → j ≤ (mem p).key_cnt
        → Below
        → Above
        → FindsIn ((mem p).child_index j) v none
        → FindsIn (some p) v none
    misses_inner h level more le low high finds q i (here lt) = misses low high i lt
    misses_inner h level more le low high finds q i (under {j = j'} _ le' held) =
        elim (Bool-cases (j' == j)) [
          | inl e ↦ let e' : j' ≡ j = ground arith in finds q i (rw e' at held)
          | inr ne ↦ misses_under h level more low high j' q i le' le held (ground arith)
        ]

    finds_above :
        (h : ℕ)
        → IsLevel (suc h) (some p)
        → (mem p).is_leaf ≡ false
        → j ≤ (mem p).key_cnt
        → Below
        → Above
        → (res : Option (Ptr × ℕ)) → FindsIn ((mem p).child_index j) v res
        → FindsIn (some p) v res
    finds_above h level more le low high none finds = misses_inner h level more le low high finds
    finds_above h level more le low high (some (q, i)) finds = (under more le finds.0, finds.1)

-- With more fuel than the level is high, the search in the level returns and leaves the tree as it is,
-- and it finds a key with the value in it exactly if the level has one.
pub search_possition_1d-FindsIn :
    (h fuel : ℕ) (s : Tree) (p : Option Ptr) (v : ℕ)
    → IsLevel s.node h p
    → h < fuel
    → (r : Option (Ptr × ℕ)) × (search_possition_1d fuel p (point v) s ≡ ok r s)
      × FindsIn s.node p v r
unfolding search_possition_1d
search_possition_1d-FindsIn h zero s p v level lt = absurd (omega arith)
search_possition_1d-FindsIn h (suc fuel) s none v level lt =
    (none, refl, λ q i held. absurd (Holds-none s.node q i held))
search_possition_1d-FindsIn zero (suc fuel) s (some p) v level lt = absurd level
search_possition_1d-FindsIn (suc h) (suc fuel) s (some p) v (sorted, plain, inner) lt =
    elim (search_seq-Locates (s.node p) v sorted) [
      | inl (j, r, _, b, hit) ↦ (some (p, j), rw (plain, r) refl, (here b, hit))
      | inr (j, r, _, b, low, high) ↦ elim (Bool-cases (s.node p).is_leaf) [
        | inl leaf ↦ (
          none,
          rw (plain, r, leaf) refl,
          misses-leaf s.node p v j leaf (λ k. low k (omega arith)) high,
        )
        | inr more ↦
            let (res, run, finds) =
              search_possition_1d-FindsIn h fuel s ((s.node p).child_index j) v (inner more j b).0
                (omega arith) in
            (
              res,
              rw (plain, r, more) run,
              finds_above s.node p v j h (sorted, plain, inner) more b (λ k. low k (omega arith))
                  high res finds,
            )
      ]
    ]
