-- ===== src/BTree/Search/Sequential.antt =====
-- The search in one node: `search_seq` and `findKey`, on the keys that a node of the tree holds.
use pclass_vectorized.Prelude.{
  ℕ, zero, suc, ◌+◌, ◌<◌, ◌≤◌, ◌≡◌, refl, ◌⊎◌, inl, inr, true, false, arith, ltb, if◌then◌else◌,
  Bool-cases, ◌==◌,
}
use pclass_vectorized.Range.{Range1d, in_range, lt_range}
use pclass_vectorized.BTree.{Node}
use pclass_vectorized.BTree.Search.{
  SearchResult, found, missed, point, search_seq_loop, search_seq, find_key_loop, find_key,
}

-- The keys are not empty, do not overlap and stand in ascending order.
abbrev pub KeysSorted : (ℕ → Range1d) → ℕ → Type 0
KeysSorted keys cnt =
    ((i : ℕ) → i < cnt → (keys i).low ≤ (keys i).high)
    × ((i j : ℕ) → i < j → j < cnt → (keys i).high < (keys j).low)

-- The result for a value v among the keys start, ..., stop - 1: the key with v in it, or the place at
-- which all keys before are below v and all keys behind are above it.
abbrev pub Locates : (ℕ → Range1d) → ℕ → ℕ → ℕ → SearchResult → Type 0
Locates keys start stop v r =
    ((j : ℕ) × (r ≡ found j) × (start ≤ j) × (j < stop) × (in_range (keys j) v ≡ true))
    ⊎ ((j : ℕ) × (r ≡ missed j)
        × (start ≤ j)
        × (j ≤ stop)
        × ((k : ℕ) → start ≤ k → k < j → (keys k).high < v)
        × ((k : ℕ) → j ≤ k → k < stop → v < (keys k).low))

-- A key that v does not enter, and that does not begin above v, ends below v.
below : (key : Range1d) (v : ℕ) → ltb v key.low ≡ false → in_range key v ≡ false → key.high < v
below key v h h' = ground arith

-- If v is below a key, it is below the later ones.
above :
    (keys : ℕ → Range1d) (cnt v j : ℕ)
    → KeysSorted keys cnt
    → v < (keys j).low
    → (k : ℕ) → j ≤ k
    → k < cnt
    → v < (keys k).low
above keys cnt v j sorted h k le lt = elim (Bool-cases (ltb j k)) [
  | inl later ↦ ground (arith, sorted.1 j k (ground arith) lt, sorted.0 j (omega arith))
  | inr same ↦ let e : k ≡ j = ground arith in rw e h
]

search_seq_loop-Locates :
    (keys : ℕ → Range1d) (cnt v count i : ℕ)
    → KeysSorted keys cnt
    → i + count ≡ cnt
    → Locates keys i cnt v (search_seq_loop keys (point v) count i)
unfolding search_seq_loop
search_seq_loop-Locates keys cnt v zero i sorted e =
    inr (i, refl, omega arith, omega arith, (λ k a b. omega arith), λ k a b. omega arith)
search_seq_loop-Locates keys cnt v (suc count) i sorted e = elim (Bool-cases (ltb v (keys i).low)) [
  | inl stop ↦
      rw (stop, if◌then◌else◌)
        (inr (
          i,
          refl,
          omega arith,
          omega arith,
          (λ k a b. omega arith),
          λ k a b. above keys cnt v i sorted (ground arith) k a (omega arith),
        ))
  | inr go ↦ elim (Bool-cases (in_range (keys i) v)) [
    | inl hit ↦ rw (go, hit, if◌then◌else◌) (inl (i, refl, omega arith, omega arith, hit))
    | inr no_hit ↦
        rw (go, no_hit, if◌then◌else◌)
          (elim (search_seq_loop-Locates keys cnt v count (i + 1) sorted (omega arith)) [
            | inl (j, r, a, b, h) ↦ inl (j, r, omega arith, b, h)
            | inr (j, r, a, b, low, high) ↦ inr (
              j,
              r,
              omega arith,
              b,
              (λ k c d. elim (Bool-cases (k == i)) [
                | inl e' ↦ let e'' : k ≡ i = ground arith in rw e'' (below (keys i) v go no_hit)
                | inr ne ↦ low k (ground arith) d
              ]),
              high,
            )
          ])
  ]
]

-- If the keys of a node are sorted, `search_seq` finds the key that a value enters, and else tells
-- the place of the child to go to: all keys before it are below the value, all others above.
pub search_seq-Locates :
    (n : Node) (v : ℕ)
    → KeysSorted n.keys n.key_cnt
    → Locates n.keys 0 n.key_cnt v (search_seq n (point v))
unfolding search_seq
search_seq-Locates n v sorted =
    search_seq_loop-Locates n.keys n.key_cnt v n.key_cnt 0 sorted (omega arith)

-- The first index among start, ..., stop - 1 at which the key does not begin below k, or stop.
abbrev pub IsLeast : (ℕ → Range1d) → Range1d → ℕ → ℕ → ℕ → Type 0
IsLeast keys k start stop j =
    (start ≤ j)
    × (j ≤ stop)
    × ((l : ℕ) → start ≤ l → l < j → (keys l).low < k.low)
    × (j < stop → k.low ≤ (keys j).low)

find_key_loop-IsLeast :
    (keys : ℕ → Range1d) (k : Range1d) (count i stop : ℕ)
    → i + count ≡ stop
    → IsLeast keys k i stop (find_key_loop keys k count i)
unfolding find_key_loop
find_key_loop-IsLeast keys k zero i stop e =
    (omega arith, omega arith, (λ l a b. omega arith), λ a. omega arith)
find_key_loop-IsLeast keys k (suc count) i stop e =
    let (a, b, c, d) = find_key_loop-IsLeast keys k count (i + 1) stop (omega arith) in
    elim (Bool-cases (lt_range (keys i) k)) [
      | inl less ↦
          rw (less, if◌then◌else◌)
            (
              omega arith,
              b,
              (λ l f g. elim (Bool-cases (l == i)) [
                | inl e' ↦ let e'' : l ≡ i = ground arith in rw e'' (ground arith)
                | inr ne ↦ c l (ground arith) g
              ]),
              d,
            )
      | inr more ↦
          rw (more, if◌then◌else◌)
            (omega arith, omega arith, (λ l f g. omega arith), λ f. ground arith)
    ]

-- `findKey` is the first index at which the key does not begin below the key looked for, or the number
-- of keys if all begin below it.
pub find_key-IsLeast : (n : Node) (k : Range1d) → IsLeast n.keys k 0 n.key_cnt (find_key n k)
unfolding find_key
find_key-IsLeast n k = find_key_loop-IsLeast n.keys k n.key_cnt 0 n.key_cnt (omega arith)
