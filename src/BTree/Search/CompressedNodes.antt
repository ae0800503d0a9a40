-- ===== src/BTree/Search/CompressedNodes.antt =====
-- One compressed node, in the search in all levels (`BTreeSearch::search`).
use pclass_vectorized.Prelude.{
  ℕ, zero, suc, ◌+◌, ◌-◌, ◌<◌, ◌≤◌, ◌≡◌, refl, ◌∙◌, ◌⊎◌, inl, inr, true, false, some, List, arith,
  Bool-cases, ltb, get_or,
}
use pclass_vectorized.Range.{in_range}
use pclass_vectorized.BTree.{Ptr, Node, RuleValueInt}
use pclass_vectorized.BTree.Search.Level.{Holds-leaf}
use pclass_vectorized.BTree.Search.Meets.{
  IsCompressed, Meets, IsDeepest, meets_key, last, onto, within, through,
}
use pclass_vectorized.BTree.Search.Packed.{LastValid}

module _ (mem : Ptr → Node) (order : List ℕ) where
  -- A chain from a compressed node: it ends in the node, or leads through it.
  Meets-compressed :
      (val : ℕ → ℕ) (p : Ptr) (i n : ℕ) (v : RuleValueInt)
      → IsCompressed (mem p)
      → Meets mem order val (some p) i n v
      → ((n < (mem p).key_cnt)
          × ((j : ℕ) → j ≤ n → meets_key mem order val p i j ≡ true)
          × (v ≡ (mem p).value n))
        ⊎ ((n' : ℕ) × ((j : ℕ) → j < (mem p).key_cnt → meets_key mem order val p i j ≡ true)
            × (n ≡ (mem p).key_cnt + n')
            × Meets mem order val
                ((mem p).next_level ((mem p).key_cnt - 1))
                (i + (mem p).key_cnt)
                n'
                v)
  Meets-compressed val p i n v packed (last {q = q} {k = k} held plain _) =
      let e = (Holds-leaf mem p q k packed.leaf held).0 in
      let plain' = rw e at plain in let compressed = packed.compressed in cc
  Meets-compressed val p i n v packed (onto {q = q} {k = k} held plain _ _) =
      let e = (Holds-leaf mem p q k packed.leaf held).0 in
      let plain' = rw e at plain in let compressed = packed.compressed in cc
  Meets-compressed val p i n v packed (within _ lt hits) = inl (lt, hits, refl)
  Meets-compressed val p i n v packed (through {n = n'} _ hits e rest) = inr (n', hits, e, rest)

  pub meets_from_first :
      (val : ℕ → ℕ) (p : Ptr) (i m : ℕ)
      → in_range ((mem p).keys 0) (val (get_or order i 0)) ≡ true
      → ((k : ℕ) → 1 ≤ k → k < m → in_range ((mem p).keys k) (val ((mem p).dim_index k)) ≡ true)
      → (j : ℕ) → j < m
      → meets_key mem order val p i j ≡ true
  meets_from_first val p i m first hits zero lt = first
  meets_from_first val p i m first hits (suc j) lt = hits (suc j) (omega arith) lt

  pub misses_behind :
      (val : ℕ → ℕ) (p : Ptr) (i m : ℕ)
      → 1 ≤ m
      → (m < (mem p).key_cnt → in_range ((mem p).keys m) (val ((mem p).dim_index m)) ≡ false)
      → m < (mem p).key_cnt
      → meets_key mem order val p i m ≡ false
  misses_behind val p i zero pos miss lt = absurd (omega arith)
  misses_behind val p i (suc m) pos miss lt = miss lt

  module _ (val : ℕ → ℕ) (p : Ptr) (i m : ℕ) (packed : IsCompressed (mem p))
      (few : m ≤ (mem p).key_cnt) (hits : (j : ℕ) → j < m → meets_key mem order val p i j ≡ true)
      (miss : m < (mem p).key_cnt → meets_key mem order val p i m ≡ false) where
    -- The packet meets m keys of the node: the chains that end in the node end at one of these.
    ends_before :
        (n : ℕ)
        → n < (mem p).key_cnt
        → ((j : ℕ) → j ≤ n → meets_key mem order val p i j ≡ true)
        → n < m
    ends_before n lt hits' = elim (Bool-cases (ltb n m)) [
      | inl less ↦ ground arith
      | inr more ↦ let hit = hits' m (ground arith) in let no_hit = miss (ground arith) in cc
    ]

    -- What the walk found in the node, if the search ends there.
    pub IsDeepest-stop :
        (res r : RuleValueInt)
        → m < (mem p).key_cnt
        → LastValid (mem p) 0 m res r
        → IsDeepest mem order val (some p) i res r
    IsDeepest-stop res r lt (inl (e, invalid)) = inl (
      e,
      λ n v le met. elim (Meets-compressed val p i n v packed met) [
        | inl (lt', hits', e') ↦ rw e' (invalid n (omega arith) (ends_before n lt' hits'))
        | inr (n', hits', _, _) ↦ let hit = hits' m lt in let no_hit = miss lt in cc
      ],
    )
    IsDeepest-stop res r lt (inr (k, a, b, valid, e, later)) = inr (
      k,
      rw e (within packed.compressed (omega arith) λ j le. hits j (omega arith)),
      rw e valid,
      λ n v le met. elim (Meets-compressed val p i n v packed met) [
        | inl (lt', hits', e') ↦ rw e' (later n (omega arith) (ends_before n lt' hits'))
        | inr (n', hits', _, _) ↦ let hit = hits' m lt in let no_hit = miss lt in cc
      ],
    )

    -- The same, if the search goes on behind the node.
    pub IsDeepest-through :
        (res found r : RuleValueInt)
        → m ≡ (mem p).key_cnt
        → LastValid (mem p) 0 m res found
        → IsDeepest mem order val
            ((mem p).next_level ((mem p).key_cnt - 1))
            (i + (mem p).key_cnt)
            found
            r
        → IsDeepest mem order val (some p) i res r
    IsDeepest-through res found r all (inl (e, invalid)) (inl (e', sub)) = inl (
      e' ∙ e,
      λ n v le met. elim (Meets-compressed val p i n v packed met) [
        | inl (lt, _, same) ↦ rw same (invalid n (omega arith) (omega arith))
        | inr (n', _, _, rest) ↦ sub n' v (omega arith) rest
      ],
    )
    IsDeepest-through res found r all (inr (k, a, b, valid, e, later)) (inl (e', sub)) = inr (
      k,
      rw (e' ∙ e) (within packed.compressed (omega arith) λ j le. hits j (omega arith)),
      rw (e' ∙ e) valid,
      λ n v le met. elim (Meets-compressed val p i n v packed met) [
        | inl (lt, _, same) ↦ rw same (later n (omega arith) (omega arith))
        | inr (n', _, _, rest) ↦ sub n' v (omega arith) rest
      ],
    )
    IsDeepest-through res found r all value (inr (n, met, valid, sub)) = inr (
      (mem p).key_cnt + n,
      through packed.compressed (λ j lt. hits j (omega arith)) refl met,
      valid,
      λ n' v le met'. elim (Meets-compressed val p i n' v packed met') [
        | inl (lt, _, _) ↦ absurd (omega arith)
        | inr (n'', _, e, rest) ↦ sub n'' v (omega arith) rest
      ],
    )
