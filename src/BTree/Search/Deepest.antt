-- ===== src/BTree/Search/Deepest.antt =====
-- include/pcv/partition_sort/b_tree_search.h: the search in all levels of the tree (`search`), with
-- and without compressed nodes.
use pclass_vectorized.Prelude.{
  ℕ, zero, suc, ◌+◌, ◌-◌, ◌<◌, ◌≡◌, refl, ◌∙◌, inl, inr, true, Option, none, some, List, [], ◌∷◌,
  arith, if◌then◌else◌, Bool-cases, Option-cases, ltb, length, get_elem?, get_or,
}
use pclass_vectorized.Prelude.State.{ok}
use pclass_vectorized.Range.{in_range}
use pclass_vectorized.BTree.{Ptr, Tree, RuleValueInt, dim_at, no_rule}
use pclass_vectorized.BTree.Navigator.{get_next_layer}
use pclass_vectorized.BTree.Search.{point, search_compressed_seq, search_possition_1d}
use pclass_vectorized.BTree.Search.Level.{
  Holds, IsLevel, FindsIn, Holds-none, search_possition_1d-FindsIn,
}
use pclass_vectorized.BTree.Search.UniqueKeys.{Holds-plain}
use pclass_vectorized.BTree.Search.Meets.{IsCompressed, IsTree, IsDeepest}
use pclass_vectorized.BTree.Search.Packed.{LastValid-better, compressed_loop-Walked}
use pclass_vectorized.BTree.Search.Levels.{
  Walk, compressed_loop, search_rest_of_path_in_compressed_node, better, search_loop, search,
}
use pclass_vectorized.BTree.Search.PlainLevels.{IsDeepest-no_key, IsDeepest-next}
use pclass_vectorized.BTree.Search.CompressedNodes.{
  IsDeepest-stop, IsDeepest-through, meets_from_first, misses_behind,
}

dim_at-ok :
    (s : Tree) (i : ℕ)
    → i < length s.dimension_order
    → dim_at i s ≡ ok (get_or s.dimension_order i 0) s
unfolding dim_at
dim_at-ok s i lt = rw (dim_at, get_elem?-get_or s.dimension_order i lt) refl
  where
    get_elem?-get_or : (xs : List ℕ) (i : ℕ) → i < length xs → get_elem? xs i ≡ some (get_or xs i 0)
    get_elem?-get_or [] i lt = absurd (omega arith)
    get_elem?-get_or (x ∷ xs) zero lt = refl
    get_elem?-get_or (x ∷ xs) (suc i) lt = get_elem?-get_or xs i (omega arith)

-- The result of the loop from one link on.
abbrev Searched : ℕ → Tree → (ℕ → ℕ) → Option Ptr → ℕ → RuleValueInt → Type 0
Searched fuel s val p i res =
    (r : RuleValueInt) × (search_loop fuel val p i res s ≡ ok r s)
    × IsDeepest s.node s.dimension_order val p i res r

-- One level, from the result of the search in it and the search in the level under the key found.
search_level :
    (h fuel : ℕ) (s : Tree) (val : ℕ → ℕ) (p : Ptr) (i : ℕ) (res : RuleValueInt)
    → IsLevel s.node h (some p)
    → i < length s.dimension_order
    → (met : Option (Ptr × ℕ))
    → search_possition_1d (suc fuel) (some p) (point (val (get_or s.dimension_order i 0))) s
      ≡ ok met s
    → FindsIn s.node (some p) (val (get_or s.dimension_order i 0)) met
    → ((q k : ℕ)
        → Holds s.node (some p) q k
        → Searched fuel s val ((s.node q).next_level k) (i + 1) (better ((s.node q).value k) res))
    → Searched (suc fuel) s val (some p) i res
unfolding search_loop get_next_layer
search_level h fuel s val p i res level inside none run finds next = (
  res,
  rw (dim_at-ok s i inside, run) refl,
  IsDeepest-no_key s.node s.dimension_order val h (some p) i res level finds,
)
search_level h fuel s val p i res level inside (some (q, k)) run (held, hit) next =
    let (r, run', deep) = next q k held in
    (
      r,
      rw (dim_at-ok s i inside, run, Holds-plain s.node h (some p) level q k held) run',
      IsDeepest-next s.node s.dimension_order val h (some p) i q k level held
          (Holds-plain s.node h (some p) level q k held) hit res r deep,
    )

-- The search in a compressed node asks for its first key only.
search_possition_1d-compressed :
    (fuel : ℕ) (s : Tree) (p : Ptr) (v : ℕ)
    → (s.node p).is_compressed ≡ true
    → (s.node p).is_leaf ≡ true
    → search_possition_1d (suc fuel) (some p) (point v) s
      ≡ ok (if in_range ((s.node p).keys 0) v then some (p, 0) else none) s
unfolding search_possition_1d search_compressed_seq
search_possition_1d-compressed fuel s p v compressed leaf =
    elim (Bool-cases (in_range ((s.node p).keys 0) v)) [
      | inl hit ↦ rw (compressed, hit) refl
      | inr miss ↦ rw (compressed, leaf, miss) refl
    ]

-- A compressed node, from the search in what is linked to its last key.
search_compressed :
    (fuel : ℕ) (s : Tree) (val : ℕ → ℕ) (p : Ptr) (i : ℕ) (res : RuleValueInt)
    → IsCompressed (s.node p)
    → i < length s.dimension_order
    → ((j : ℕ) (r : RuleValueInt) → search_loop fuel val none j r s ≡ ok r s)
    → ((r : RuleValueInt)
        → Searched fuel s val
            ((s.node p).next_level ((s.node p).key_cnt - 1))
            (i + (s.node p).key_cnt)
            r)
    → Searched (suc fuel) s val (some p) i res
unfolding search_loop search_rest_of_path_in_compressed_node
search_compressed fuel s val p i res packed inside stop next =
    let n = s.node p in
    let order = s.dimension_order in
    let at =
      search_possition_1d-compressed fuel s p (val (get_or order i 0)) packed.compressed
        packed.leaf in
    elim (Bool-cases (in_range (n.keys 0) (val (get_or order i 0)))) [
      | inr miss ↦ (
        res,
        rw (dim_at-ok s i inside, at, miss) refl,
        IsDeepest-stop s.node order val p i 0 packed (omega arith) (λ j lt. absurd (omega arith))
            (λ lt. miss) res res (omega (arith, packed.many))
            (inl (refl, λ k a b. absurd (omega arith))),
      )
      | inl hit ↦
          let start : Walk = record { res = better (n.value 0) res; next_n = none; add_to_i = 0 } in
          let w = compressed_loop n val (n.key_cnt - 1) 1 start in
          let (m, a, b, hits, miss, value, link) =
            compressed_loop-Walked n val (n.key_cnt - 1) 1 start packed.links
              (omega (arith, packed.many))
              ((λ lt. refl), λ e. absurd (omega (arith, packed.many))) in
          let value' = LastValid-better n 0 m res w.res (omega arith) value in
          let met = meets_from_first s.node order val p i m hit hits in
          let unmet = misses_behind s.node order val p i m a miss in
          elim (Bool-cases (ltb m n.key_cnt)) [
            | inl less ↦ (
              w.res,
              rw (dim_at-ok s i inside, at, hit, packed.compressed, link.0 (ground arith))
                  (stop (i + w.add_to_i) w.res),
              IsDeepest-stop s.node order val p i m packed b met unmet res w.res (ground arith)
                  value',
            )
            | inr all ↦
                let (last_link, added) = link.1 (ground arith) in
                elim (Option-cases (n.next_level (n.key_cnt - 1))) [
                  | inl no_link ↦ (
                    w.res,
                    rw (dim_at-ok s i inside, at, hit, packed.compressed, last_link ∙ no_link)
                        (stop (i + w.add_to_i) w.res),
                    IsDeepest-through s.node order val p i m packed b met unmet res w.res w.res
                        (ground arith) value'
                        (rw no_link (
                          IsDeepest-no_key s.node order val 0 none (i + n.key_cnt) w.res tt
                            λ q k held. absurd (Holds-none s.node q k held))),
                  )
                  | inr (q, some_link) ↦
                      let (r, run, deep) = next w.res in
                      (
                        r,
                        rw
                            (
                              dim_at-ok s i inside,
                              at,
                              hit,
                              packed.compressed,
                              last_link,
                              added q some_link,
                            )
                            run,
                        IsDeepest-through s.node order val p i m packed b met unmet res w.res r
                            (ground arith) value' deep,
                      )
                ]
          ]
    ]

search_loop-none :
    (fuel : ℕ) (val : ℕ → ℕ) (i : ℕ) (res : RuleValueInt) (s : Tree)
    → 0 < fuel
    → search_loop fuel val none i res s ≡ ok res s
unfolding search_loop
search_loop-none zero val i res s lt = absurd (omega arith)
search_loop-none (suc fuel) val i res s lt = refl

search_loop-IsDeepest :
    (h depth fuel : ℕ) (s : Tree) (val : ℕ → ℕ) (p : Option Ptr) (i : ℕ) (res : RuleValueInt)
    → IsTree s.node s.dimension_order h depth i p
    → h + depth < fuel
    → Searched fuel s val p i res
unfolding search_loop
search_loop-IsDeepest h depth zero s val p i res tree lt = absurd (omega arith)
search_loop-IsDeepest h depth (suc fuel) s val none i res tree lt = (
  res,
  refl,
  IsDeepest-no_key s.node s.dimension_order val 0 none i res tt
      λ q k held. absurd (Holds-none s.node q k held),
)
search_loop-IsDeepest h zero (suc fuel) s val (some p) i res tree lt = absurd tree
search_loop-IsDeepest h (suc depth) (suc fuel) s val (some p) i res (inside, inl (level, deeper))
      lt =
    let (met, run, finds) =
      search_possition_1d-FindsIn h (suc fuel) s (some p) (val (get_or s.dimension_order i 0)) level
        (omega arith) in
    search_level h fuel s val p i res level inside met run finds λ q k held.
      search_loop-IsDeepest h depth fuel s val ((s.node q).next_level k) (i + 1)
        (better ((s.node q).value k) res) (deeper q k held) (omega arith)
search_loop-IsDeepest h (suc depth) (suc fuel) s val (some p) i res (inside, inr (packed, deeper))
      lt =
    search_compressed fuel s val p i res packed inside
      (λ j r. search_loop-none fuel val j r s (omega arith))
      λ r.
        search_loop-IsDeepest h depth fuel s val ((s.node p).next_level ((s.node p).key_cnt - 1))
          (i + (s.node p).key_cnt) r deeper (omega arith)

-- In a tree whose levels are search trees and whose compressed nodes have a link at their last key
-- at most, with a dimension for each level at which the search starts, and with more fuel than the
-- height of the levels and their number, `search` returns and leaves the tree as it is; it returns
-- the value of the deepest rule that the packet meets, and the invalid rule if it meets none.
pub search-IsDeepest :
    (h depth fuel : ℕ) (s : Tree) (val : ℕ → ℕ)
    → IsTree s.node s.dimension_order h depth 0 s.root
    → h + depth < fuel
    → (r : RuleValueInt) × (search fuel val s ≡ ok r s)
      × IsDeepest s.node s.dimension_order val s.root 0 no_rule r
unfolding search
search-IsDeepest h depth fuel s val tree lt =
    search_loop-IsDeepest h depth fuel s val s.root 0 no_rule tree lt
