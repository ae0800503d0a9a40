-- ===== src/BTree/LeafKeys/Insertion.antt =====
-- include/pcv/partition_sort/b_tree_insert.h: `insert_non_full` in a leaf, on the sequence of its keys.
use pclass_vectorized.Prelude.{
  ℕ, zero, suc, ◌+◌, ◌-◌, ◌<◌, ◌≤◌, ◌≡◌, ◌≢◌, refl, sym, ap, ◌∙◌, ◌⊎◌, inl, inr, true, false, ◌&&◌,
  arith, ltb, leb, none, ◌==◌, if◌then◌else◌, Bool-cases,
}
use pclass_vectorized.Prelude.State.{ok, and_then}
use pclass_vectorized.Range.{Range1d, gt_range}
use pclass_vectorized.BTree.{BTreeCfg, max_degree, Ptr, KeyInfo, Tree, move_key, get_key}
use pclass_vectorized.BTree.Search.Sequential.{KeysSorted}
use pclass_vectorized.BTree.Insert.{shift_greater, insert_non_full}
use pclass_vectorized.BTree.Insert.Cookie.{InsertCookie, required_more_levels, actual_key}
use pclass_vectorized.BTree.LeafKeys.{
  SameBut, SameBut-refl, SameBut-trans, move_key-Moves, keys_of, key_at, put_key_lem,
}

-- The loop of `insert_non_full` in a leaf: the keys that begin above k move one place up.
shift_greater-Moves :
    (count : ℕ) (p : Ptr) (k : Range1d) (s : Tree)
    → (i : ℕ) × (t : Tree) × (shift_greater p k count s ≡ ok i t)
      × SameBut p s t
      × ((t.node p).key_cnt ≡ (s.node p).key_cnt)
      × ((l : ℕ)
          → get_key (t.node p) l ≡ get_key (s.node p) (if ltb i l && leb l count then l - 1 else l))
      × (i ≤ count)
      × ((l : ℕ) → i ≤ l → l < count → k.low < ((s.node p).keys l).low)
      × ((l : ℕ) → l + 1 ≡ i → ((s.node p).keys l).low ≤ k.low)
unfolding shift_greater move_key
shift_greater-Moves zero p k s = (
  0,
  s,
  refl,
  SameBut-refl p s,
  refl,
  (λ l. let e : (ltb 0 l && leb l 0) ≡ false = ground arith in rw e refl),
  omega arith,
  (λ l a b. omega arith),
  λ l a. omega arith,
)
shift_greater-Moves (suc count) p k s = elim (Bool-cases (gt_range ((s.node p).keys count) k)) [
  | inl greater ↦
      let (t, run, same, cnt, keys) = move_key-Moves p count (count + 1) s in
      let (i, u, run', same', cnt', keys', le, above, below) = shift_greater-Moves count p k t in
      let kept : (l : ℕ) → l ≤ count → (t.node p).keys l ≡ (s.node p).keys l = λ l le.
        keys_of (t.node p) (s.node p) l l (keys l ∙ ap (get_key (s.node p)) (ground arith)) in
      (
        i,
        u,
        rw greater (ap (λ r. and_then r (λ _. shift_greater p k count)) run ∙ run'),
        SameBut-trans p s t u same same',
        cnt' ∙ cnt,
        (λ l. keys' l ∙ keys _ ∙ ap (get_key (s.node p)) (ground arith)),
        omega arith,
        (λ l a b. elim (Bool-cases (l == count)) [
          | inl e ↦ let e' : l ≡ count = ground arith in rw e' (ground arith)
          | inr ne ↦ rw (sym (kept l (omega arith))) (above l a (ground arith))
        ]),
        λ l e. rw (sym (kept l (omega arith))) (below l e),
      )
  | inr stop ↦ (
    suc count,
    s,
    rw stop refl,
    SameBut-refl p s,
    refl,
    (λ l. let e : (ltb (suc count) l && leb l (suc count)) ≡ false = ground arith in rw e refl),
    omega arith,
    (λ l a b. absurd (omega arith)),
    λ l e. let e' : l ≡ count = omega arith in rw e' (ground arith),
  )
]

-- Sorted keys with one more at place i are sorted if it shares no value with them, those before i
-- do not begin above it and the others do.
pub KeysSorted-inserted :
    (keys keys' : ℕ → Range1d) (cnt i : ℕ) (k : Range1d)
    → KeysSorted keys cnt
    → k.low ≤ k.high
    → ((l : ℕ) → l < cnt → ((keys l).high < k.low) ⊎ (k.high < (keys l).low))
    → ((l : ℕ) → i ≤ l → l < cnt → k.low < (keys l).low)
    → ((l : ℕ) → l + 1 ≡ i → (keys l).low ≤ k.low)
    → i ≤ cnt
    → keys' i ≡ k
    → ((l : ℕ) → l ≤ cnt → l ≢ i → keys' l ≡ keys (if ltb l i then l else l - 1))
    → KeysSorted keys' (cnt + 1)
KeysSorted-inserted keys keys' cnt i k (full, apart) ok_k free above below le at_i others =
    (full', apart')
  where
    before : (l : ℕ) → l < i → (keys l).high < k.low
    before l lt = elim (Bool-cases (l + 1 == i)) [
      | inl e ↦ elim (free l (omega arith)) [
        | inl done ↦ done
        | inr over ↦ omega (arith, over, below l (ground arith))
      ]
      | inr ne ↦ elim (free l (omega arith)) [
        | inl done ↦ done
        | inr over ↦ ground (
          arith,
          over,
          below (i - 1) (omega arith),
          apart l (i - 1) (ground arith) (omega arith),
          full l (omega arith),
        )
      ]
    ]

    after : (l : ℕ) → i ≤ l → l < cnt → k.high < (keys l).low
    after l ge lt = elim (free l lt) [
      | inl under ↦ omega (arith, under, above l ge lt, full l lt)
      | inr done ↦ done
    ]

    full' : (l : ℕ) → l < cnt + 1 → (keys' l).low ≤ (keys' l).high
    full' l lt = elim (Bool-cases (l == i)) [
      | inl e ↦ let e' : l ≡ i = ground arith in rw (e', at_i) ok_k
      | inr ne ↦
          rw (others l (omega arith) (ground arith))
            (full (if ltb l i then l else l - 1) (ground arith))
    ]

    apart' : (a b : ℕ) → a < b → b < cnt + 1 → (keys' a).high < (keys' b).low
    apart' a b less lt = elim (Bool-cases (a == i)) [
      | inl e ↦
          let e' : a ≡ i = ground arith in
          let eb : keys' b ≡ keys (b - 1) =
            others b (omega arith) (omega arith) ∙ ap keys (ground arith) in
          rw (e', at_i, eb) (after (b - 1) (omega arith) (omega arith))
      | inr ne ↦
          let ea : keys' a ≡ keys (if ltb a i then a else a - 1) =
            others a (omega arith) (ground arith) in
          elim (Bool-cases (b == i)) [
            | inl e ↦
                let e' : b ≡ i = ground arith in
                let ea' : keys' a ≡ keys a = ea ∙ ap keys (ground arith) in
                rw (e', at_i, ea') (before a (omega arith))
            | inr ne' ↦
                rw (ea, others b (omega arith) (ground arith))
                  (apart (if ltb a i then a else a - 1) (if ltb b i then b else b - 1)
                    (ground arith) (ground arith))
          ]
    ]

-- An insertion of the last level's key k into a leaf that has room, if the leaf's keys are sorted and
-- k shares no value with them: it succeeds, puts k with the rule's value among the others, whose order
-- it keeps, and leaves the leaf's keys sorted; its links, dimensions and flags, the other nodes, the
-- pool, the root and the order of the dimensions are as before.
pub insert_non_full-KeysSorted :
    (cfg : BTreeCfg) (fuel : ℕ) (p : Ptr) (cookie : InsertCookie) (k : Range1d) (s : Tree)
    → (s.node p).is_leaf ≡ true
    → (s.node p).key_cnt < max_degree cfg
    → required_more_levels cookie ≡ false
    → actual_key cookie s ≡ ok k s
    → k.low ≤ k.high
    → ((l : ℕ)
        → l < (s.node p).key_cnt
        → (((s.node p).keys l).high < k.low) ⊎ (k.high < ((s.node p).keys l).low))
    → KeysSorted (s.node p).keys (s.node p).key_cnt
    → (i : ℕ) × (t : Tree) × (insert_non_full cfg (suc fuel) p cookie s ≡ ok tt t)
      × SameBut p s t
      × ((t.node p).key_cnt ≡ (s.node p).key_cnt + 1)
      × (i ≤ (s.node p).key_cnt)
      × (get_key (t.node p) i ≡ record { key = k; value = cookie.rule.value; next_level = none })
      × ((l : ℕ)
          → l ≤ (s.node p).key_cnt
          → l ≢ i
          → get_key (t.node p) l ≡ get_key (s.node p) (if ltb l i then l else l - 1))
      × KeysSorted (t.node p).keys (t.node p).key_cnt
unfolding insert_non_full
insert_non_full-KeysSorted cfg fuel p cookie k s leaf room last_level actual ok_k free sorted =
    let (i, t, run, same, cnt, keys, le, above, below) =
      shift_greater-Moves (s.node p).key_cnt p k s in
    let new : KeyInfo = record { key = k; value = cookie.rule.value; next_level = none } in
    let (u, run', same', cnt', keys') = put_key_lem p i new t in
    let at_i : get_key (u.node p) i ≡ new =
      keys' i ∙ (let e : (i == i) ≡ true = ground arith in rw (e, if◌then◌else◌) refl) in
    let others : (l : ℕ)
        → l ≤ (s.node p).key_cnt
        → l ≢ i
        → get_key (u.node p) l ≡ get_key (s.node p) (if ltb l i then l else l - 1) =
      λ l le' ne.
        keys' l
        ∙ (let e : (l == i) ≡ false = ground arith in rw (e, if◌then◌else◌) refl)
        ∙ keys l
        ∙ ap (get_key (s.node p)) (ground arith) in
    (
      i,
      u,
      (let fits : leb (max_degree cfg) (s.node p).key_cnt ≡ false = ground (arith, room) in
          rw (actual, leaf, fits, run, last_level, run') refl),
      SameBut-trans p s t u same same',
      cnt' ∙ ap (λ n. n + 1) cnt,
      le,
      at_i,
      others,
      rw (cnt', cnt)
          (KeysSorted-inserted (s.node p).keys (u.node p).keys (s.node p).key_cnt i k sorted ok_k
            free above below le (key_at (u.node p) i new at_i)
            λ l le' ne.
              keys_of (u.node p) (s.node p) l (if ltb l i then l else l - 1) (others l le' ne)),
    )
