-- ===== src/BTree/Search/Packed.antt =====
-- The walk over the keys of a compressed node (`search_rest_of_path_in_compressed_node`).
use pclass_vectorized.Prelude.{
  ℕ, zero, suc, ◌+◌, ◌-◌, ◌<◌, ◌≤◌, ◌≡◌, refl, ◌⊎◌, inl, inr, ◌∙◌, true, false, none, some, arith,
  if◌then◌else◌, Bool-cases, Option-cases, ◌==◌,
}
use pclass_vectorized.Range.{in_range}
use pclass_vectorized.BTree.{Ptr, Node, RuleValueInt, is_valid}
use pclass_vectorized.BTree.Search.Levels.{Walk, better, compressed_loop}

-- The value of the last rule among those at the keys start, ..., stop - 1, and `before` if there is
-- none.
abbrev pub LastValid : Node → ℕ → ℕ → RuleValueInt → RuleValueInt → Type 0
LastValid n start stop before r =
    ((r ≡ before) × ((k : ℕ) → start ≤ k → k < stop → is_valid (n.value k) ≡ false))
    ⊎ ((k : ℕ) × (start ≤ k)
        × (k < stop)
        × (is_valid (n.value k) ≡ true)
        × (r ≡ n.value k)
        × ((k' : ℕ) → k < k' → k' < stop → is_valid (n.value k') ≡ false))

-- One more key at the front.
pub LastValid-better :
    (n : Node) (start stop : ℕ) (before r : RuleValueInt)
    → start < stop
    → LastValid n (start + 1) stop (better (n.value start) before) r
    → LastValid n start stop before r
LastValid-better n start stop before r lt (inr (k, a, b, valid, e, later)) =
    inr (k, omega arith, b, valid, e, later)
LastValid-better n start stop before r lt (inl (e, later)) =
    elim (Bool-cases (is_valid (n.value start))) [
      | inl valid ↦ inr (
        start,
        omega arith,
        lt,
        valid,
        e ∙ rw (valid, if◌then◌else◌) refl,
        λ k' a b. later k' (omega arith) b,
      )
      | inr not_valid ↦ inl (
        e ∙ rw (not_valid, if◌then◌else◌) refl,
        λ k a b. elim (Bool-cases (k == start)) [
          | inl same ↦ let e' : k ≡ start = ground arith in rw e' not_valid
          | inr other ↦ later k (ground arith) b
        ],
      )
    ]

-- What the walk has when it is at key i2: no link before the last key, and then the last key's.
abbrev pub HasLink : Node → ℕ → Walk → Type 0
HasLink n i2 w =
    (i2 < n.key_cnt → w.next_n ≡ none)
    × (i2 ≡ n.key_cnt
        → (w.next_n ≡ n.next_level (n.key_cnt - 1))
          × ((q : Ptr) → n.next_level (n.key_cnt - 1) ≡ some q → w.add_to_i ≡ n.key_cnt))

-- The result of the walk from key i2 on: the keys before m are met, and m is not or is the end.
abbrev pub Walked : Node → (ℕ → ℕ) → ℕ → RuleValueInt → Walk → Type 0
Walked n val i2 before w =
    (m : ℕ) × (i2 ≤ m)
    × (m ≤ n.key_cnt)
    × ((k : ℕ) → i2 ≤ k → k < m → in_range (n.keys k) (val (n.dim_index k)) ≡ true)
    × (m < n.key_cnt → in_range (n.keys m) (val (n.dim_index m)) ≡ false)
    × LastValid n i2 m before w.res
    × HasLink n m w

step : Node → ℕ → Walk → Walk
step n i2 w = record {
  res = better (n.value i2) w.res;
  next_n = elim (n.next_level i2) [ none ↦ w.next_n | some q ↦ some q ];
  add_to_i = elim (n.next_level i2) [ none ↦ w.add_to_i | some _ ↦ i2 + 1 ];
}

step-HasLink :
    (n : Node) (i2 : ℕ) (w : Walk)
    → ((k : ℕ) → k + 1 < n.key_cnt → n.next_level k ≡ none)
    → i2 < n.key_cnt
    → HasLink n i2 w
    → HasLink n (i2 + 1) (step n i2 w)
unfolding step
step-HasLink n i2 w links lt (before, _) = (
  (λ more. rw (links i2 more) (before lt)),
  λ end.
      let e : n.key_cnt - 1 ≡ i2 = omega arith in
      elim (Option-cases (n.next_level i2)) [
        | inl no_link ↦ (
          rw (e, no_link) (before lt),
          λ q link. absurd (let link' : n.next_level i2 ≡ some q = rw e at link in cc),
        )
        | inr (q, link) ↦ (rw (e, link) refl, λ q' link'. rw link end)
      ],
)

pub compressed_loop-Walked :
    (n : Node) (val : ℕ → ℕ) (count i2 : ℕ) (w : Walk)
    → ((k : ℕ) → k + 1 < n.key_cnt → n.next_level k ≡ none)
    → i2 + count ≡ n.key_cnt
    → HasLink n i2 w
    → Walked n val i2 w.res (compressed_loop n val count i2 w)
unfolding compressed_loop step
compressed_loop-Walked n val zero i2 w links e link = (
  i2,
  omega arith,
  omega arith,
  (λ k a b. absurd (omega arith)),
  (λ a. absurd (omega arith)),
  inl (refl, λ k a b. absurd (omega arith)),
  link,
)
compressed_loop-Walked n val (suc count) i2 w links e link =
    elim (Bool-cases (in_range (n.keys i2) (val (n.dim_index i2)))) [
      | inr miss ↦
          rw (miss, if◌then◌else◌)
            (
              i2,
              omega arith,
              omega arith,
              (λ k a b. absurd (omega arith)),
              (λ a. miss),
              inl (refl, λ k a b. absurd (omega arith)),
              link,
            )
      | inl hit ↦
          let (m, a, b, hits, miss, value, link') =
            compressed_loop-Walked n val count (i2 + 1) (step n i2 w) links (omega arith)
              (step-HasLink n i2 w links (omega arith) link) in
          rw (hit, if◌then◌else◌)
            (
              m,
              omega arith,
              b,
              (λ k c d. elim (Bool-cases (k == i2)) [
                | inl same ↦ let e' : k ≡ i2 = ground arith in rw e' hit
                | inr other ↦ hits k (ground arith) d
              ]),
              miss,
              LastValid-better n i2 m w.res _ (omega arith) value,
              link',
            )
    ]
