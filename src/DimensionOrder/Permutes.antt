-- ===== src/DimensionOrder/Permutes.antt =====
-- include/pcv/partition_sort/dimension_order_resolver.h: the order that `resolve` returns, as a
-- permutation.
use mathlib.Core.List.{Perm, Permᴰ, perm_middle}
use mathlib.Core.List.Perm
use mathlib.Core.Logic.{∥∥₁_elim}
use pclass_vectorized.Prelude.{
  ℕ, ◌≡◌, refl, ◌≢◌, inl, inr, Bool, true, false, not, Option, some, List, [], ◌∷◌, ◌++◌, map,
  arith, if◌then◌else◌, length, get_or, ap, sym, All, Bool-cases,
}
use pclass_vectorized.Range.{Range1d, range}
use pclass_vectorized.BTree.{RuleSpec, field}
use pclass_vectorized.Scheduling.{
  find_max_weight_interval_sequence, interval_comparator, max_weight,
}
use pclass_vectorized.Scheduling.Chains.{max_weight_defined}
use pclass_vectorized.DimensionOrder.{
  Sort, is_used, keep, dims_from, score_before, get_dimension_sel_score, all_scores, resolve,
}

-- What the code relies on of `std::sort`.
abbrev pub Permutes : {A : Type 0} → Sort A → Type 0
Permutes {A} sort = (lt : A → A → Bool) (l : List A) → Perm (sort lt l) l

module _ {A : Type 0} (p : A → Bool) where
  keep-permᴰ : {l m : List A} → Permᴰ l m → Perm (keep p l) (keep p m)
  unfolding keep
  keep-permᴰ Permᴰ.nil = Perm.refl []
  keep-permᴰ (Permᴰ.cons {a} {b} {l₁} {l₂} e q) = rw e (elim (Bool-cases (p b)) [
    | inl t ↦ rw t (Perm.cons b (keep-permᴰ q))
    | inr f ↦ rw f (keep-permᴰ q)
  ])
  keep-permᴰ (Permᴰ.swap {a} {b} {a'} {b'} {l} e f) =
      rw (e, f)
        (elim (Bool-cases (p a')) [
          | inl t ↦ elim (Bool-cases (p b')) [
            | inl u ↦ rw (t, u) (Perm.swap a' b' (keep p l))
            | inr u ↦ rw (t, u) (Perm.refl (a' ∷ keep p l))
          ]
          | inr t ↦ elim (Bool-cases (p b')) [
            | inl u ↦ rw (t, u) (Perm.refl (b' ∷ keep p l))
            | inr u ↦ rw (t, u) (Perm.refl (keep p l))
          ]
        ])
  keep-permᴰ (Permᴰ.trans q r) = Perm.trans (keep-permᴰ q) (keep-permᴰ r)

  -- A list, sorted into the items with the test true and the others.
  keep-perm : (l : List A) → Perm (keep p l ++ keep (λ x. not (p x)) l) l
  unfolding keep
  keep-perm [] = Perm.refl []
  keep-perm (x ∷ xs) = elim (Bool-cases (p x)) [
    | inl t ↦ rw t (Perm.cons x (keep-perm xs))
    | inr f ↦ rw f (Perm.trans (perm_middle (keep p xs) _) (Perm.cons x (keep-perm xs)))
  ]

  All-keep : (l : List A) → All (λ x. p x ≡ true) (keep p l)
  unfolding keep
  All-keep [] = tt
  All-keep (x ∷ xs) = elim (Bool-cases (p x)) [
    | inl t ↦ rw (t, if◌then◌else◌) (t, All-keep xs)
    | inr f ↦ rw (f, if◌then◌else◌) (All-keep xs)
  ]

keep_mono : {A : Type 0} (p : A → Bool) {l m : List A} → Perm l m → Perm (keep p l) (keep p m)
keep_mono p q = ∥∥₁_elim q squash₁ (keep-permᴰ p)

keep_none : (l : List ℕ) → keep (λ _. false) l ≡ []
unfolding keep
keep_none [] = refl
keep_none (x ∷ xs) = keep_none xs

max_weight-some :
    (intervals : ℕ → Range1d) (l : List Range1d)
    → l ≢ []
    → (s : ℕ) × (max_weight intervals (length l) ≡ some s)
max_weight-some intervals [] ne = absurd (ne refl)
max_weight-some intervals (x ∷ xs) ne = max_weight_defined intervals (length xs)

sorted-ne-nil :
    (sort : Sort Range1d) (lt : Range1d → Range1d → Bool) (x : Range1d) (xs : List Range1d)
    → Permutes sort
    → sort lt (x ∷ xs) ≢ []
sorted-ne-nil sort lt x xs permutes e =
    cc (Perm.eq-nil (rw e at (Perm.symm (permutes lt (x ∷ xs)))))

-- With a rule there is an interval to schedule, so that a dimension has a score.
score_exists :
    (sort : Sort Range1d) (r : RuleSpec) (rs : List RuleSpec) (d : ℕ)
    → Permutes sort
    → (s : ℕ) × (get_dimension_sel_score sort (r ∷ rs) d ≡ some s)
unfolding get_dimension_sel_score find_max_weight_interval_sequence
score_exists sort r rs d permutes =
    let values = map (λ q. field q d) (r ∷ rs) in
    let sorted = sort interval_comparator values in
    max_weight-some (λ i. get_or sorted i (range 0 0)) sorted
      (sorted-ne-nil sort interval_comparator (field r d) (map (λ q. field q d) rs) permutes)

all_scores_lem :
    (score : ℕ → Option ℕ) (ds : List ℕ)
    → ((d : ℕ) → (s : ℕ) × (score d ≡ some s))
    → (scores : List (ℕ × ℕ)) × (all_scores score ds ≡ some scores) × (map (λ s. s.0) scores ≡ ds)
unfolding all_scores
all_scores_lem score [] some_score = ([], refl, refl)
all_scores_lem score (d ∷ ds) some_score =
    let (s, e) = some_score d in
    let (rest, f, g) = all_scores_lem score ds some_score in
    ((d, s) ∷ rest, ground arith, ap (◌∷◌ d) g)

-- Every pending dimension gets a score: without rules no dimension is pending.
scores_exist :
    (sort : Sort Range1d) (key_bits : ℕ) (rules : List RuleSpec) (dims : List ℕ)
    → Permutes sort
    → (scores : List (ℕ × ℕ)) × (all_scores
          (get_dimension_sel_score sort rules)
          (keep (is_used key_bits rules) dims)
        ≡ some scores)
      × (map (λ s. s.0) scores ≡ keep (is_used key_bits rules) dims)
unfolding is_used
scores_exist sort key_bits [] dims permutes =
    ([], rw (keep_none dims) (unfold all_scores in refl), sym (keep_none dims))
scores_exist sort key_bits (r ∷ rs) dims permutes =
    all_scores_lem _ _ (λ d. score_exists sort r rs d permutes)

-- If the sorts permute their input and the old order is a permutation of the dimensions, `resolve`
-- returns an order and a count; the order is a permutation of the old one, it begins with that many
-- dimensions that some rule uses, and behind them stand the dimensions that no rule uses, in their
-- old order.
pub resolve-perm :
    (sort : Sort Range1d) (sort_scores : Sort (ℕ × ℕ)) (key_bits dim_cnt : ℕ)
    (rules : List RuleSpec) (order : List ℕ)
    → Permutes sort
    → Permutes sort_scores
    → Perm order (dims_from dim_cnt 0)
    → (front : List ℕ) × (resolve sort sort_scores key_bits dim_cnt rules order
        ≡ some (front ++ keep (λ d. not (is_used key_bits rules d)) order, length front))
      × Perm (front ++ keep (λ d. not (is_used key_bits rules d)) order) order
      × Perm front (keep (is_used key_bits rules) (dims_from dim_cnt 0))
      × All
          (λ d. is_used key_bits rules d ≡ true)
          (keep (is_used key_bits rules) (dims_from dim_cnt 0))
unfolding resolve
resolve-perm sort sort_scores key_bits dim_cnt rules order permutes permutes' is_order =
    let used = is_used key_bits rules in
    let (scores, e, f) = scores_exist sort key_bits rules (dims_from dim_cnt 0) permutes in
    let front = map (λ (s : ℕ × ℕ). s.0) (sort_scores (score_before order) scores) in
    let in_front : Perm front (keep used (dims_from dim_cnt 0)) =
      rw (← f) (Perm.map (λ (s : ℕ × ℕ). s.0) (permutes' (score_before order) scores)) in
    let of_order = Perm.trans in_front (keep_mono used (Perm.symm is_order)) in
    (
      front,
      rw (e, resolve),
      Perm.trans (Perm.append_right _ of_order) (keep-perm used order),
      in_front,
      All-keep used (dims_from dim_cnt 0),
    )
