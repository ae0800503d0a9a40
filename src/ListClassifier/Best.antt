-- ===== src/ListClassifier/Best.antt =====
-- benchmarks/list/list_classifier.h: `prepare` and `search`, against the rules as a set.
use mathlib.Core.List.{Perm, Mem, mem-cons, not-mem-nil}
use mathlib.Core.List.Perm
use mathlib.Core.Logic.Or
use native.Mathlib.Bridge.{le_prop}
use pclass_vectorized.Prelude.{
  ℕ, ◌≤◌, ◌≡◌, refl, ◌↔◌, ◌⊎◌, inl, inr, true, false, none, some, List, [], ◌∷◌, arith, All,
  Bool-cases,
}
use pclass_vectorized.BTree.{RuleSpec, RuleValueInt, no_rule}
use pclass_vectorized.DimensionOrder.{Sort}
use pclass_vectorized.ListClassifier.{
  ListBasedClassifier, before, prepare, matches, search_rules, search, insert,
}

-- No rule stands behind one that should stand behind it.
abbrev pub IsSorted : List RuleSpec → Type 0
IsSorted [] = Unit
IsSorted (r ∷ rs) = All (λ x. before x r ≡ false) rs × IsSorted rs

-- What the code relies on of `std::sort` with this comparator.
pub record Sorts (sort : Sort RuleSpec) : Type 0 where
  pub permutes : (l : List RuleSpec) → Perm (sort before l) l
  pub sorts : (l : List RuleSpec) → IsSorted (sort before l)

-- The value is that of a matching rule of the list, and no matching rule has a greater priority; or
-- it is the invalid value, and no rule of the list matches.
abbrev pub IsBest : List RuleSpec → List ℕ → RuleValueInt → Type 0
IsBest rules v best =
    ((r : RuleSpec) × Mem r rules
      × (matches r.ranges v ≡ true)
      × (best ≡ r.value)
      × ((x : RuleSpec)
          → Mem x rules
          → matches x.ranges v ≡ true
          → x.value.priority ≤ best.priority))
    ⊎ ((best ≡ no_rule) × ((x : RuleSpec) → Mem x rules → matches x.ranges v ≡ false))

priority-le :
    (x r : RuleSpec) (rs : List RuleSpec)
    → All (λ y. before y r ≡ false) rs
    → Mem x rs
    → x.value.priority ≤ r.value.priority
priority-le x r [] h m = absurd (not-mem-nil m)
priority-le x r (y ∷ rs) h m =
    Or.elim le_prop (mem-cons.0 m) (λ e. rw e (ground arith)) (λ m'. priority-le x r rs h.1 m')

search_rules-IsBest :
    (rules : List RuleSpec) (v : List ℕ) → IsSorted rules → IsBest rules v (search_rules rules v)
unfolding search_rules
search_rules-IsBest [] v s = inr (refl, λ x m. absurd (not-mem-nil m))
search_rules-IsBest (r ∷ rs) v s = elim (Bool-cases (matches r.ranges v)) [
  | inl hit ↦
      rw (hit, search_rules)
        (inl (
          r,
          mem-cons.1 (Or.inl refl),
          hit,
          refl,
          λ x m h.
              Or.elim le_prop (mem-cons.0 m) (λ e. rw e (omega arith)) (priority-le x r rs s.0),
        ))
  | inr miss ↦
      rw (miss, search_rules)
        (elim (search_rules-IsBest rs v s.1) [
          | inl (q, m, hit, e, best) ↦ inl (
            q,
            mem-cons.1 (Or.inr m),
            hit,
            e,
            λ x n h.
                Or.elim le_prop (mem-cons.0 n) (λ f. absurd (ne_of_miss x r v f miss h))
                  (λ n'. best x n' h),
          )
          | inr (e, none_match) ↦
              inr (e, λ x n. Or.elim (hlevel) (mem-cons.0 n) (λ f. rw f miss) (none_match x))
        ])
]
  where
    ne_of_miss :
        (x r : RuleSpec) (v : List ℕ)
        → x ≡ r
        → matches r.ranges v ≡ false
        → matches x.ranges v ≡ true
        → ⊥
    ne_of_miss x r v f miss h = cc

-- After `prepare`, with a sort that permutes and sorts, a search returns the value of a matching
-- rule such that no matching rule of the classifier has a greater priority, or the invalid value
-- if no rule matches. Before `prepare`, once a rule was inserted, a search fails.
pub prepare-IsBest :
    (sort : Sort RuleSpec) (c : ListBasedClassifier) (v : List ℕ)
    → Sorts sort
    → ((best : RuleValueInt) × (search (prepare sort c) v ≡ some best) × IsBest c.rules v best)
      × ((r : RuleSpec) → search (insert r c) v ≡ none)
unfolding search prepare insert
prepare-IsBest sort c v s = (
  (
    search_rules (sort before c.rules) v,
    refl,
    elim (search_rules-IsBest (sort before c.rules) v (s.sorts c.rules)) [
      | inl (r, m, hit, e, best) ↦ inl (r, mem_sorted.0 m, hit, e, λ x n. best x (mem_sorted.1 n))
      | inr (e, none_match) ↦ inr (e, λ x n. none_match x (mem_sorted.1 n))
    ],
  ),
  λ r. refl,
)
  where
    mem_sorted : {x : RuleSpec} → Mem x (sort before c.rules) ↔ Mem x c.rules
    mem_sorted = Perm.mem_iff (s.permutes c.rules)
