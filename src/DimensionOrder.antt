-- ===== src/DimensionOrder.antt =====
-- include/pcv/partition_sort/dimension_order_resolver.h: in which order a tree looks at the fields of
-- its rules (`GreedyDimensionOrderResolver`). `std::sort` is a parameter, for each type that is sorted.
pub mod Permutes
use pclass_vectorized.Prelude.{
  ℕ, zero, suc, ◌+◌, Bool, true, false, ◌||◌, not, Option, none, some, List, [], ◌∷◌, ◌++◌, map,
  ltb, ◌==◌, if◌then◌else◌, length,
}
use pclass_vectorized.Range.{Range1d, is_wildcard}
use pclass_vectorized.BTree.{RuleSpec, field}
use pclass_vectorized.Scheduling.{find_max_weight_interval_sequence}

-- `std::sort` with a comparator
abbrev pub Sort : Type 0 → Type 0
Sort A = (A → A → Bool) → List A → List A

-- `dim_mask[d]` after the first loop: some rule has a range in field d that is no wildcard.
unfoldable pub is_used : ℕ → List RuleSpec → ℕ → Bool
is_used key_bits [] d = false
is_used key_bits (r ∷ rs) d = not (is_wildcard key_bits (field r d)) || is_used key_bits rs d

-- The items with the test true, in their order: the loops that collect dimensions.
unfoldable pub keep : {A : Type 0} → (A → Bool) → List A → List A
keep p [] = []
keep p (x ∷ xs) = if p x then x ∷ keep p xs else keep p xs

-- i, i + 1, ..., `count` numbers
unfoldable pub dims_from : ℕ → ℕ → List ℕ
dims_from zero i = []
dims_from (suc count) i = i ∷ dims_from count (i + 1)

-- `std::find(oo.begin(), oo.end(), x)`, as an index
unfoldable pub find_index : List ℕ → ℕ → ℕ
find_index [] x = 0
find_index (y ∷ ys) x = if y == x then 0 else suc (find_index ys x)

-- The comparator: the greater score first, and the original order among equal scores.
unfoldable pub score_before : List ℕ → ℕ × ℕ → ℕ × ℕ → Bool
unfolding find_index
score_before original_order a b =
    if not (a.1 == b.1)
    then ltb b.1 a.1
    else ltb (find_index original_order a.0) (find_index original_order b.0)

unfoldable pub get_dimension_sel_score : Sort Range1d → List RuleSpec → ℕ → Option ℕ
unfolding find_max_weight_interval_sequence
get_dimension_sel_score sort rules d =
    find_max_weight_interval_sequence sort (map (λ r. field r d) rules)

-- The loop that pairs each pending dimension with its score.
unfoldable pub all_scores : (ℕ → Option ℕ) → List ℕ → Option (List (ℕ × ℕ))
all_scores score [] = some []
all_scores score (d ∷ ds) = elim (score d) [
  | none ↦ none
  | some s ↦ elim (all_scores score ds) [ none ↦ none | some rest ↦ some ((d, s) ∷ rest) ]
]

-- `resolve`: the new order, and the number of dimensions that the rules use.
unfoldable pub resolve :
    Sort Range1d → Sort (ℕ × ℕ) → ℕ → ℕ → List RuleSpec → List ℕ → Option (List ℕ × ℕ)
unfolding is_used keep dims_from score_before get_dimension_sel_score all_scores
resolve sort sort_scores key_bits dim_cnt rules original_order =
    let used = is_used key_bits rules in
    elim (all_scores (get_dimension_sel_score sort rules) (keep used (dims_from dim_cnt 0))) [
      | none ↦ none
      | some scores ↦
          let front = map (λ (s : ℕ × ℕ). s.0) (sort_scores (score_before original_order) scores) in
          some (front ++ keep (λ d. not (used d)) original_order, length front)
    ]
