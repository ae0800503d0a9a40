-- ===== src/Scheduling.antt =====
-- include/pcv/partition_sort/weighted_interval_scheduling_solver.h: how many of the intervals can be
-- scheduled without conflict, equal intervals counted together (`WeightedIntervalSchedulingSolver`).
-- `std::sort` is a parameter.
pub mod Chains
use pclass_vectorized.Prelude.{
  ℕ, zero, suc, ◌+◌, ◌-◌, ◌≡◌, Bool, ◌&&◌, ◌||◌, Option, none, some, List, [], ◌∷◌, ltb, leb, ◌==◌,
  if◌then◌else◌, update, length, get_or,
}
use pclass_vectorized.Range.{Range1d, range, eq_range}

-- `intervalComparataor`
abbrev pub interval_comparator : Range1d → Range1d → Bool
interval_comparator s1 s2 = ltb s1.high s2.high

-- The test of `latestNonConflict` for the intervals j and i.
abbrev pub follows : (ℕ → Range1d) → ℕ → ℕ → Bool
follows intervals j i =
    leb (intervals j).high (intervals i).low || eq_range (intervals j) (intervals i)

-- `latestNonConflict(i)`, from `count - 1` down; `none` is -1.
unfoldable pub latest_non_conflict : (ℕ → Range1d) → ℕ → ℕ → Option ℕ
latest_non_conflict intervals i zero = none
latest_non_conflict intervals i (suc j) =
    let earlier = latest_non_conflict intervals i j in
    if follows intervals j i then some j else earlier

unfoldable pub get_weight : (ℕ → Range1d) → ℕ → ℕ
get_weight intervals i = if ltb 0 i && eq_range (intervals (i - 1)) (intervals i) then 2 else 1

-- `table[i]` from the entries before it
unfoldable pub entry : (ℕ → Range1d) → (ℕ → ℕ) → ℕ → ℕ
unfolding get_weight latest_non_conflict
entry intervals table i =
    let incl_prof =
      get_weight intervals i
      + elim (latest_non_conflict intervals i i) [ none ↦ 0 | some l ↦ table l ] in
    if ltb incl_prof (table (i - 1)) then table (i - 1) else incl_prof

-- The loop that fills the table from index i on, `count` entries.
unfoldable pub fill_table : (ℕ → Range1d) → ℕ → ℕ → (ℕ → ℕ) → ℕ → ℕ
unfolding entry
fill_table intervals zero i table = table
fill_table intervals (suc count) i table =
    fill_table intervals count (i + 1) (update table i (entry intervals table i))

-- `findMaxWeightIntervalSequence` of n sorted intervals; the table is not initialised (it is 0 here,
-- and no entry is read before it is written). With no interval it reads outside of the table.
unfoldable pub max_weight : (ℕ → Range1d) → ℕ → Option ℕ
unfolding fill_table get_weight
max_weight intervals zero = none
max_weight intervals (suc n) =
    some (fill_table intervals n 1 (update (λ _. 0) 0 (get_weight intervals 0)) n)

-- `findMaxWeightIntervalSequence`
unfoldable pub find_max_weight_interval_sequence :
    ((Range1d → Range1d → Bool) → List Range1d → List Range1d) → List Range1d → Option ℕ
unfolding max_weight
find_max_weight_interval_sequence sort l =
    let sorted = sort interval_comparator l in
    max_weight (λ i. get_or sorted i (range 0 0)) (length sorted)
