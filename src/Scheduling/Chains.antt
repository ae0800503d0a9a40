-- ===== src/Scheduling/Chains.antt =====
-- include/pcv/partition_sort/weighted_interval_scheduling_solver.h: the table of the solver, against
-- the schedules of intervals.
use pclass_vectorized.Prelude.{
  ℕ, suc, ◌+◌, ◌<◌, ◌≤◌, ◌≡◌, refl, true, false, Option, none, some, update,
}
use pclass_vectorized.Range.{Range1d, eq_range}
use pclass_vectorized.Scheduling.{follows, get_weight, fill_table, max_weight}

-- Intervals of increasing index, each one of which follows the one before it, ending with interval i;
-- and the sum of their weights.
pub data Chain (intervals : ℕ → Range1d) : ℕ → ℕ → Type 0 where
  start : (i w : ℕ) → w ≡ get_weight intervals i → Chain intervals i w
  extend :
      (i w j v : ℕ)
      → Chain intervals j v
      → j < i
      → follows intervals j i ≡ true
      → w ≡ v + get_weight intervals i
      → Chain intervals i w

-- What `latestNonConflict` returns.
Latest : (ℕ → Range1d) → ℕ → ℕ → Option ℕ → Type 0
Latest intervals i count none = (j : ℕ) → j < count → follows intervals j i ≡ false
Latest intervals i count (some l) =
    (l < count)
    × (follows intervals l i ≡ true)
    × ((j : ℕ) → l < j → j < count → follows intervals j i ≡ false)

-- No chain that ends at an interval up to k is worth more.
abbrev pub IsUpper : (ℕ → Range1d) → ℕ → ℕ → Type 0
IsUpper intervals k best = (j w : ℕ) → j ≤ k → Chain intervals j w → w ≤ best

-- Some chain that ends at an interval up to k has this weight.
abbrev pub IsReached : (ℕ → Range1d) → ℕ → ℕ → Type 0
IsReached intervals k best = (last : ℕ) × (last ≤ k) × Chain intervals last best

-- The first n + 1 intervals stand in the order of their ends, and no two of them are equal.
abbrev pub IsStrict : (ℕ → Range1d) → ℕ → Type 0
IsStrict intervals n =
    (j i : ℕ)
    → j < i
    → i ≤ n
    → ((intervals j).high ≤ (intervals i).high) × (eq_range (intervals j) (intervals i) ≡ false)

module _ (intervals : ℕ → Range1d) (table : ℕ → ℕ) where
  -- The profit with interval i, for what `latestNonConflict` returned.
  abbrev incl : ℕ → Option ℕ → ℕ
  incl i none = get_weight intervals i + 0
  incl i (some l) = get_weight intervals i + table l

-- For one interval or more the solver returns a number.
pub max_weight_defined :
    (intervals : ℕ → Range1d) (n : ℕ) → (best : ℕ) × (max_weight intervals (suc n) ≡ some best)
unfolding max_weight
max_weight_defined intervals n =
    (fill_table intervals n 1 (update (λ _. 0) 0 (get_weight intervals 0)) n, refl)

-- A schedule of n of the intervals, of increasing index, the last one of which is interval i: each
-- interval begins where the one before it ends, or later.
pub data Schedule (intervals : ℕ → Range1d) : ℕ → ℕ → Type 0 where
  only : (i : ℕ) → Schedule intervals i 1
  then_add :
      (i n j : ℕ)
      → Schedule intervals j n
      → j < i
      → (intervals j).high ≤ (intervals i).low
      → Schedule intervals i (n + 1)
