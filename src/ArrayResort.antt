-- ===== src/ArrayResort.antt =====
-- include/pcv/common/array_resorter.h: `array_resort`, which moves the one item of a sorted array whose
-- key has changed. (`assert_all_items_unique` is compiled out with NDEBUG.)
pub mod Sorted
use pclass_vectorized.Prelude.{ℕ, zero, suc, ◌+◌, ◌-◌, ◌&&◌, not, ltb, ◌==◌, if◌then◌else◌, update}

module _ {A : Type 0} (key : A → ℕ) where
  -- The first loop: from place i to the left over the items with a lower key.
  unfoldable pub find_left : (ℕ → A) → ℕ → ℕ → ℕ
  find_left arr p zero = zero
  find_left arr p (suc i) =
      let further = find_left arr p i in if ltb (key (arr i)) p then further else suc i

  -- The third loop: from place i to the right over the items with a greater key, `rounds` at most.
  unfoldable pub find_right : (ℕ → A) → ℕ → ℕ → ℕ → ℕ
  find_right arr p zero i = i
  find_right arr p (suc rounds) i =
      let further = find_right arr p rounds (i + 1) in
      if ltb p (key (arr (i + 1))) then further else i

-- `for (i2 = i + count; i2 > i; i2--) arr[i2] = arr[i2 - 1]`
unfoldable pub shift_right : {A : Type 0} → ℕ → ℕ → (ℕ → A) → ℕ → A
shift_right zero i arr = arr
shift_right (suc count) i arr = shift_right count i (update arr (i + count + 1) (arr (i + count)))

-- `for (i2 = i; i2 < i + count; i2++) arr[i2] = arr[i2 + 1]`
unfoldable pub shift_left : {A : Type 0} → ℕ → ℕ → (ℕ → A) → ℕ → A
shift_left zero i arr = arr
shift_left (suc count) i arr = shift_left count (i + 1) (update arr i (arr (i + 1)))

unfoldable pub array_resort : {A : Type 0} → (A → ℕ) → (ℕ → A) → ℕ → ℕ → ℕ → A
unfolding find_left find_right shift_right shift_left
array_resort key arr actual_size changed =
    if actual_size == 1
    then arr
    else let tmp = arr changed in
      let i = find_left key arr (key tmp) changed in
      let j = find_right key arr (key tmp) (actual_size - 1 - changed) changed in
      if ltb 0 changed && not (i == changed)
      then update (shift_right (changed - i) i arr) i tmp
      else if ltb changed (actual_size - 1) && not (j == changed)
      then update (shift_left (j - changed) changed arr) j tmp
      else arr
