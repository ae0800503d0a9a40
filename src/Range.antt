-- ===== src/Range.antt =====
-- include/pcv/common/range.h: closed ranges of unsigned integers (`Range1d<T>`).
pub mod Overlap
pub mod Mask
pub mod Prefix
pub mod CommonPrefix
pub mod PrefixLength
use pclass_vectorized.Prelude.{ℕ, ◌-◌, ◌^◌, Bool, ◌&&◌, ◌||◌, not, ltb, leb, ◌==◌}

-- `Range1d<T>`; a `T` of w bits is a number below 2 ^ w.
pub record Range1d : Type 0 where
  pub low : ℕ
  pub high : ℕ

abbrev pub range : ℕ → ℕ → Range1d
range a b = record { low = a; high = b }

-- `operator<(const Range1d&)`: by the lower bound alone.
abbrev pub lt_range : Range1d → Range1d → Bool
lt_range a b = ltb a.low b.low

-- `operator>(const Range1d&)`
abbrev pub gt_range : Range1d → Range1d → Bool
gt_range a b = ltb b.low a.low

-- `operator==`
abbrev pub eq_range : Range1d → Range1d → Bool
eq_range a b = (a.low == b.low) && (a.high == b.high)

-- `operator!=`
abbrev pub ne_range : Range1d → Range1d → Bool
ne_range a b = not (a.low == b.low) || not (a.high == b.high)

unfoldable pub overlaps : Range1d → Range1d → Bool
overlaps a b = (leb a.low b.low && leb b.low a.high) || (leb b.low a.low && leb a.high b.high)

abbrev pub in_range : Range1d → ℕ → Bool
in_range r val = leb r.low val && leb val r.high

-- `std::numeric_limits<T>::max()` for a `T` of w bits
abbrev pub max_value : ℕ → ℕ
max_value w = 2 ^ w - 1

abbrev pub is_wildcard : ℕ → Range1d → Bool
is_wildcard w r = (r.low == 0) && (r.high == max_value w)

-- `set_wildcard` leaves this range.
abbrev pub wildcard : ℕ → Range1d
wildcard w = range 0 (max_value w)
