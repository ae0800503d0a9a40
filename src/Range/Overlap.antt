-- ===== src/Range/Overlap.antt =====
-- What `Range1d::overlaps` decides, against the ranges as sets of values.
use pclass_vectorized.Prelude.{ℕ, ◌≤◌, ◌<◌, ◌≡◌, ◌↔◌, ◌⊎◌, inl, inr, true, arith, ◌&&◌, leb}
use pclass_vectorized.Range.{Range1d, overlaps, in_range}

abbrev pub IsRange : Range1d → Type 0
IsRange r = r.low ≤ r.high

-- Some value lies in both ranges.
abbrev pub Shares : Range1d → Range1d → Type 0
Shares a b = (x : ℕ) × (in_range a x ≡ true) × (in_range b x ≡ true)

-- `b` begins below `a` and ends inside it.
abbrev pub EntersFromBelow : Range1d → Range1d → Type 0
EntersFromBelow a b = (b.low < a.low) × (a.low ≤ b.high) × (b.high < a.high)

Shares-of_overlaps : (a b : Range1d) → IsRange a → IsRange b → overlaps a b ≡ true → Shares a b
unfolding overlaps
Shares-of_overlaps a b ha hb h = elim split [
  | inl p ↦ (b.low, ground arith, ground arith)
  | inr p ↦ (a.low, ground arith, ground arith)
]
  where
    split :
        ((leb a.low b.low && leb b.low a.high) ≡ true)
        ⊎ ((leb b.low a.low && leb a.high b.high) ≡ true)
    split = ground arith

-- On ranges with low ≤ high, `overlaps` answers with true exactly if the ranges share a value and the
-- second one does not begin below the first one and end inside it: of that one kind of overlap it says
-- that there is none.
pub overlaps-Shares :
    (a b : Range1d)
    → IsRange a
    → IsRange b
    → (overlaps a b ≡ true) ↔ (Shares a b × ¬ (EntersFromBelow a b))
unfolding overlaps
overlaps-Shares a b ha hb = (
  λ h. (Shares-of_overlaps a b ha hb h, λ e. ground arith),
  λ ((x, p, q), not_from_below). ground arith,
)
