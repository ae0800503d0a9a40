-- ===== src/Mempool/Slots.antt =====
-- include/pcv/partition_sort/mempool.h and mempool_dynamic.h: lists of slots, and the slots of a new
-- pool in the order of its free list.
use pclass_vectorized.Prelude.{
  ℕ, zero, suc, ◌+◌, ◌<◌, ◌≤◌, ◌≡◌, refl, Bool, false, ◌||◌, List, [], ◌∷◌, arith, ap, ltb, ◌==◌,
  if◌then◌else◌, length,
}

abbrev pub has : ℕ → List ℕ → Bool
has i [] = false
has i (x ∷ xs) = (i == x) || has i xs

-- The links of a new pool: slot k leads through k, ..., n - 1.
unfoldable pub slots : ℕ → ℕ → List ℕ
slots zero k = []
slots (suc n) k = k ∷ slots n (k + 1)

pub has-slots : (i n k : ℕ) → i < k → has i (slots n k) ≡ false
unfolding slots
has-slots i zero k h = refl
has-slots i (suc n) k h = ground (arith, has-slots i n (k + 1))

pub slots-has : (i n k : ℕ) → has i (slots n k) ≡ false → k ≤ i → k + n ≤ i
unfolding slots
slots-has i zero k h le = omega arith
slots-has i (suc n) k h le = ground (arith, slots-has i n (k + 1))

pub length-slots : (n k : ℕ) → length (slots n k) ≡ n
unfolding slots
length-slots zero k = refl
length-slots (suc n) k = ap suc (length-slots n (k + 1))

-- The number of slots below n that the list has.
abbrev covered : List ℕ → ℕ → ℕ
covered l zero = 0
covered l (suc n) = (if has n l then 1 else 0) + covered l n

covered_nil : (n : ℕ) → covered [] n ≡ 0
covered_nil zero = refl
covered_nil (suc n) = omega (arith, covered_nil n)

covered_cons :
    (i : ℕ) (l : List ℕ) (n : ℕ)
    → has i l ≡ false
    → covered (i ∷ l) n ≡ covered l n + (if ltb i n then 1 else 0)
covered_cons i l zero h = ground arith
covered_cons i l (suc n) h = ground (arith, covered_cons i l n h)

covered_le : (l : List ℕ) (n : ℕ) → covered l n ≤ n
covered_le l zero = omega arith
covered_le l (suc n) = ground (arith, covered_le l n)

-- The list has no slot twice and all its slots are below n.
abbrev pub AreSlots : ℕ → List ℕ → Type 0
AreSlots n [] = Unit
AreSlots n (i ∷ l) = (i < n) × (has i l ≡ false) × AreSlots n l

length-covered : (l : List ℕ) (n : ℕ) → AreSlots n l → length l ≡ covered l n
length-covered [] n h = ground (arith, covered_nil n)
length-covered (i ∷ l) n (b, out, h) = ground (arith, covered_cons i l n out, length-covered l n h)

pub length-AreSlots : (l : List ℕ) (n : ℕ) → AreSlots n l → length l ≤ n
length-AreSlots l n h = omega (arith, length-covered l n h, covered_le l n)
