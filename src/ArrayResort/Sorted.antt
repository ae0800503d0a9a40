-- ===== src/ArrayResort/Sorted.antt =====
-- include/pcv/common/array_resorter.h: `array_resort` and the order of the keys.
use pclass_vectorized.Prelude.{
  ℕ, zero, suc, ◌+◌, ◌-◌, ◌<◌, ◌≤◌, ◌≡◌, ◌≢◌, inl, inr, not, arith, ◌&&◌, ltb, leb, ◌==◌,
  if◌then◌else◌, update, Bool-cases,
}
use mathlib.Core.Path.{fun_ext, subst, sym}
use pclass_vectorized.ArrayResort.{find_left, find_right, shift_right, shift_left, array_resort}

-- The first `size` items stand in descending order of their keys.
abbrev pub IsSorted : {A : Type 0} → (A → ℕ) → (ℕ → A) → ℕ → Type 0
IsSorted key arr size = (i j : ℕ) → i < j → j < size → key (arr j) ≤ key (arr i)

-- The same, but for the item at one place.
abbrev pub IsSortedBut : {A : Type 0} → (A → ℕ) → (ℕ → A) → ℕ → ℕ → Type 0
IsSortedBut key arr size c =
    (i j : ℕ) → i < j → j < size → i ≢ c → j ≢ c → key (arr j) ≤ key (arr i)

-- The array in which the item at `from` is taken out and put in at `to`; the items between the two
-- places move by one, in the same order.
unfoldable pub moved : {A : Type 0} → (ℕ → A) → ℕ → ℕ → ℕ → A
moved arr from to k =
    if k == to
    then arr from
    else if leb from k && ltb k to
    then arr (k + 1)
    else if ltb to k && leb k from
    then arr (k - 1)
    else arr k

module _ {A : Type 0} where
  shift_right_lem :
      (count i : ℕ) (arr : ℕ → A) (k : ℕ)
      → shift_right count i arr k ≡ (if ltb i k && leb k (i + count) then arr (k - 1) else arr k)
  unfolding shift_right
  shift_right_lem zero i arr k = ground arith
  shift_right_lem (suc count) i arr k =
      ground (arith, shift_right_lem count i (update arr (i + count + 1) (arr (i + count))) k)

  shift_left_lem :
      (count i : ℕ) (arr : ℕ → A) (k : ℕ)
      → shift_left count i arr k ≡ (if leb i k && ltb k (i + count) then arr (k + 1) else arr k)
  unfolding shift_left
  shift_left_lem zero i arr k = ground arith
  shift_left_lem (suc count) i arr k =
      ground (arith, shift_left_lem count (i + 1) (update arr i (arr (i + 1))) k)

-- Where the search to the left stops.
record StopsLeft {A : Type 0} (key : A → ℕ) (arr : ℕ → A) (p c i : ℕ) : Type 0 where
  bound : i ≤ c
  passed : (k : ℕ) → i ≤ k → k < c → key (arr k) < p
  stop : (k : ℕ) → k + 1 ≡ i → p ≤ key (arr k)

record StopsRight {A : Type 0} (key : A → ℕ) (arr : ℕ → A) (p c top j : ℕ) : Type 0 where
  low : c ≤ j
  high : j ≤ top
  passed : (k : ℕ) → c < k → k ≤ j → p < key (arr k)
  stop : j < top → key (arr (j + 1)) ≤ p

module _ {A : Type 0} (key : A → ℕ) (arr : ℕ → A) (p : ℕ) where
  find_left_lem : (c : ℕ) → StopsLeft key arr p c (find_left key arr p c)
  unfolding find_left
  find_left_lem zero = record {
    bound = omega arith;
    passed = λ k h l. absurd (omega arith);
    stop = λ k e. absurd (omega arith);
  }
  find_left_lem (suc i) = elim (Bool-cases (ltb (key (arr i)) p)) [
    | inl lower ↦ rw lower (record {
      bound = omega (arith, (find_left_lem i).bound);
      passed = λ k h l. elim (Bool-cases (k == i)) [
        | inl e ↦ ground arith
        | inr e ↦ (find_left_lem i).passed k h (ground arith)
      ];
      stop = (find_left_lem i).stop;
    })
    | inr higher ↦ rw higher (record {
      bound = omega arith;
      passed = λ k h l. absurd (omega arith);
      stop = λ k e. ground arith;
    })
  ]

  find_right_lem :
      (rounds c : ℕ) → StopsRight key arr p c (c + rounds) (find_right key arr p rounds c)
  unfolding find_right
  find_right_lem zero c = record {
    low = omega arith;
    high = omega arith;
    passed = λ k h l. absurd (omega arith);
    stop = λ h. absurd (omega arith);
  }
  find_right_lem (suc rounds) c =
      let ih = find_right_lem rounds (c + 1) in
      elim (Bool-cases (ltb p (key (arr (c + 1))))) [
        | inl greater ↦ rw greater (record {
          low = omega (arith, ih.low);
          high = omega (arith, ih.high);
          passed = λ k h l. elim (Bool-cases (k == c + 1)) [
            | inl e ↦ ground arith
            | inr e ↦ ih.passed k (ground arith) l
          ];
          stop = λ h. ih.stop (omega arith);
        })
        | inr lower ↦ rw lower (record {
          low = omega arith;
          high = omega arith;
          passed = λ k h l. absurd (omega arith);
          stop = λ h. ground arith;
        })
      ]

module _ {A : Type 0} (key : A → ℕ) (arr : ℕ → A) (size c to : ℕ)
    (sorted : IsSortedBut key arr size c) where
  -- Everything in front of the new place has at least the key of the moved item, everything behind
  -- it at most that key.
  moved_left-IsSorted :
      to ≤ c
      → c < size
      → ((k : ℕ) → k < to → key (arr c) ≤ key (arr k))
      → ((k : ℕ) → to ≤ k → k < size → k ≢ c → key (arr k) ≤ key (arr c))
      → IsSorted key (moved arr c to) size
  unfolding moved
  moved_left-IsSorted le inside front behind i j lt l = ground (
    arith,
    sorted i j,
    sorted i (j - 1),
    sorted (i - 1) (j - 1),
    sorted (i - 1) j,
    front i,
    behind j,
    behind (j - 1),
  )

  moved_right-IsSorted :
      c ≤ to
      → to < size
      → ((k : ℕ) → k ≤ to → k ≢ c → key (arr c) ≤ key (arr k))
      → ((k : ℕ) → to < k → k < size → key (arr k) ≤ key (arr c))
      → IsSorted key (moved arr c to) size
  unfolding moved
  moved_right-IsSorted le inside front behind i j lt l = ground (
    arith,
    sorted i j,
    sorted i (j + 1),
    sorted (i + 1) (j + 1),
    sorted (i + 1) j,
    front i,
    front (i + 1),
    behind j,
  )

module _ {A : Type 0} (key : A → ℕ) (arr : ℕ → A) (size c : ℕ) (sorted : IsSortedBut key arr size c)
    (inside : c < size) where
  -- What the theorem says of the outcome.
  abbrev Resorted : (ℕ → A) → Type 0
  Resorted out =
      (to : ℕ) × (to < size) × ((k : ℕ) → out k ≡ moved arr c to k) × IsSorted key out size

  stays :
      ((k : ℕ)
        → k ≢ c
        → k < size
        → (k < c → key (arr c) ≤ key (arr k)) × (c < k → key (arr k) ≤ key (arr c)))
      → Resorted arr
  unfolding moved
  stays fits =
      (c, inside, (λ k. ground arith), λ i j lt l. ground (arith, sorted i j lt l, fits i, fits j))

  in_front :
      (i : ℕ) → StopsLeft key arr (key (arr c)) c i → (k : ℕ) → k < i → key (arr c) ≤ key (arr k)
  in_front i l k h = elim (Bool-cases (k + 1 == i)) [
    | inl e ↦ l.stop k (ground arith)
    | inr e ↦
        let last = l.stop (i - 1) (ground arith) in
        let apart = sorted k (i - 1) in let b = l.bound in ground (arith, last, apart, b)
  ]

  behind_right :
      (j : ℕ)
      → StopsRight key arr (key (arr c)) c (size - 1) j
      → (k : ℕ) → j < k
      → k < size
      → key (arr k) ≤ key (arr c)
  behind_right j r k h l = elim (Bool-cases (k == j + 1)) [
    | inl e ↦ ground (arith, r.stop (ground arith))
    | inr e ↦
        let last = r.stop (omega arith) in
        let apart = sorted (j + 1) k in let b = r.low in ground (arith, last, apart, b)
  ]

  to_left :
      (i : ℕ)
      → StopsLeft key arr (key (arr c)) c i
      → i ≢ c
      → Resorted (update (shift_right (c - i) i arr) i (arr c))
  to_left i l ne =
      let b = l.bound in
      let same : (k : ℕ) → update (shift_right (c - i) i arr) i (arr c) k ≡ moved arr c i k =
        λ k. unfold moved in ground (arith, shift_right_lem (c - i) i arr k) in
      (
        i,
        omega arith,
        same,
        subst (λ f. IsSorted key f size) (sym (fun_ext same))
            (moved_left-IsSorted key arr size c i sorted b inside (in_front i l)
              λ k h lt n. ground (arith, l.passed k, l.passed i, sorted i k)),
      )

  to_right :
      (i j : ℕ)
      → StopsLeft key arr (key (arr c)) c i
      → i ≡ c
      → StopsRight key arr (key (arr c)) c (size - 1) j
      → Resorted (update (shift_left (j - c) c arr) j (arr c))
  to_right i j l e r =
      let b = r.low in
      let t = r.high in
      let same : (k : ℕ) → update (shift_left (j - c) c arr) j (arr c) k ≡ moved arr c j k =
        λ k. unfold moved in ground (arith, shift_left_lem (j - c) c arr k) in
      (
        j,
        omega arith,
        same,
        subst (λ f. IsSorted key f size) (sym (fun_ext same))
            (moved_right-IsSorted key arr size c j sorted b (omega arith)
              (λ k h n. ground (arith, r.passed k, in_front i l k)) (behind_right j r)),
      )

-- On an array that is sorted but for one item, `array_resort` ends with a sorted array, and the
-- result is the old array with that item moved to some place and the others in their old order.
pub array_resort-IsSorted :
    {A : Type 0} (key : A → ℕ) (arr : ℕ → A) (size changed : ℕ)
    → IsSortedBut key arr size changed
    → changed < size
    → (to : ℕ) × (to < size)
      × ((k : ℕ) → array_resort key arr size changed k ≡ moved arr changed to k)
      × IsSorted key (array_resort key arr size changed) size
array_resort-IsSorted key arr size c sorted inside =
    unfold array_resort in
    elim (Bool-cases (size == 1)) [
      | inl one ↦ rw one (stays key arr size c sorted inside λ k n h. absurd (ground arith))
      | inr more ↦ rw more (elim (Bool-cases (ltb 0 c && not (i == c))) [
        | inl left ↦ rw left (to_left key arr size c sorted inside i l (ground arith))
        | inr not_left ↦ rw not_left (elim (Bool-cases (ltb c (size - 1) && not (j == c))) [
          | inl right ↦ rw right (to_right key arr size c sorted inside i j l (ground arith) r)
          | inr not_right ↦ rw not_right (
              stays key arr size c sorted inside λ k n h. (
                λ lt. in_front key arr size c sorted inside i l k (ground arith),
                λ lt. behind_right key arr size c sorted inside j r k (ground arith) h,
              ))
        ])
      ])
    ]
  where
    i : ℕ
    i = find_left key arr (key (arr c)) c

    j : ℕ
    j = find_right key arr (key (arr c)) (size - 1 - c) c

    l : StopsLeft key arr (key (arr c)) c i
    l = find_left_lem key arr (key (arr c)) c

    r : StopsRight key arr (key (arr c)) c (size - 1) j
    r =
        let e : c + (size - 1 - c) ≡ size - 1 = omega arith in
        rw e at (find_right_lem key arr (key (arr c)) (size - 1 - c) c)
