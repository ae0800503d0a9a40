-- ===== src/Tests/InsertionSort.antt =====
-- A sort that does what the code relies on of `std::sort`.
use mathlib.Core.List.{Perm}
use mathlib.Core.List.Perm
use pclass_vectorized.Prelude.{
  ◌≡◌, inl, inr, Bool, true, false, List, [], ◌∷◌, arith, if◌then◌else◌, Bool-cases, All,
}
use pclass_vectorized.BTree.{RuleSpec}
use pclass_vectorized.ListClassifier.{before}
use pclass_vectorized.ListClassifier.Best.{IsSorted, Sorts}
use pclass_vectorized.RuleReader.Classbench.{ParsedRule}
use pclass_vectorized.RuleReader.Files.{more_specific}
use pclass_vectorized.RuleReader.Files.Order
use pclass_vectorized.DimensionOrder.{Sort}
use pclass_vectorized.DimensionOrder.Permutes.{Permutes}

abbrev insert_sorted : {A : Type 0} → (A → A → Bool) → A → List A → List A
insert_sorted lt x [] = x ∷ []
insert_sorted lt x (y ∷ ys) = if lt y x then y ∷ insert_sorted lt x ys else x ∷ y ∷ ys

abbrev pub insertion_sort : {A : Type 0} → Sort A
insertion_sort lt [] = []
insertion_sort lt (x ∷ xs) = insert_sorted lt x (insertion_sort lt xs)

insert_sorted-perm :
    {A : Type 0} (lt : A → A → Bool) (x : A) (ys : List A) → Perm (insert_sorted lt x ys) (x ∷ ys)
insert_sorted-perm lt x [] = Perm.refl _
insert_sorted-perm lt x (y ∷ ys) = elim (Bool-cases (lt y x)) [
  | inl after ↦ rw after (Perm.trans (Perm.cons y (insert_sorted-perm lt x ys)) (Perm.swap x y ys))
  | inr first ↦ rw first (Perm.refl _)
]

pub insertion_sort-Permutes : {A : Type 0} → Permutes {A = A} insertion_sort
insertion_sort-Permutes lt [] = Perm.refl []
insertion_sort-Permutes lt (x ∷ xs) =
    Perm.trans (insert_sorted-perm lt x (insertion_sort lt xs))
      (Perm.cons x (insertion_sort-Permutes lt xs))

-- No element stands behind one that should stand behind it.
abbrev InOrder : {A : Type 0} → (A → A → Bool) → List A → Type 0
InOrder lt [] = Unit
InOrder lt (x ∷ xs) = All (λ y. lt y x ≡ false) xs × InOrder lt xs

-- Sorting by a strict weak order.
module _ {A : Type 0} (lt : A → A → Bool)
    (weak : (x y z : A) → lt y x ≡ false → lt z y ≡ false → lt z x ≡ false)
    (asym : (x y : A) → lt x y ≡ true → lt y x ≡ false) where
  All-insert_sorted :
      (P : A → Type 0) (x : A) (ys : List A) → P x → All P ys → All P (insert_sorted lt x ys)
  All-insert_sorted P x [] px pys = (px, tt)
  All-insert_sorted P x (y ∷ ys) px (py, pys) = elim (Bool-cases (lt y x)) [
    | inl after ↦ rw after (py, All-insert_sorted P x ys px pys)
    | inr first ↦ rw first (px, (py, pys))
  ]

  All-weaken :
      (x y : A) (ys : List A)
      → lt y x ≡ false
      → All (λ z. lt z y ≡ false) ys
      → All (λ z. lt z x ≡ false) ys
  All-weaken x y [] le all = tt
  All-weaken x y (z ∷ zs) le (h, all) = (weak x y z le h, All-weaken x y zs le all)

  insert_sorted-InOrder : (x : A) (ys : List A) → InOrder lt ys → InOrder lt (insert_sorted lt x ys)
  insert_sorted-InOrder x [] sorted = (tt, tt)
  insert_sorted-InOrder x (y ∷ ys) (all, sorted) = elim (Bool-cases (lt y x)) [
    | inl after ↦ rw after (
      All-insert_sorted (λ z. lt z y ≡ false) x ys (asym y x after) all,
      insert_sorted-InOrder x ys sorted,
    )
    | inr first ↦ rw first ((first, All-weaken x y ys first all), (all, sorted))
  ]

  insertion_sort-InOrder : (l : List A) → InOrder lt (insertion_sort lt l)
  insertion_sort-InOrder [] = tt
  insertion_sort-InOrder (x ∷ xs) =
      insert_sorted-InOrder x (insertion_sort lt xs) (insertion_sort-InOrder xs)

before-InOrder : (l : List RuleSpec) → InOrder before l → IsSorted l
before-InOrder [] order = tt
before-InOrder (x ∷ xs) (all, order) = (all, before-InOrder xs order)

pub insertion_sort-Sorts : Sorts insertion_sort
insertion_sort-Sorts = record {
  permutes = insertion_sort-Permutes before;
  sorts = λ l. before-InOrder (insertion_sort before l) (
      insertion_sort-InOrder before (λ x y z a b. ground (arith, a, b)) (λ x y a. ground (arith, a))
        l);
}

more_specific-InOrder : (l : List ParsedRule) → InOrder more_specific l → Order.IsSorted l
more_specific-InOrder [] order = tt
more_specific-InOrder (x ∷ xs) (all, order) = (all, more_specific-InOrder xs order)

pub insertion_sort-SortsParsed : Order.Sorts insertion_sort
insertion_sort-SortsParsed = record {
  permutes = insertion_sort-Permutes more_specific;
  sorts = λ l. more_specific-InOrder (insertion_sort more_specific l) (
      insertion_sort-InOrder more_specific (λ x y z a b. ground (arith, a, b))
        (λ x y a. ground (arith, a)) l);
}
