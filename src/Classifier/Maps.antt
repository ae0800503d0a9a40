-- ===== src/Classifier/Maps.antt =====
-- The hash tables of the classifier, as association lists, with the equalities of
-- include/pcv/common/array_hasher.h and include/pcv/common/rulespec_hasher.h.
use pclass_vectorized.Prelude.{
  ℕ, ◌+◌, ◌-◌, Bool, true, false, ◌&&◌, Option, none, some, List, [], ◌∷◌, ◌==◌, if◌then◌else◌,
}
use pclass_vectorized.Range.{Range1d, eq_range}
use pclass_vectorized.BTree.{RuleSpec}

-- `array_eq`
unfoldable pub array_eq : List ℕ → List ℕ → Bool
array_eq [] b = true
array_eq (v ∷ a) [] = false
array_eq (v ∷ a) (w ∷ b) = (v == w) && array_eq a b

abbrev ranges_eq : List Range1d → List Range1d → Bool
ranges_eq [] b = true
ranges_eq (v ∷ a) [] = false
ranges_eq (v ∷ a) (w ∷ b) = eq_range v w && ranges_eq a b

-- `rule_spec_t_eq`
unfoldable pub rule_spec_eq : RuleSpec → RuleSpec → Bool
rule_spec_eq a b =
    (a.value.rule_id == b.value.rule_id)
    && (a.value.priority == b.value.priority)
    && ranges_eq a.ranges b.ranges

module _ {K V : Type 0} (eq : K → K → Bool) where
  unfoldable pub find : K → List (K × V) → Option V
  find k [] = none
  find k ((j, v) ∷ m) = if eq j k then some v else find k m

  -- `m[k] = v`
  unfoldable pub assign : K → V → List (K × V) → List (K × V)
  assign k v [] = (k, v) ∷ []
  assign k v ((j, w) ∷ m) = if eq j k then (j, v) ∷ m else (j, w) ∷ assign k v m

  unfoldable pub erase : K → List (K × V) → List (K × V)
  erase k [] = []
  erase k ((j, w) ∷ m) = if eq j k then m else (j, w) ∷ erase k m

abbrev pub Masks : Type 0
Masks = List (List ℕ × ℕ)

-- `used_rule_mask_incr`
unfoldable pub used_rule_mask_incr : List ℕ → Masks → Masks
unfolding find assign array_eq
used_rule_mask_incr m masks = elim (find array_eq m masks) [
  | none ↦ assign array_eq m 1 masks
  | some n ↦ assign array_eq m (n + 1) masks
]

-- `used_rule_mask_decr`; with no entry the source writes through the end iterator.
unfoldable pub used_rule_mask_decr : List ℕ → Masks → Option Masks
unfolding find assign erase array_eq
used_rule_mask_decr m masks = elim (find array_eq m masks) [
  | none ↦ none
  | some n ↦ some (if n - 1 == 0 then erase array_eq m masks else assign array_eq m (n - 1) masks)
]
