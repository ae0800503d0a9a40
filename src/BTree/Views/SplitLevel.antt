-- ===== src/BTree/Views/SplitLevel.antt =====
-- include/pcv/partition_sort/b_tree_insert.h: a level after the split of a node, from the two halves of
-- the node and the node above them.
use pclass_vectorized.Prelude.{
  ℕ, suc, ◌+◌, ◌-◌, ◌<◌, ◌≤◌, ◌≡◌, ◌≢◌, ◌⊎◌, refl, sym, ap, ◌∙◌, subst, inl, inr, false, Option,
  some, arith, ltb, ◌==◌, Bool-cases,
}
use pclass_vectorized.BTree.{Ptr, KeyInfo}
use pclass_vectorized.BTree.Views.{View, Views}
use pclass_vectorized.BTree.Views.Split.{linked}
use pclass_vectorized.BTree.Views.Linked.{
  key_middle, key_before, key_behind, child_before, child_new, child_behind, Between-linked,
  KeysSorted-linked,
}
use pclass_vectorized.BTree.Views.Levels.{
  Has, own, child_has, Has-cases, Has-Agree, Agree, Agree-sym, Between, IsOrdered, IsOrdered-Agree,
}

module _ (m m' : Views) (h i : ℕ) (node y z : Ptr) (middle : KeyInfo) (le : i ≤ (m node).cnt)
    (inner : (m node).leaf ≡ false) (at_child : (m node).link i ≡ some y)
    (at_node : m' node ≡ linked middle i z (m node))
    (agree : (j : ℕ) → j ≤ (m node).cnt → j ≢ i → Agree m m' ((m node).link j))
    (ordered : IsOrdered m (suc (suc h)) (some node)) (lower : IsOrdered m' (suc h) (some y))
    (upper : IsOrdered m' (suc h) (some z)) (has_middle : Has m (some y) middle)
    (full : middle.key.low ≤ middle.key.high)
    (has_lower : (k : KeyInfo)
      → Has m' (some y) k
      → Has m (some y) k × (k.key.high < middle.key.low))
    (has_upper : (k : KeyInfo)
      → Has m' (some z) k
      → Has m (some y) k × (middle.key.high < k.key.low))
    (has_halves : (k : KeyInfo)
      → Has m (some y) k
      → Has m' (some y) k ⊎ ((middle ≡ k) ⊎ Has m' (some z) k)) where
  abbrev v : View
  v = m node

  abbrev new : View
  new = linked middle i z v

  Between-y : Between m v (some y) i
  Between-y = subst (λ c. Between m v c i) at_child (ordered.2 inner i le).1

  -- What child j of the new node is to be.
  abbrev Child : ℕ → Option Ptr → Type 0
  Child j c = IsOrdered m' (suc h) c × Between m' new c j

  -- An old child at its old place or at the next one.
  old-Child :
      (j j' : ℕ)
      → j ≤ v.cnt
      → j ≢ i
      → ((j' ≡ j) × (j < i)) ⊎ ((j' ≡ j + 1) × (i < j))
      → Child j' (v.link j)
  old-Child j j' le' ne place =
      let (o, (low, high)) = ordered.2 inner j le' in
      let same = agree j le' ne in
      (
        IsOrdered-Agree m m' (suc h) (v.link j) same o,
        Between-linked middle i z v le m m' (v.link j) (v.link j) j j' le' (low, high)
            λ k has.
              let has' = Has-Agree m' m has (Agree-sym m m' (v.link j) same) in
              (
                has',
                elim place [
                  | inl (e, lt) ↦ inl (
                    e,
                    omega arith,
                    omega (
                      arith,
                      high k j has' (omega arith) (omega arith),
                      ordered.0.0 j (omega arith),
                      Between-y.0 middle j has_middle lt,
                    ),
                  )
                  | inr (e, lt) ↦ inr (
                    e,
                    omega arith,
                    omega (
                      arith,
                      low k i has' lt,
                      ordered.0.0 i (omega arith),
                      Between-y.1 middle i has_middle (omega arith) (omega arith),
                    ),
                  )
                ],
              ),
      )

  new-Child : (j : ℕ) → j ≤ v.cnt + 1 → Child j (new.link j)
  new-Child j le' = elim (Bool-cases (ltb j i)) [
    | inl first ↦
        rw (child_before middle i z v le j (ground arith))
          (old-Child j j (ground arith) (ground arith) (inl (refl, ground arith)))
    | inr late ↦ elim (Bool-cases (j == i)) [
      | inl at_i ↦
          let e : new.link j ≡ some y =
            child_before middle i z v le j (ground arith) ∙ ap v.link (ground arith) ∙ at_child in
          rw e (
            lower,
            Between-linked middle i z v le m m' (some y) (some y) i j le Between-y λ k has.
                let (has', less) = has_lower k has in (has', inl (ground arith, omega arith, less)),
          )
      | inr more ↦ elim (Bool-cases (j == i + 1)) [
        | inl at_z ↦
            let e : new.link j ≡ some z = ap new.link (ground arith) ∙ child_new middle i z v le in
            rw e (
              upper,
              Between-linked middle i z v le m m' (some y) (some z) i j le Between-y λ k has.
                  let (has', less) = has_upper k has in
                  (has', inr (ground arith, omega arith, less)),
            )
        | inr behind ↦
            rw (child_behind middle i z v le j (ground arith) le')
              (old-Child (j - 1) j (omega arith) (ground arith) (inr (ground arith, ground arith)))
      ]
    ]
  ]

  pub IsOrdered-split : IsOrdered m' (suc (suc h)) (some node)
  IsOrdered-split = rw at_node (
    KeysSorted-linked middle i z v le ordered.0 full (λ l lt. Between-y.0 middle l has_middle lt)
        (λ l ge lt. Between-y.1 middle l has_middle ge lt),
    ordered.1,
    λ _ j le'. new-Child j le',
  )

  -- A key of the new node, and one under child j of it.
  own_new : (k : KeyInfo) (l : ℕ) → l < v.cnt + 1 → new.key l ≡ k → Has m' (some node) k
  own_new k l lt e = own {l = l} (rw at_node lt) (ap (λ w. w.key l) at_node ∙ e)

  under_new :
      (k : KeyInfo) (j : ℕ) (c : Option Ptr)
      → j ≤ v.cnt + 1
      → new.link j ≡ c
      → Has m' c k
      → Has m' (some node) k
  under_new k j c le' e has =
      let e' : (m' node).link j ≡ c = ap (λ w. w.link j) at_node ∙ e in
      child_has {j = j} (rw at_node inner) (rw at_node le') (rw e' has)

  -- The level has the keys that it had.
  pub Has-split : (k : KeyInfo) → Has m (some node) k → Has m' (some node) k
  Has-split k has = elim (Has-cases m node k has) [
    | inl (l, lt, e) ↦ elim (Bool-cases (ltb l i)) [
      | inl first ↦ own_new k l (omega arith) (key_before middle i z v le l (ground arith) ∙ e)
      | inr late ↦ own_new k (l + 1) (omega arith) (
          key_behind middle i z v le (l + 1) (ground arith) (omega arith)
          ∙ ap v.key (omega arith)
          ∙ e)
    ]
    | inr (j, _, le', held) ↦ elim (Bool-cases (j == i)) [
      | inl at_i ↦
          let e : v.link j ≡ some y = ap v.link (ground arith) ∙ at_child in
          let held' : Has m (some y) k = subst (λ c. Has m c k) e held in
          elim (has_halves k held') [
            | inl h ↦
                under_new k i (some y) (omega arith)
                  (child_before middle i z v le i (omega arith) ∙ at_child) h
            | inr (inl same) ↦ own_new k i (omega arith) (key_middle middle i z v le ∙ same)
            | inr (inr h) ↦ under_new k (i + 1) (some z) (omega arith) (child_new middle i z v le) h
          ]
      | inr other ↦
          let kept = Has-Agree m m' held (agree j le' (ground arith)) in
          elim (Bool-cases (ltb j i)) [
            | inl first ↦
                under_new k j (v.link j) (omega arith)
                  (child_before middle i z v le j (ground arith)) kept
            | inr late ↦
                under_new k (j + 1) (v.link j) (omega arith)
                  (child_behind middle i z v le (j + 1) (ground arith) (omega arith)
                    ∙ ap v.link (omega arith))
                  kept
          ]
    ]
  ]

  under_old : (k : KeyInfo) (j : ℕ) → j ≤ v.cnt → j ≢ i → Has m' (v.link j) k → Has m (some node) k
  under_old k j le' ne has =
      child_has {j = j} inner le' (Has-Agree m' m has (Agree-sym m m' (v.link j) (agree j le' ne)))

  under_y : (k : KeyInfo) → Has m (some y) k → Has m (some node) k
  under_y k has = child_has {j = i} inner le (rw at_child has)

  -- It has no others.
  pub Has-unsplit : (k : KeyInfo) → Has m' (some node) k → Has m (some node) k
  Has-unsplit k has = elim (Has-cases m' node k has) [
    | inl (l, lt, e) ↦
        let lt' : l < v.cnt + 1 = rw at_node at lt in
        let e' : new.key l ≡ k = ap (λ w. w.key l) (sym at_node) ∙ e in
        elim (Bool-cases (ltb l i)) [
          | inl first ↦
              own {l = l} (ground arith) (sym (key_before middle i z v le l (ground arith)) ∙ e')
          | inr late ↦ elim (Bool-cases (l == i)) [
            | inl at_i ↦
                let same : middle ≡ k =
                  sym (key_middle middle i z v le) ∙ ap new.key (ground arith) ∙ e' in
                subst (Has m (some node)) same (under_y middle has_middle)
            | inr more ↦
                own {l = l - 1} (ground arith)
                  (sym (key_behind middle i z v le l (ground arith) (omega arith)) ∙ e')
          ]
        ]
    | inr (j, _, le0, held0) ↦
        let le' : j ≤ v.cnt + 1 = rw at_node at le0 in
        let held : Has m' (new.link j) k = rw at_node at held0 in
        elim (Bool-cases (ltb j i)) [
          | inl first ↦
              under_old k j (ground arith) (ground arith)
                (subst (λ c. Has m' c k) (child_before middle i z v le j (ground arith)) held)
          | inr late ↦ elim (Bool-cases (j == i)) [
            | inl at_i ↦
                let e : new.link j ≡ some y =
                  child_before middle i z v le j (ground arith)
                  ∙ ap v.link (ground arith)
                  ∙ at_child in
                under_y k (has_lower k (subst (λ c. Has m' c k) e held)).0
            | inr more ↦ elim (Bool-cases (j == i + 1)) [
              | inl at_z ↦
                  let e : new.link j ≡ some z =
                    ap new.link (ground arith) ∙ child_new middle i z v le in
                  under_y k (has_upper k (subst (λ c. Has m' c k) e held)).0
              | inr behind ↦
                  under_old k (j - 1) (omega arith) (ground arith) (
                    subst (λ c. Has m' c k) (child_behind middle i z v le j (ground arith) le')
                      held)
            ]
          ]
        ]
  ]
