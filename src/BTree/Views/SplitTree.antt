-- ===== src/BTree/Views/SplitTree.antt =====
-- include/pcv/partition_sort/b_tree_insert.h: the node above a split one still has trees as children,
-- which share no node.
use pclass_vectorized.Prelude.{
  ℕ, suc, ◌+◌, ◌-◌, ◌*◌, ◌<◌, ◌≤◌, ◌≡◌, ◌≢◌, ◌⊎◌, sym, ap, ◌∙◌, subst, inl, inr, false, some, arith,
  ltb, leb, ◌==◌, Bool-cases, if◌then◌else◌,
}
use pclass_vectorized.BTree.{Ptr, KeyInfo}
use pclass_vectorized.BTree.Views.{View, Views}
use pclass_vectorized.BTree.Views.SplitUpper.{upper}
use pclass_vectorized.BTree.Views.Split.{linked}
use pclass_vectorized.BTree.Views.Linked.{child_before, child_new, child_behind}
use pclass_vectorized.BTree.Views.Levels.{Under, top, below, Under-cases, Agree}
use pclass_vectorized.BTree.Views.Shape.{IsTreeShaped, Under-same, IsTreeShaped-Agree}
use pclass_vectorized.BTree.Views.SplitShape.{
  Under-lower, Under-upper, IsTreeShaped-lower, IsTreeShaped-upper,
}

module _ (m m' : Views) (most d h i : ℕ) (node y z : Ptr) (w : View) (middle : KeyInfo)
    (full : (m y).cnt ≡ 2 * d + 1) (room : (m node).cnt < most) (le : i ≤ (m node).cnt)
    (inner : (m node).leaf ≡ false) (at_child : (m node).link i ≡ some y)
    (y_after : m' y ≡ record (m y) { cnt = d }) (z_after : m' z ≡ upper d (m y) w)
    (node_after : m' node ≡ linked middle i z (m node))
    (others : (q : Ptr) → q ≢ node → q ≢ y → q ≢ z → m' q ≡ m q)
    (fresh : (q : Ptr) → Under m (some node) q → q ≢ z)
    (shape : IsTreeShaped m most (suc (suc h)) (some node)) where
  abbrev v : View
  v = m node

  abbrev new : View
  new = linked middle i z v

  shape_y : IsTreeShaped m most (suc h) (some y)
  shape_y = subst (IsTreeShaped m most (suc h)) at_child (shape.1 inner i le).0

  fresh_y : (q : Ptr) → Under m (some y) q → q ≢ z
  fresh_y q u = fresh q (below {j = i} inner le (rw at_child u))

  agree : (j : ℕ) → j ≤ v.cnt → j ≢ i → Agree m m' (v.link j)
  agree j le' ne q u =
      others q ((shape.1 inner j le').1 q u)
        (λ e.
          (shape.1 inner j le').2 i q le ne u (rw at_child (subst (Under m (some y)) (sym e) top)))
        (fresh q (below {j = j} inner le' u))

  Agree-y : (m y).leaf ≡ false → (j : ℕ) → j ≤ (m y).cnt → Agree m m' ((m y).link j)
  Agree-y leaf j le' q u =
      let under_y : Under m (v.link i) q = rw at_child (below {j = j} leaf le' u) in
      others q ((shape.1 inner i le).1 q under_y) ((shape_y.1 leaf j le').1 q u)
        (fresh q (below {j = i} inner le under_y))

  abbrev lower_nodes :
      (q : Ptr)
      → Under m' (some y) q
      → (q ≡ y) ⊎ ((j : ℕ) × ((m y).leaf ≡ false) × (j ≤ d) × Under m ((m y).link j) q)
  lower_nodes = Under-lower m m' most d h y z w full y_after z_after Agree-y fresh_y shape_y

  abbrev upper_nodes :
      (q : Ptr)
      → Under m' (some z) q
      → (q ≡ z)
        ⊎ ((j : ℕ) × ((m y).leaf ≡ false) × (d < j) × (j ≤ (m y).cnt) × Under m ((m y).link j) q)
  upper_nodes = Under-upper m m' most d h y z w full y_after z_after Agree-y fresh_y shape_y

  -- The child from which the nodes under child j come.
  abbrev origin : ℕ → ℕ
  origin j = if leb j i then j else j - 1

  origin_y : (q : Ptr) → Under m (some y) q → (j : ℕ) → origin j ≡ i → Under m (v.link (origin j)) q
  origin_y q u j e = rw (e, at_child) u

  origin_lem :
      (j : ℕ) (q : Ptr)
      → j ≤ v.cnt + 1
      → Under m' (new.link j) q
      → ((q ≡ z) × (j ≡ i + 1)) ⊎ Under m (v.link (origin j)) q
  origin_lem j q le' u = elim (Bool-cases (ltb j i)) [
    | inl first ↦
        let e : new.link j ≡ v.link j = child_before middle i z v le j (ground arith) in
        let u' =
          Under-same m m' (v.link j) q (agree j (ground arith) (ground arith))
            (subst (λ c. Under m' c q) e u) in
        inr (subst (λ n. Under m (v.link n) q) (ground arith) u')
    | inr late ↦ elim (Bool-cases (j == i)) [
      | inl at_i ↦
          let e : new.link j ≡ some y =
            child_before middle i z v le j (ground arith) ∙ ap v.link (ground arith) ∙ at_child in
          inr (
            origin_y q
              (elim (lower_nodes q (subst (λ c. Under m' c q) e u)) [
                | inl same ↦ subst (Under m (some y)) (sym same) top
                | inr (j', leaf, le'', u') ↦ below {j = j'} leaf (omega arith) u'
              ])
              j (ground arith))
      | inr more ↦ elim (Bool-cases (j == i + 1)) [
        | inl at_z ↦
            let e : new.link j ≡ some z = ap new.link (ground arith) ∙ child_new middle i z v le in
            elim (upper_nodes q (subst (λ c. Under m' c q) e u)) [
              | inl same ↦ inl (same, ground arith)
              | inr (j', leaf, lt, le'', u') ↦
                  inr (origin_y q (below {j = j'} leaf le'' u') j (ground arith))
            ]
        | inr behind ↦
            let e : new.link j ≡ v.link (j - 1) =
              child_behind middle i z v le j (ground arith) le' in
            let u' =
              Under-same m m' (v.link (j - 1)) q (agree (j - 1) (omega arith) (ground arith))
                (subst (λ c. Under m' c q) e u) in
            inr (subst (λ n. Under m (v.link n) q) (ground arith) u')
      ]
    ]
  ]

  halves_apart : (q : Ptr) → Under m' (some y) q → ¬ Under m' (some z) q
  halves_apart q u u' = elim (lower_nodes q u) [
    | inl at_y ↦ elim (upper_nodes q u') [
      | inl at_z ↦ fresh_y q (subst (Under m (some y)) (sym at_y) top) at_z
      | inr (j, leaf, lt, le', v') ↦ (shape_y.1 leaf j le').1 q v' at_y
    ]
    | inr (j, leaf, le', v') ↦ elim (upper_nodes q u') [
      | inl at_z ↦ fresh_y q (below {j = j} leaf (omega arith) v') at_z
      | inr (j', leaf', lt, le'', v'') ↦
          (shape_y.1 leaf j (omega arith)).2 j' q le'' (omega arith) v' v''
    ]
  ]

  pair_apart : (q : Ptr) → Under m' (new.link i) q → ¬ Under m' (new.link (i + 1)) q
  pair_apart q u u' =
      halves_apart q
        (subst (λ c. Under m' c q) (child_before middle i z v le i (omega arith) ∙ at_child) u)
        (subst (λ c. Under m' c q) (child_new middle i z v le) u')

  under_old :
      (j : ℕ) (q : Ptr) → j ≤ v.cnt + 1 → Under m (v.link (origin j)) q → Under m (some node) q
  under_old j q le' u = below {j = origin j} inner (ground arith) u

  -- Two children of the node share no node.
  children_apart :
      (j j' : ℕ) (q : Ptr)
      → j ≤ v.cnt + 1
      → j' ≤ v.cnt + 1
      → j ≢ j'
      → Under m' (new.link j) q
      → ¬ Under m' (new.link j') q
  children_apart j j' q le1 le2 ne u u' = elim (origin_lem j q le1 u) [
    | inl (at_z, e) ↦ elim (origin_lem j' q le2 u') [
      | inl (at_z', e') ↦ ne (omega arith)
      | inr o' ↦ fresh q (under_old j' q le2 o') at_z
    ]
    | inr o ↦ elim (origin_lem j' q le2 u') [
      | inl (at_z', e') ↦ fresh q (under_old j q le1 o) at_z'
      | inr o' ↦ elim (Bool-cases (origin j == origin j')) [
        | inr differ ↦
            (shape.1 inner (origin j) (ground arith)).2 (origin j') q (ground arith) (ground arith)
              o o'
        | inl same ↦ elim (Bool-cases (ltb j j')) [
          | inl less ↦
              pair_apart q (subst (λ n. Under m' (new.link n) q) (ground arith) u)
                (subst (λ n. Under m' (new.link n) q) (ground arith) u')
          | inr more ↦
              pair_apart q (subst (λ n. Under m' (new.link n) q) (ground arith) u')
                (subst (λ n. Under m' (new.link n) q) (ground arith) u)
        ]
      ]
    ]
  ]

  kept_shape : (j : ℕ) → j ≤ v.cnt → j ≢ i → IsTreeShaped m' most (suc h) (v.link j)
  kept_shape j le' ne =
      IsTreeShaped-Agree m m' most (suc h) (v.link j) (agree j le' ne) (shape.1 inner j le').0

  child_shape : (j : ℕ) → j ≤ v.cnt + 1 → IsTreeShaped m' most (suc h) (new.link j)
  child_shape j le' = elim (Bool-cases (ltb j i)) [
    | inl first ↦
        rw (child_before middle i z v le j (ground arith))
          (kept_shape j (ground arith) (ground arith))
    | inr late ↦ elim (Bool-cases (j == i)) [
      | inl at_i ↦
          let e : new.link j ≡ some y =
            child_before middle i z v le j (ground arith) ∙ ap v.link (ground arith) ∙ at_child in
          rw e (IsTreeShaped-lower m m' most d h y z w full y_after z_after Agree-y fresh_y shape_y)
      | inr more ↦ elim (Bool-cases (j == i + 1)) [
        | inl at_z ↦
            let e : new.link j ≡ some z = ap new.link (ground arith) ∙ child_new middle i z v le in
            rw e
              (IsTreeShaped-upper m m' most d h y z w full y_after z_after Agree-y fresh_y shape_y)
        | inr behind ↦
            rw (child_behind middle i z v le j (ground arith) le')
              (kept_shape (j - 1) (omega arith) (ground arith))
      ]
    ]
  ]

  pub IsTreeShaped-split : IsTreeShaped m' most (suc (suc h)) (some node)
  IsTreeShaped-split = rw node_after (
    omega arith,
    λ _ j le'. (
      child_shape j le',
      (λ q u. elim (origin_lem j q le' u) [
        | inl (at_z, e) ↦ λ at_node. fresh node top (sym at_node ∙ at_z)
        | inr o ↦ (shape.1 inner (origin j) (ground arith)).1 q o
      ]),
      λ j' q le'' ne u. children_apart j j' q le' le'' ne u,
    ),
  )

  -- The nodes are those of before and the new one.
  pub Under-split : (q : Ptr) → Under m' (some node) q → Under m (some node) q ⊎ (q ≡ z)
  Under-split q u = elim (Under-cases m' node q u) [
    | inl e ↦ inl (subst (Under m (some node)) (sym e) top)
    | inr (j, _, le0, u0) ↦
        let le' : j ≤ v.cnt + 1 = rw node_after at le0 in
        let u' : Under m' (new.link j) q = rw node_after at u0 in
        elim (origin_lem j q le' u') [
          | inl (at_z, e) ↦ inr at_z
          | inr o ↦ inl (under_old j q le' o)
        ]
  ]
