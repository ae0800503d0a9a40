-- ===== src/BTree/Views/Halves.antt =====
-- include/pcv/partition_sort/b_tree_insert.h: the two halves of the node y that `split_child` leaves:
-- each is a level in order, and its keys lie below and above the middle key.
use pclass_vectorized.Prelude.{
  ℕ, suc, ◌+◌, ◌-◌, ◌*◌, ◌<◌, ◌≤◌, ◌≡◌, ◌⊎◌, sym, ap, ◌∙◌, subst, inl, inr, false, some, arith, ltb,
  leb, ◌==◌, if◌then◌else◌, Bool-cases,
}
use pclass_vectorized.BTree.{Ptr, KeyInfo}
use pclass_vectorized.BTree.Views.{View, Views}
use pclass_vectorized.BTree.Views.Loops.{window}
use pclass_vectorized.BTree.Views.SplitUpper.{upper}
use pclass_vectorized.BTree.Views.Levels.{
  Has, own, child_has, Has-cases, Has-Agree, Agree, Agree-sym, Between-Agree, IsOrdered,
  IsOrdered-Agree,
}

-- The places of a window from 0 on.
pub window_at :
    {A : Type 0} (count : ℕ) (new old : ℕ → A) (l : ℕ)
    → l < count
    → window 0 count new old l ≡ new l
window_at count new old l lt = ground arith

-- The links of the upper half.
pub upper_link :
    (w : View) (d : ℕ) (v : View) (j : ℕ)
    → j ≤ d
    → v.leaf ≡ false
    → (upper d v w).link j ≡ v.link (d + j + 1)
upper_link w d v j le inner =
    rw (inner, if◌then◌else◌) (window_at (d + 1) (λ l. v.link (d + l + 1)) w.link j (omega arith))

-- In m the node y has 2 d + 1 keys; in m' it has the first d of them, z has the last d.
module _ (m m' : Views) (d h : ℕ) (y z : Ptr) (w : View) (full : (m y).cnt ≡ 2 * d + 1)
    (at_y : m' y ≡ record (m y) { cnt = d }) (at_z : m' z ≡ upper d (m y) w)
    (plain : w.compressed ≡ false)
    (agree : (m y).leaf ≡ false → (j : ℕ) → j ≤ (m y).cnt → Agree m m' ((m y).link j))
    (ordered : IsOrdered m (suc h) (some y)) where
  abbrev key_of : ℕ → KeyInfo
  key_of l = (m y).key l

  pub IsOrdered-lower : IsOrdered m' (suc h) (some y)
  IsOrdered-lower = rw at_y (
    ((λ a lt. ordered.0.0 a (omega arith)), λ a b less lt. ordered.0.1 a b less (omega arith)),
    ordered.1,
    λ inner j le.
        let (o, b) = ordered.2 inner j (omega arith) in
        let same = agree inner j (omega arith) in
        let (low, high) = Between-Agree m m' (m y) ((m y).link j) j same b in
        (
          IsOrdered-Agree m m' h ((m y).link j) same o,
          (low, λ k l has ge lt. high k l has ge (omega arith)),
        ),
  )

  -- The children and the keys of z.
  z_child : (j : ℕ) → j ≤ d → (m y).leaf ≡ false → (upper d (m y) w).link j ≡ (m y).link (d + j + 1)
  z_child j le inner = upper_link w d (m y) j le inner

  z_keys : (l : ℕ) → l < d → (upper d (m y) w).key l ≡ key_of (d + l + 1)
  z_keys l lt = window_at d (λ l. key_of (d + l + 1)) w.key l lt

  pub IsOrdered-upper : IsOrdered m' (suc h) (some z)
  IsOrdered-upper = rw at_z (
    (
      (λ a lt. rw (z_keys a lt) (ordered.0.0 (d + a + 1) (omega arith))),
      λ a b less lt.
          rw (z_keys a (omega arith), z_keys b lt)
            (ordered.0.1 (d + a + 1) (d + b + 1) (omega arith) (omega arith)),
    ),
    plain,
    λ inner j le.
        let (o, b) = ordered.2 inner (d + j + 1) (omega arith) in
        let same = agree inner (d + j + 1) (omega arith) in
        let (low, high) = Between-Agree m m' (m y) ((m y).link (d + j + 1)) (d + j + 1) same b in
        rw (z_child j le inner) (
          IsOrdered-Agree m m' h ((m y).link (d + j + 1)) same o,
          (
            (λ k l has lt. rw (z_keys l (omega arith)) (low k (d + l + 1) has (omega arith))),
            λ k l has ge lt. rw (z_keys l lt) (high k (d + l + 1) has (omega arith) (omega arith)),
          ),
        ),
  )

  abbrev pub middle : KeyInfo
  middle = key_of d

  -- A key of the first half is one of y below the middle key.
  pub Has-lower :
      (k : KeyInfo) → Has m' (some y) k → Has m (some y) k × (k.key.high < middle.key.low)
  Has-lower k h = elim (Has-cases m' y k h) [
    | inl (l, lt, e) ↦
        let lt' : l < d = rw at_y at lt in
        let e' : key_of l ≡ k = rw at_y at e in
        (
          own {l = l} (omega arith) e',
          subst (λ x. x.key.high < middle.key.low) e' (ordered.0.1 l d lt' (omega arith)),
        )
    | inr (j, inner, le, held) ↦
        let inner' : (m y).leaf ≡ false = rw at_y at inner in
        let le' : j ≤ d = rw at_y at le in
        let held' : Has m' ((m y).link j) k = rw at_y at held in
        let in_m =
          Has-Agree m' m held' (Agree-sym m m' ((m y).link j) (agree inner' j (omega arith))) in
        (
          child_has {j = j} inner' (omega arith) in_m,
          (ordered.2 inner' j (omega arith)).1.1 k d in_m le' (omega arith),
        )
  ]

  -- A key of the second half is one of y above the middle key.
  pub Has-upper :
      (k : KeyInfo) → Has m' (some z) k → Has m (some y) k × (middle.key.high < k.key.low)
  Has-upper k h = elim (Has-cases m' z k h) [
    | inl (l, lt, e) ↦
        let lt' : l < d = rw at_z at lt in
        let e' : key_of (d + l + 1) ≡ k = sym (z_keys l lt') ∙ ap (λ v. v.key l) (sym at_z) ∙ e in
        (
          own {l = d + l + 1} (omega arith) e',
          subst (λ x. middle.key.high < x.key.low) e'
              (ordered.0.1 d (d + l + 1) (omega arith) (omega arith)),
        )
    | inr (j, inner, le, held) ↦
        let inner' : (m y).leaf ≡ false = rw at_z at inner in
        let le' : j ≤ d = rw at_z at le in
        let place = d + j + 1 in
        let held' : Has m' ((m y).link place) k =
          subst (λ c. Has m' c k) (ap (λ v. v.link j) at_z ∙ z_child j le' inner') held in
        let in_m =
          Has-Agree m' m held'
            (Agree-sym m m' ((m y).link place) (agree inner' place (omega arith))) in
        (
          child_has {j = place} inner' (omega arith) in_m,
          (ordered.2 inner' place (omega arith)).1.0 k d in_m (omega arith),
        )
  ]

  -- A key of y is the middle key or one of a half.
  pub Has-halves :
      (k : KeyInfo) → Has m (some y) k → Has m' (some y) k ⊎ ((middle ≡ k) ⊎ Has m' (some z) k)
  Has-halves k h = elim (Has-cases m y k h) [
    | inl (l, lt, e) ↦ elim (Bool-cases (ltb l d)) [
      | inl first ↦ inl (own {l = l} (rw at_y (ground arith)) (rw at_y e))
      | inr late ↦ elim (Bool-cases (l == d)) [
        | inl same ↦ inr (inl (ap key_of (ground arith) ∙ e))
        | inr more ↦
            let place = l - d - 1 in
            let e' : (m' z).key place ≡ k =
              ap (λ v. v.key place) at_z
              ∙ z_keys place (ground arith)
              ∙ ap key_of (ground arith)
              ∙ e in
            inr (inr (own {l = place} (rw at_z (ground arith)) e'))
      ]
    ]
    | inr (j, inner, le, held) ↦
        let held' = Has-Agree m m' held (agree inner j le) in
        elim (Bool-cases (leb j d)) [
          | inl first ↦
              inl (child_has {j = j} (rw at_y inner) (rw at_y (ground arith)) (rw at_y held'))
          | inr late ↦
              let place = j - d - 1 in
              let same : (m' z).link place ≡ (m y).link j =
                ap (λ v. v.link place) at_z
                ∙ z_child place (ground arith) inner
                ∙ ap (m y).link (ground arith) in
              inr (
                inr
                  (child_has {j = place} (rw at_z inner) (rw at_z (ground arith)) (rw same held')))
        ]
  ]
