-- ===== src/BTree/Views/Grown.antt =====
-- include/pcv/partition_sort/b_tree_insert.h: a level with one key more; what an insertion under a child
-- of a node does to the level of the node.
use pclass_vectorized.Prelude.{
  ℕ, suc, ◌<◌, ◌≤◌, ◌≡◌, ◌≢◌, ◌⊎◌, refl, sym, subst, inl, inr, true, false, Option, some, List,
  arith, ◌==◌, Bool-cases,
}
use pclass_vectorized.Range.{Range1d}
use pclass_vectorized.Mempool.Slots.{has}
use pclass_vectorized.BTree.{Ptr, KeyInfo}
use pclass_vectorized.BTree.Views.{View, Views}
use pclass_vectorized.BTree.Views.Levels.{
  Has, own, child_has, Has-cases, Has-Agree, Under, top, below, Under-cases, Agree, Agree-sym,
  Between, Between-Agree, IsOrdered, IsOrdered-Agree,
}
use pclass_vectorized.BTree.Views.Shape.{IsTreeShaped, Under-same, IsTreeShaped-Agree}

-- From m to m' the level under the link gets one key, perhaps with nodes at free slots; no node outside
-- of the level and of these slots changes.
pub record Grown (m m' : Views) (most h : ℕ) (p : Option Ptr) (new : KeyInfo) (free : List ℕ)
    : Type 0 where
  pub level : IsOrdered m' h p
  pub shape : IsTreeShaped m' most h p
  pub kept : (k : KeyInfo) → Has m p k → Has m' p k
  pub added : Has m' p new
  pub only : (k : KeyInfo) → Has m' p k → Has m p k ⊎ (new ≡ k)
  pub nodes : (q : Ptr) → Under m' p q → Under m p q ⊎ (has q free ≡ true)
  pub others : (q : Ptr) → ¬ Under m p q → has q free ≡ false → m' q ≡ m q

-- The place of a key among those of a node: child i.
abbrev pub Place : View → Range1d → ℕ → Type 0
Place v k i =
    ((l : ℕ) → l < i → (v.key l).key.high < k.low)
    × ((l : ℕ) → i ≤ l → l < v.cnt → k.high < (v.key l).key.low)

module _ (m m' : Views) (most h i : ℕ) (p : Ptr) (new : KeyInfo) (free : List ℕ)
    (inner : (m p).leaf ≡ false) (le : i ≤ (m p).cnt) (place : Place (m p) new.key i)
    (fresh : (q : Ptr) → Under m (some p) q → has q free ≡ false)
    (ordered : IsOrdered m (suc h) (some p)) (shape : IsTreeShaped m most (suc h) (some p))
    (grown : Grown m m' most h ((m p).link i) new free) where
  abbrev v : View
  v = m p

  -- The node itself does not change, nor do the nodes under its other children.
  same_node : m' p ≡ v
  same_node = grown.others p (λ u. (shape.1 inner i le).1 p u refl) (fresh p top)

  agree : (j : ℕ) → j ≤ v.cnt → j ≢ i → Agree m m' (v.link j)
  agree j le' ne q u =
      grown.others q (λ u'. (shape.1 inner j le').2 i q le ne u u')
        (fresh q (below {j = j} inner le' u))

  child_level : (j : ℕ) → j ≤ v.cnt → IsOrdered m' h (v.link j) × Between m' v (v.link j) j
  child_level j le' = elim (Bool-cases (j == i)) [
    | inr other ↦
        let same = agree j le' (ground arith) in
        let (o, b) = ordered.2 inner j le' in
        (IsOrdered-Agree m m' h (v.link j) same o, Between-Agree m m' v (v.link j) j same b)
    | inl at_i ↦
        subst (λ n. IsOrdered m' h (v.link n) × Between m' v (v.link n) n) (ground arith) at_place
  ]
    where
      old : Between m v (v.link i) i
      old = (ordered.2 inner i le).1

      at_place : IsOrdered m' h (v.link i) × Between m' v (v.link i) i
      at_place = (
        grown.level,
        (
          (λ k l held lt. elim (grown.only k held) [
            | inl before ↦ old.0 k l before lt
            | inr e ↦ subst (λ x. (v.key l).key.high < x.key.low) e (place.0 l lt)
          ]),
          λ k l held ge lt. elim (grown.only k held) [
            | inl before ↦ old.1 k l before ge lt
            | inr e ↦ subst (λ x. x.key.high < (v.key l).key.low) e (place.1 l ge lt)
          ],
        ),
      )

  -- A node under a child is an old one or, under child i, one at a free slot.
  child_nodes :
      (j : ℕ) (q : Ptr)
      → j ≤ v.cnt
      → Under m' (v.link j) q
      → Under m (v.link j) q ⊎ ((has q free ≡ true) × (j ≡ i))
  child_nodes j q le' u = elim (Bool-cases (j == i)) [
    | inr other ↦ inl (Under-same m m' (v.link j) q (agree j le' (ground arith)) u)
    | inl at_i ↦
        let e : j ≡ i = ground arith in
        elim (grown.nodes q (subst (λ n. Under m' (v.link n) q) e u)) [
          | inl before ↦ inl (subst (λ n. Under m (v.link n) q) (sym e) before)
          | inr slot ↦ inr (slot, e)
        ]
  ]

  child_apart :
      (j j' : ℕ) (q : Ptr)
      → j ≤ v.cnt
      → j' ≤ v.cnt
      → j ≢ j'
      → Under m' (v.link j) q
      → ¬ Under m' (v.link j') q
  child_apart j j' q le1 le2 ne u u' = elim (child_nodes j q le1 u) [
    | inl before ↦ elim (child_nodes j' q le2 u') [
      | inl before' ↦ (shape.1 inner j le1).2 j' q le2 ne before before'
      | inr (slot, e) ↦ cc (fresh q (below {j = j} inner le1 before))
    ]
    | inr (slot, e) ↦ elim (child_nodes j' q le2 u') [
      | inl before' ↦ cc (fresh q (below {j = j'} inner le2 before'))
      | inr (slot', e') ↦ ne (omega arith)
    ]
  ]

  child_shape : (j : ℕ) → j ≤ v.cnt → IsTreeShaped m' most h (v.link j)
  child_shape j le' = elim (Bool-cases (j == i)) [
    | inr other ↦
        IsTreeShaped-Agree m m' most h (v.link j) (agree j le' (ground arith))
          (shape.1 inner j le').0
    | inl at_i ↦ subst (λ n. IsTreeShaped m' most h (v.link n)) (ground arith) grown.shape
  ]

  under_child : (j : ℕ) (k : KeyInfo) → j ≤ v.cnt → Has m' (v.link j) k → Has m' (some p) k
  under_child j k le' held =
      child_has {j = j} (rw same_node inner) (rw same_node le') (rw same_node held)

  pub Grown-up : Grown m m' most (suc h) (some p) new free
  Grown-up = record {
    level = rw same_node (ordered.0, ordered.1, λ _ j le'. child_level j le');
    shape = rw same_node (
      shape.0,
      λ _ j le'. (
        child_shape j le',
        (λ q u. elim (child_nodes j q le' u) [
          | inl before ↦ (shape.1 inner j le').1 q before
          | inr (slot, e) ↦ λ at_p. cc (subst (λ x. has x free ≡ false) (sym at_p) (fresh p top))
        ]),
        λ j' q le'' ne u. child_apart j j' q le' le'' ne u,
      ),
    );
    kept = λ k held. elim (Has-cases m p k held) [
      | inl (l, lt, e) ↦ own {l = l} (rw same_node lt) (rw same_node e)
      | inr (j, _, le', held') ↦ elim (Bool-cases (j == i)) [
        | inr other ↦ under_child j k le' (Has-Agree m m' held' (agree j le' (ground arith)))
        | inl at_i ↦
            under_child i k le (grown.kept k (subst (λ n. Has m (v.link n) k) (ground arith) held'))
      ]
    ];
    added = under_child i new le grown.added;
    only = λ k held. elim (Has-cases m' p k held) [
      | inl (l, lt, e) ↦ inl (own {l = l} (rw same_node at lt) (rw same_node at e))
      | inr (j, _, le0, held0) ↦
          let le' : j ≤ v.cnt = rw same_node at le0 in
          let held' : Has m' (v.link j) k = rw same_node at held0 in
          elim (Bool-cases (j == i)) [
            | inr other ↦ inl (
                child_has {j = j} inner le'
                  (Has-Agree m' m held' (Agree-sym m m' (v.link j) (agree j le' (ground arith)))))
            | inl at_i ↦
                elim (grown.only k (subst (λ n. Has m' (v.link n) k) (ground arith) held')) [
                  | inl before ↦ inl (child_has {j = i} inner le before)
                  | inr e ↦ inr e
                ]
          ]
    ];
    nodes = λ q u. elim (Under-cases m' p q u) [
      | inl e ↦ inl (subst (Under m (some p)) (sym e) top)
      | inr (j, _, le0, u0) ↦
          let le' : j ≤ v.cnt = rw same_node at le0 in
          let u' : Under m' (v.link j) q = rw same_node at u0 in
          elim (child_nodes j q le' u') [
            | inl before ↦ inl (below {j = j} inner le' before)
            | inr (slot, e) ↦ inr slot
          ]
    ];
    others = λ q out unused. grown.others q (λ u. out (below {j = i} inner le u)) unused;
  }

  -- The slots that are still free are not used.
  pub unused-up :
      (rest : List ℕ)
      → ((q : Ptr) → has q rest ≡ true → has q free ≡ true)
      → ((q : Ptr) → Under m' (v.link i) q → has q rest ≡ false)
      → (q : Ptr) → Under m' (some p) q
      → has q rest ≡ false
  unused-up rest fewer child_fresh q u = elim (Bool-cases (has q rest)) [
    | inr unused ↦ unused
    | inl slot ↦ elim (Under-cases m' p q u) [
      | inl e ↦ cc (fewer q slot, subst (λ x. has x free ≡ false) (sym e) (fresh p top))
      | inr (j, _, le0, u0) ↦
          let le' : j ≤ v.cnt = rw same_node at le0 in
          let u' : Under m' (v.link j) q = rw same_node at u0 in
          elim (child_nodes j q le' u') [
            | inl before ↦ cc (fewer q slot, fresh q (below {j = j} inner le' before))
            | inr (old_slot, e) ↦ child_fresh q (subst (λ n. Under m' (v.link n) q) e u')
          ]
    ]
  ]
