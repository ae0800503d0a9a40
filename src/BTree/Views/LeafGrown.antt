-- ===== src/BTree/Views/LeafGrown.antt =====
-- include/pcv/partition_sort/b_tree_insert.h: a leaf with one key more.
use pclass_vectorized.Prelude.{
  ℕ, suc, ◌+◌, ◌-◌, ◌<◌, ◌≤◌, ◌≡◌, ◌≢◌, sym, ap, ◌∙◌, subst, inl, inr, true, false, some, List,
  arith, ltb, ◌==◌, if◌then◌else◌, Bool-cases,
}
use pclass_vectorized.BTree.{Ptr, KeyInfo}
use pclass_vectorized.BTree.Search.Sequential.{KeysSorted}
use pclass_vectorized.BTree.Views.{Views}
use pclass_vectorized.BTree.Views.Levels.{own, Has-cases, Under, top, Under-leaf}
use pclass_vectorized.BTree.Views.Grown.{Grown}

pub Grown-leaf :
    (m m' : Views) (most h i : ℕ) (p : Ptr) (new : KeyInfo) (free : List ℕ)
    → (m p).leaf ≡ true
    → (m' p).leaf ≡ true
    → (m' p).compressed ≡ false
    → (m p).cnt < most
    → (m' p).cnt ≡ (m p).cnt + 1
    → i ≤ (m p).cnt
    → (m' p).key i ≡ new
    → ((l : ℕ) → l ≤ (m p).cnt → l ≢ i → (m' p).key l ≡ (m p).key (if ltb l i then l else l - 1))
    → KeysSorted (λ l. ((m' p).key l).key) (m' p).cnt
    → ((q : Ptr) → q ≢ p → m' q ≡ m q)
    → Grown m m' most (suc h) (some p) new free
Grown-leaf m m' most h i p new free leaf leaf' plain room cnt le at_i keys sorted others = record {
  level = (sorted, plain, λ inner. cc);
  shape = (omega arith, λ inner. cc);
  kept = λ k held. elim (Has-cases m p k held) [
    | inl (l, lt, e) ↦ elim (Bool-cases (ltb l i)) [
      | inl first ↦
          own {l = l} (omega arith)
            (keys l (omega arith) (ground arith) ∙ ap (m p).key (ground arith) ∙ e)
      | inr late ↦
          own {l = l + 1} (omega arith)
            (keys (l + 1) (omega arith) (ground arith) ∙ ap (m p).key (ground arith) ∙ e)
    ]
    | inr (j, inner, le', held') ↦ cc
  ];
  added = own {l = i} (omega arith) at_i;
  only = λ k held. elim (Has-cases m' p k held) [
    | inl (l, lt, e) ↦ elim (Bool-cases (l == i)) [
      | inl same ↦ inr (sym at_i ∙ ap (m' p).key (ground arith) ∙ e)
      | inr other ↦ inl (
          own {l = if ltb l i then l else l - 1} (ground arith)
            (sym (keys l (omega arith) (ground arith)) ∙ e))
    ]
    | inr (j, inner, le', held') ↦ cc
  ];
  nodes = λ q u. inl (subst (Under m (some p)) (sym (Under-leaf m' p q leaf' u)) top);
  others = λ q out unused. others q λ e. out (subst (Under m (some p)) (sym e) top);
}
