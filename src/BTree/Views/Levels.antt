-- ===== src/BTree/Views/Levels.antt =====
-- include/pcv/partition_sort/b_tree_node.h: the keys of a level and its order, on the views of nodes;
-- a level depends on its own nodes only.
use pclass_vectorized.Prelude.{
  ℕ, zero, suc, ◌<◌, ◌≤◌, ◌≡◌, ◌⊎◌, inl, inr, refl, sym, ap, subst, true, false, Option, none, some,
}
use pclass_vectorized.BTree.{Ptr, KeyInfo, Node, get_key}
use pclass_vectorized.BTree.Search.Sequential.{KeysSorted}
use pclass_vectorized.BTree.Search.Level.{Holds, here, under, IsLevel}
use pclass_vectorized.BTree.Views.{View, Views, view}

module _ (m : Views) where
  -- The level under the link has the key, with its value and its link.
  pub data Has : Option Ptr → KeyInfo → Type 0 where
    own : {p : Ptr} {k : KeyInfo} {l : ℕ} → l < (m p).cnt → (m p).key l ≡ k → Has (some p) k
    child_has :
        {p : Ptr} {k : KeyInfo} {j : ℕ}
        → (m p).leaf ≡ false
        → j ≤ (m p).cnt
        → Has ((m p).link j) k
        → Has (some p) k

  -- The node is one of the level.
  pub data Under : Option Ptr → Ptr → Type 0 where
    top : {p : Ptr} → Under (some p) p
    below :
        {p q : Ptr} {j : ℕ}
        → (m p).leaf ≡ false
        → j ≤ (m p).cnt
        → Under ((m p).link j) q
        → Under (some p) q

  -- The keys under child j of a node lie between its keys j - 1 and j.
  abbrev pub Between : View → Option Ptr → ℕ → Type 0
  Between v c j =
      ((k : KeyInfo) (l : ℕ) → Has c k → l < j → (v.key l).key.high < k.key.low)
      × ((k : KeyInfo) (l : ℕ) → Has c k → j ≤ l → l < v.cnt → k.key.high < (v.key l).key.low)

  -- `IsLevel`, on the views.
  abbrev pub IsOrdered : ℕ → Option Ptr → Type 0
  IsOrdered h none = Unit {0}
  IsOrdered zero (some p) = ⊥
  IsOrdered (suc h) (some p) =
      KeysSorted (λ l. ((m p).key l).key) (m p).cnt
      × ((m p).compressed ≡ false)
      × ((m p).leaf ≡ false
          → (j : ℕ) → j ≤ (m p).cnt
          → IsOrdered h ((m p).link j) × Between (m p) ((m p).link j) j)

pub node_key : (n : Node) (i : ℕ) → n.keys i ≡ (get_key n i).key
unfolding get_key
node_key n i = refl

pub Has-cases :
    (m : Views) (p : Ptr) (k : KeyInfo)
    → Has m (some p) k
    → ((l : ℕ) × (l < (m p).cnt) × ((m p).key l ≡ k))
      ⊎ ((j : ℕ) × ((m p).leaf ≡ false) × (j ≤ (m p).cnt) × Has m ((m p).link j) k)
Has-cases m p k (own {l = l} lt e) = inl (l, lt, e)
Has-cases m p k (child_has {j = j} inner le h) = inr (j, inner, le, h)

-- The nodes of the level are the same.
abbrev pub Agree : Views → Views → Option Ptr → Type 0
Agree m m' p = (r : Ptr) → Under m p r → m' r ≡ m r

pub Agree-child :
    (m m' : Views) (p : Ptr) (j : ℕ)
    → Agree m m' (some p)
    → (m p).leaf ≡ false
    → j ≤ (m p).cnt
    → Agree m m' ((m p).link j)
Agree-child m m' p j agree inner le r u = agree r (below inner le u)

module _ (m m' : Views) where
  -- The way back; the link may be the same by an equation only.
  pub Under-Agree :
      {p' : Option Ptr} {r : Ptr} (u : Under m' p' r) (p : Option Ptr)
      → p' ≡ p
      → Agree m m' p
      → Under m p r
  Under-Agree (top {p = p'}) p e agree = subst (λ x. Under m x p') e top
  Under-Agree (below {p = p'} {q} {j} inner le u) p e agree0 =
      subst (λ x. Agree m m' x → Under m x q) e
        (λ agree.
          let same = agree p' top in
          let inner' : (m p').leaf ≡ false = rw (sym same) inner in
          let le' : j ≤ (m p').cnt = rw (sym same) le in
          below {j = j} inner' le' (
            Under-Agree u ((m p').link j) (ap (λ v. v.link j) same)
              (Agree-child m m' p' j agree inner' le')))
        agree0

  pub Has-Agree : {p : Option Ptr} {k : KeyInfo} → Has m p k → Agree m m' p → Has m' p k
  Has-Agree (own {p} {k} {l} lt e) agree =
      subst (λ v. (l < v.cnt) × (v.key l ≡ k) → Has m' (some p) k) (agree p top) (λ h. own h.0 h.1)
        (lt, e)
  Has-Agree (child_has {p} {k} {j} inner le h) agree =
      let e = agree p top in
      let h' = Has-Agree h (Agree-child m m' p j agree inner le) in
      child_has {j = j} (rw e inner) (rw e le) (rw e h')

pub Agree-sym : (m m' : Views) (p : Option Ptr) → Agree m m' p → Agree m' m p
Agree-sym m m' p agree r u = sym (agree r (Under-Agree m m' u p refl agree))

pub Between-Agree :
    (m m' : Views) (v : View) (c : Option Ptr) (j : ℕ)
    → Agree m m' c
    → Between m v c j
    → Between m' v c j
Between-Agree m m' v c j agree (low, high) = (
  (λ k l h. low k l (Has-Agree m' m h (Agree-sym m m' c agree))),
  λ k l h. high k l (Has-Agree m' m h (Agree-sym m m' c agree)),
)

pub IsOrdered-Agree :
    (m m' : Views) (h : ℕ) (p : Option Ptr) → Agree m m' p → IsOrdered m h p → IsOrdered m' h p
IsOrdered-Agree m m' h none agree o = tt
IsOrdered-Agree m m' zero (some p) agree o = o
IsOrdered-Agree m m' (suc h) (some p) agree (sorted, plain, children) =
    let e = agree p top in
    rw e (
      sorted,
      plain,
      λ inner j le.
          let agree' = Agree-child m m' p j agree inner le in
          let (o, b) = children inner j le in
          (
            IsOrdered-Agree m m' h ((m p).link j) agree' o,
            Between-Agree m m' (m p) ((m p).link j) j agree' b,
          ),
    )

-- On the nodes of a tree this is `IsLevel`.
module _ (mem : Ptr → Node) where
  abbrev viewed : Views
  viewed q = view (mem q)

  pub Has-Holds :
      {p : Option Ptr} {k : KeyInfo}
      → Has viewed p k
      → (q : Ptr) × (i : ℕ) × Holds mem p q i × (get_key (mem q) i ≡ k)
  Has-Holds (own {p} {k} {l} lt e) = (p, l, here lt, e)
  Has-Holds (child_has {p} {k} {j} inner le h) =
      let (q, i, held, e) = Has-Holds h in (q, i, under {j = j} inner le held, e)

  pub Holds-Has :
      {p : Option Ptr} {q : Ptr} {i : ℕ} → Holds mem p q i → Has viewed p (get_key (mem q) i)
  Holds-Has (here {p} {i} lt) = own {l = i} lt refl
  Holds-Has (under {p} {j} {q} {i} inner le h) = child_has {j = j} inner le (Holds-Has h)

  pub IsLevel-IsOrdered : (h : ℕ) (p : Option Ptr) → IsLevel mem h p → IsOrdered viewed h p
  unfolding get_key
  IsLevel-IsOrdered h none o = tt
  IsLevel-IsOrdered zero (some p) o = o
  IsLevel-IsOrdered (suc h) (some p) (sorted, plain, children) = (
    sorted,
    plain,
    λ inner j le.
        let (o, low, high) = children inner j le in
        (
          IsLevel-IsOrdered h ((mem p).child_index j) o,
          (
            (λ k l has lt.
                let (q, i, held, e) = Has-Holds has in
                subst (λ x. ((mem p).keys l).high < x.key.low) e (low q i l held lt)),
            λ k l has le lt.
                let (q, i, held, e) = Has-Holds has in
                subst (λ x. x.key.high < ((mem p).keys l).low) e (high q i l held le lt),
          ),
        ),
  )

  pub IsOrdered-IsLevel : (h : ℕ) (p : Option Ptr) → IsOrdered viewed h p → IsLevel mem h p
  unfolding get_key
  IsOrdered-IsLevel h none o = tt
  IsOrdered-IsLevel zero (some p) o = o
  IsOrdered-IsLevel (suc h) (some p) (sorted, plain, children) = (
    sorted,
    plain,
    λ inner j le.
        let (o, (low, high)) = children inner j le in
        (
          IsOrdered-IsLevel h ((mem p).child_index j) o,
          (λ q i l held lt. low (get_key (mem q) i) l (Holds-Has held) lt),
          λ q i l held le lt. high (get_key (mem q) i) l (Holds-Has held) le lt,
        ),
  )

pub Under-leaf : (m : Views) (p q : Ptr) → (m p).leaf ≡ true → Under m (some p) q → q ≡ p
Under-leaf m p q leaf top = refl
Under-leaf m p q leaf (below inner le u) = cc

pub Under-cases :
    (m : Views) (p q : Ptr)
    → Under m (some p) q
    → (q ≡ p) ⊎ ((j : ℕ) × ((m p).leaf ≡ false) × (j ≤ (m p).cnt) × Under m ((m p).link j) q)
Under-cases m p q top = inl refl
Under-cases m p q (below {j = j} inner le u) = inr (j, inner, le, u)
