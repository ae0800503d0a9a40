-- ===== src/BTree/LeafKeys.antt =====
-- How the operations that insert a key into a leaf and remove one from it (b_tree_insert.h,
-- b_tree_remove.h) change the sequence of its keys: what they share.
pub mod Removal
pub mod Insertion
use pclass_vectorized.Prelude.{
  ℕ, zero, suc, ◌+◌, ◌-◌, ◌<◌, ◌≤◌, ◌≡◌, ◌≢◌, refl, sym, ap, ◌∙◌, ◌⊎◌, inl, inr, true, false, ◌&&◌,
  arith, ltb, leb, none, ◌==◌, if◌then◌else◌, update, update_self, update_ne, Bool-cases,
}
use pclass_vectorized.Prelude.State.{Run, ok, fail, and_then, for_up}
use pclass_vectorized.Range.{Range1d, gt_range}
use pclass_vectorized.BTree.{
  BTreeCfg, Ptr, KeyInfo, Node, Tree, Op, move_key, get_key, set_key, set_key_cnt,
}
use pclass_vectorized.BTree.Search.Sequential.{KeysSorted}
use pclass_vectorized.BTree.Insert.{shift_greater, insert_non_full}
use pclass_vectorized.BTree.Insert.Cookie.{InsertCookie, required_more_levels, actual_key}
use pclass_vectorized.BTree.Remove.Rebalance.{remove_from_leaf}

-- Everything but the keys of the node p is the same in both trees.
pub record SameBut (p : Ptr) (s t : Tree) : Type 0 where
  pub others : (q : Ptr) → q ≢ p → t.node q ≡ s.node q
  pub pool : t.pool ≡ s.pool
  pub root : t.root ≡ s.root
  pub order : t.dimension_order ≡ s.dimension_order
  pub is_leaf : (t.node p).is_leaf ≡ (s.node p).is_leaf
  pub is_compressed : (t.node p).is_compressed ≡ (s.node p).is_compressed
  pub parent : (t.node p).parent ≡ (s.node p).parent
  pub child_index : (t.node p).child_index ≡ (s.node p).child_index
  pub dim_index : (t.node p).dim_index ≡ (s.node p).dim_index

pub SameBut-refl : (p : Ptr) (s : Tree) → SameBut p s s
SameBut-refl p s = record {
  others = λ q ne. refl;
  pool = refl;
  root = refl;
  order = refl;
  is_leaf = refl;
  is_compressed = refl;
  parent = refl;
  child_index = refl;
  dim_index = refl;
}

pub SameBut-trans : (p : Ptr) (s t u : Tree) → SameBut p s t → SameBut p t u → SameBut p s u
SameBut-trans p s t u a b = record {
  others = λ q ne. b.others q ne ∙ a.others q ne;
  pool = b.pool ∙ a.pool;
  root = b.root ∙ a.root;
  order = b.order ∙ a.order;
  is_leaf = b.is_leaf ∙ a.is_leaf;
  is_compressed = b.is_compressed ∙ a.is_compressed;
  parent = b.parent ∙ a.parent;
  child_index = b.child_index ∙ a.child_index;
  dim_index = b.dim_index ∙ a.dim_index;
}

get_key-set_key :
    (n : Node) (i j : ℕ) (k : KeyInfo)
    → get_key (set_key n i k) j ≡ (if j == i then k else get_key n j)
unfolding get_key set_key
get_key-set_key n i j k = elim (Bool-cases (j == i)) [
  | inl e ↦ rw (e, if◌then◌else◌) refl
  | inr e ↦ rw (e, if◌then◌else◌) refl
]

-- The tree after a change of the node p.
abbrev pub changed : Ptr → (Node → Node) → Tree → Tree
changed p f s = record s { node = update s.node p (f (s.node p)) }

SameBut-changed :
    (p : Ptr) (f : Node → Node) (s : Tree)
    → (f (s.node p)).is_leaf ≡ (s.node p).is_leaf
    → (f (s.node p)).is_compressed ≡ (s.node p).is_compressed
    → (f (s.node p)).parent ≡ (s.node p).parent
    → (f (s.node p)).child_index ≡ (s.node p).child_index
    → (f (s.node p)).dim_index ≡ (s.node p).dim_index
    → SameBut p s (changed p f s)
SameBut-changed p f s leaf plain up links dims = record {
  others = λ q ne. update_ne s.node p q (f (s.node p)) ne;
  pool = refl;
  root = refl;
  order = refl;
  is_leaf = ap (λ n. n.is_leaf) (update_self s.node p (f (s.node p))) ∙ leaf;
  is_compressed = ap (λ n. n.is_compressed) (update_self s.node p (f (s.node p))) ∙ plain;
  parent = ap (λ n. n.parent) (update_self s.node p (f (s.node p))) ∙ up;
  child_index = ap (λ n. n.child_index) (update_self s.node p (f (s.node p))) ∙ links;
  dim_index = ap (λ n. n.dim_index) (update_self s.node p (f (s.node p))) ∙ dims;
}

-- What a command does that only moves keys within the node p: key `l` is then what key `from l` was.
abbrev pub Moves : Ptr → Op (Unit {0}) → (ℕ → ℕ) → Tree → Type 0
Moves p c from s =
    (t : Tree) × (c s ≡ ok tt t)
    × SameBut p s t
    × ((t.node p).key_cnt ≡ (s.node p).key_cnt)
    × ((l : ℕ) → get_key (t.node p) l ≡ get_key (s.node p) (from l))

pub move_key-Moves :
    (p : Ptr) (i j : ℕ) (s : Tree) → Moves p (move_key p i p j) (λ l. if l == j then i else l) s
unfolding move_key set_key
move_key-Moves p i j s = (
  changed p (λ m. set_key m j (get_key (s.node p) i)) s,
  refl,
  SameBut-changed p (λ m. set_key m j (get_key (s.node p) i)) s refl refl refl refl refl,
  ap (λ n. n.key_cnt) (update_self s.node p (set_key (s.node p) j (get_key (s.node p) i))),
  λ l.
      ap (λ n. get_key n l) (update_self s.node p (set_key (s.node p) j (get_key (s.node p) i)))
      ∙ get_key-set_key (s.node p) j l (get_key (s.node p) i)
      ∙ split l,
)
  where
    split :
        (l : ℕ)
        → (if l == j then get_key (s.node p) i else get_key (s.node p) l)
          ≡ get_key (s.node p) (if l == j then i else l)
    split l = elim (Bool-cases (l == j)) [
      | inl e ↦ rw (e, if◌then◌else◌) refl
      | inr e ↦ rw (e, if◌then◌else◌) refl
    ]

-- A change of the number of keys leaves the keys.
pub set_key_cnt_lem :
    (p : Ptr) (cnt : ℕ) (t : Tree)
    → (u : Tree) × (u ≡ changed p (λ m. set_key_cnt m cnt) t)
      × SameBut p t u
      × ((u.node p).key_cnt ≡ cnt)
      × ((l : ℕ) → get_key (u.node p) l ≡ get_key (t.node p) l)
unfolding set_key_cnt get_key
set_key_cnt_lem p cnt t = (
  changed p (λ m. set_key_cnt m cnt) t,
  refl,
  SameBut-changed p (λ m. set_key_cnt m cnt) t refl refl refl refl refl,
  ap (λ n. n.key_cnt) (update_self t.node p (set_key_cnt (t.node p) cnt)),
  λ l. ap (λ n. get_key n l) (update_self t.node p (set_key_cnt (t.node p) cnt)),
)

pub keys_of : (m n : Node) (l l' : ℕ) → get_key m l ≡ get_key n l' → m.keys l ≡ n.keys l'
unfolding get_key
keys_of m n l l' e = ap (λ k. k.key) e

pub key_at : (m : Node) (l : ℕ) (k : KeyInfo) → get_key m l ≡ k → m.keys l ≡ k.key
unfolding get_key
key_at m l k e = ap (λ x. x.key) e

-- A key is written at place i, and there is one more key.
pub put_key_lem :
    (p : Ptr) (i : ℕ) (k : KeyInfo) (t : Tree)
    → (u : Tree) × (u ≡ changed p (λ m. set_key_cnt (set_key m i k) (m.key_cnt + 1)) t)
      × SameBut p t u
      × ((u.node p).key_cnt ≡ (t.node p).key_cnt + 1)
      × ((l : ℕ) → get_key (u.node p) l ≡ (if l == i then k else get_key (t.node p) l))
unfolding set_key_cnt get_key set_key
put_key_lem p i k t =
    let f : Node → Node = λ m. set_key_cnt (set_key m i k) (m.key_cnt + 1) in
    (
      changed p f t,
      refl,
      SameBut-changed p f t refl refl refl refl refl,
      ap (λ n. n.key_cnt) (update_self t.node p (f (t.node p))),
      λ l.
          ap (λ n. get_key n l) (update_self t.node p (f (t.node p)))
          ∙ get_key-set_key (t.node p) i l k,
    )
