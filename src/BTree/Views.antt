-- ===== src/BTree/Views.antt =====
-- include/pcv/partition_sort/b_tree_node.h, b_tree_node_navigator.h: what the operations on nodes do
-- to the keys and the links of the nodes, with the links to parents left out.
pub mod Loops
pub mod SplitUpper
pub mod Split
pub mod Levels
pub mod Halves
pub mod Linked
pub mod SplitLevel
pub mod SplitChild
pub mod Shape
pub mod SplitShape
pub mod SplitTree
pub mod Grown
pub mod LeafGrown
pub mod Places
pub mod Insertion
pub mod SplitResult
pub mod SplitInsertion
pub mod AnyHeight
pub mod NewRoot
pub mod RootRun
pub mod RootInsertion
pub mod RootSearch
use mathlib.Core.Path.{fun_ext}
use pclass_vectorized.Prelude.{
  ℕ, zero, suc, ◌+◌, ◌≡◌, refl, sym, ap, ◌∙◌, inl, inr, Bool, Option, none, some, List, arith, ◌==◌,
  if◌then◌else◌, update, update_self, Bool-cases,
}
use pclass_vectorized.Prelude.State.{Run, ok, fail, and_then, pure, for_up, for_down}
use pclass_vectorized.Mempool.Dynamic.{DynamicMempool}
use pclass_vectorized.BTree.{
  Ptr, KeyInfo, Node, Tree, Op, get_key, set_key, set_key_cnt, move_key, modify,
}
use pclass_vectorized.BTree.Navigator.{set_child, move_child, child}

-- A node without its parent, its mask and the dimensions of its keys.
pub record View : Type 0 where
  pub key : ℕ → KeyInfo
  pub link : ℕ → Option Ptr
  pub cnt : ℕ
  pub leaf : Bool
  pub compressed : Bool

abbrev pub view : Node → View
view n = record {
  key = get_key n;
  link = n.child_index;
  cnt = n.key_cnt;
  leaf = n.is_leaf;
  compressed = n.is_compressed;
}

abbrev pub Views : Type 0
Views = Ptr → View

abbrev pub views : Tree → Views
views s q = view (s.node q)

abbrev pub put_key : Ptr → ℕ → KeyInfo → Views → Views
put_key p i k m = update m p (record (m p) { key = update (m p).key i k })

abbrev pub put_child : Ptr → ℕ → Option Ptr → Views → Views
put_child p i c m = update m p (record (m p) { link = update (m p).link i c })

abbrev pub put_cnt : Ptr → ℕ → Views → Views
put_cnt p cnt m = update m p (record (m p) { cnt = cnt })

-- The command succeeds, and what it does to the views is f; the pool, the root and the order stay.
pub record Acts (c : Op (Unit {0})) (s : Tree) (f : Views → Views) : Type 0 where
  pub state : Tree
  pub run : c s ≡ ok tt state
  pub shown : views state ≡ f (views s)
  pub pool : state.pool ≡ s.pool
  pub root : state.root ≡ s.root
  pub order : state.dimension_order ≡ s.dimension_order

pub views-update :
    (s : Tree) (p : Ptr) (n : Node)
    → views (record s { node = update s.node p n }) ≡ update (views s) p (view n)
views-update s p n =
    fun_ext λ q. elim (Bool-cases (q == p)) [ inl e ↦ rw e refl | inr e ↦ rw e refl ]

-- A change of one node.
pub modify-Acts :
    (p : Ptr) (f : Node → Node) (g : View → View) (s : Tree)
    → view (f (s.node p)) ≡ g (view (s.node p))
    → Acts (modify p f) s (λ m. update m p (g (m p)))
modify-Acts p f g s same = record {
  state = record s { node = update s.node p (f (s.node p)) };
  run = refl;
  shown = views-update s p (f (s.node p)) ∙ ap (update (views s) p) same;
  pool = refl;
  root = refl;
  order = refl;
}

pub Acts-refl : (s : Tree) → Acts (pure tt) s (λ m. m)
Acts-refl s = record { state = s; run = refl; shown = refl; pool = refl; root = refl; order = refl }

pub Acts-and_then :
    (c d : Op (Unit {0})) (s : Tree) (f g : Views → Views)
    → (a : Acts c s f) → Acts d a.state g
    → Acts (λ t. and_then (c t) (λ _. d)) s (λ m. g (f m))
Acts-and_then c d s f g a b = record {
  state = b.state;
  run = rw a.run b.run;
  shown = b.shown ∙ ap g a.shown;
  pool = b.pool ∙ a.pool;
  root = b.root ∙ a.root;
  order = b.order ∙ a.order;
}

view-set_key :
    (n : Node) (i : ℕ) (k : KeyInfo)
    → view (set_key n i k) ≡ record (view n) { key = update (get_key n) i k }
unfolding get_key set_key
view-set_key n i k =
    ap (λ f. record (view n) { key = f })
      (fun_ext λ l. elim (Bool-cases (l == i)) [
        | inl e ↦ rw (e, if◌then◌else◌) refl
        | inr e ↦ rw (e, if◌then◌else◌) refl
      ])

pub move_key-Acts :
    (src dst : Ptr) (i j : ℕ) (s : Tree)
    → Acts (move_key src i dst j) s (λ m. put_key dst j ((m src).key i) m)
unfolding move_key
move_key-Acts src dst i j s =
    let k = get_key (s.node src) i in
    let a =
      modify-Acts dst (λ n. set_key n j k) (λ v. record v { key = update v.key j k }) s
        (view-set_key (s.node dst) j k) in
    record {
      state = a.state;
      run = a.run;
      shown = a.shown;
      pool = a.pool;
      root = a.root;
      order = a.order;
    }

-- Writing what is there changes nothing.
pub update_same : (m : Views) (p : Ptr) → update m p (m p) ≡ m
update_same m p = fun_ext λ q. elim (Bool-cases (q == p)) [
  | inl e ↦ let e' : q ≡ p = ground arith in rw e' (update_self m p (m p))
  | inr e ↦ rw (e, if◌then◌else◌) refl
]

pub set_child-Acts :
    (n : Ptr) (i : ℕ) (c : Option Ptr) (s : Tree) → Acts (set_child n i c) s (put_child n i c)
unfolding set_child get_key modify-Acts
set_child-Acts n i none s =
    modify-Acts n (λ m. record m { child_index = update m.child_index i none })
      (λ v. record v { link = update v.link i none }) s refl
set_child-Acts n i (some c) s =
    let a =
      modify-Acts n (λ m. record m { child_index = update m.child_index i (some c) })
        (λ v. record v { link = update v.link i (some c) }) s refl in
    let b = modify-Acts c (λ m. record m { parent = some n }) (λ v. v) a.state refl in
    record {
      state = b.state;
      run = refl;
      shown = b.shown ∙ update_same (views a.state) c ∙ a.shown;
      pool = refl;
      root = refl;
      order = refl;
    }

-- A link is copied.
pub copy_child-Acts :
    (src dst : Ptr) (i j : ℕ) (s : Tree)
    → Acts
        (λ t. and_then (child src i t) (set_child dst j))
        s
        (λ m. put_child dst j ((m src).link i) m)
unfolding child
copy_child-Acts src dst i j s =
    let a = set_child-Acts dst j ((s.node src).child_index i) s in
    record {
      state = a.state;
      run = a.run;
      shown = a.shown;
      pool = a.pool;
      root = a.root;
      order = a.order;
    }

pub move_child-Acts :
    (n dst : Ptr) (i j : ℕ) (s : Tree)
    → Acts (move_child n i dst j) s (λ m. put_child dst j ((m n).link i) m)
unfolding move_child
move_child-Acts n dst i j s = copy_child-Acts n dst i j s

pub set_key_cnt-Acts :
    (p : Ptr) (cnt : ℕ) (s : Tree) → Acts (modify p λ m. set_key_cnt m cnt) s (put_cnt p cnt)
unfolding set_key_cnt get_key
set_key_cnt-Acts p cnt s =
    modify-Acts p (λ m. set_key_cnt m cnt) (λ v. record v { cnt = cnt }) s refl

-- What the loops do.
unfoldable pub fold_up : ℕ → ℕ → (ℕ → Views → Views) → Views → Views
fold_up zero start f m = m
fold_up (suc count) start f m = fold_up count (start + 1) f (f start m)

unfoldable pub fold_down : ℕ → ℕ → (ℕ → Views → Views) → Views → Views
fold_down zero start f m = m
fold_down (suc count) start f m = fold_down count start f (f (start + count) m)

pub for_up-Acts :
    (count start : ℕ) (body : ℕ → Op (Unit {0})) (f : ℕ → Views → Views) (s : Tree)
    → ((j : ℕ) (t : Tree) → Acts (body j) t (f j))
    → Acts (for_up count start body) s (fold_up count start f)
unfolding for_up fold_up
for_up-Acts zero start body f s acts = Acts-refl s
for_up-Acts (suc count) start body f s acts =
    let a = acts start s in
    Acts-and_then (body start) (for_up count (start + 1) body) s (f start)
      (fold_up count (start + 1) f) a (for_up-Acts count (start + 1) body f a.state acts)

pub for_down-Acts :
    (count start : ℕ) (body : ℕ → Op (Unit {0})) (f : ℕ → Views → Views) (s : Tree)
    → ((j : ℕ) (t : Tree) → Acts (body j) t (f j))
    → Acts (for_down count start body) s (fold_down count start f)
unfolding for_down fold_down
for_down-Acts zero start body f s acts = Acts-refl s
for_down-Acts (suc count) start body f s acts =
    let a = acts (start + count) s in
    Acts-and_then (body (start + count)) (for_down count start body) s (f (start + count))
      (fold_down count start f) a (for_down-Acts count start body f a.state acts)
