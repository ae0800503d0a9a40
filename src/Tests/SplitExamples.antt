-- ===== src/Tests/SplitExamples.antt =====
-- The theorems about `split_child`, `insert_non_full` and `insert_to_root` at an inner node with two
-- leaves, the second one of which is full, and at that leaf.
use pclass_vectorized.Prelude.{
  inl, inr, ℕ, zero, suc, ◌+◌, ◌*◌, ◌<◌, ◌≤◌, ◌≡◌, ◌⊎◌, refl, subst, true, false, Option, none,
  some, [], ◌∷◌, arith, update, ◌==◌, if◌then◌else◌,
}
use pclass_vectorized.Prelude.State.{ok}
use pclass_vectorized.Range.{range, in_range}
use pclass_vectorized.Mempool.Dynamic.{DynamicMempool}
use pclass_vectorized.Mempool.Dynamic.FreeList.{IsFree, nil, cons}
use pclass_vectorized.BTree.{BTreeCfg, Ptr, KeyInfo, Node, Tree, no_rule, get_key}
use pclass_vectorized.BTree.Search.{point, search_possition_1d}
use pclass_vectorized.BTree.Search.Level.{IsLevel}
use pclass_vectorized.BTree.Insert.{insert_to_root}
use pclass_vectorized.BTree.Insert.Cookie.{InsertCookie, actual_key}
use pclass_vectorized.BTree.Views.{views}
use pclass_vectorized.BTree.Views.Levels.{Has, Has-cases, Under-leaf}
use pclass_vectorized.BTree.Views.Places.{Apart}
use pclass_vectorized.BTree.Views.RootSearch.{Finds, search_possition_1d-insert_to_root}

abbrev leaf_node : ℕ → ℕ → Node
leaf_node first cnt = record {
  keys = λ l. range (first + 2 * l) (first + 2 * l);
  dim_index = λ _. 0;
  value = λ _. no_rule;
  next_level = λ _. none;
  child_index = λ _. none;
  key_mask = 1;
  key_cnt = cnt;
  is_leaf = true;
  is_compressed = false;
  parent = some 0;
}

abbrev two_children : ℕ → Option Ptr
two_children zero = some 1
two_children (suc j) = some 2

abbrev family : Ptr → Node
family zero = record (leaf_node 5 1) { is_leaf = false; child_index = two_children; parent = none }
family (suc zero) = leaf_node 1 1
family (suc (suc p)) = leaf_node 10 3

abbrev with_slot : DynamicMempool
with_slot = record { next_free = λ _. none; first_free = some 3; item_cnt = 4 }

abbrev used_up : DynamicMempool
used_up = record { next_free = update (λ _. none) 3 none; first_free = none; item_cnt = 4 }

abbrev full_child : Tree
full_child = record { node = family; pool = with_slot; root = some 0; dimension_order = 0 ∷ [] }

abbrev cfg : BTreeCfg
cfg = record { key_bits = 16; d = 1; t = 2; path_compression = false }

-- An insertion that splits the full leaf.
abbrev cookie : InsertCookie
cookie = record {
  level = 0;
  requires_levels = 1;
  rule = record { ranges = range 20 21 ∷ []; value = record { priority = 7; rule_id = 9 } };
}

Apart-leaf :
    (p : ℕ)
    → (full_child.node p).is_leaf ≡ true
    → ((l : ℕ) → l < (full_child.node p).key_cnt → ((full_child.node p).keys l).high < 20)
    → (x : KeyInfo) → Has (views full_child) (some p) x
    → Apart x.key (range 20 21)
unfolding get_key
Apart-leaf p leaf small x held = elim (Has-cases (views full_child) p x held) [
  | inl (l, lt, e) ↦ subst (λ (y : KeyInfo). Apart y.key (range 20 21)) e (inl (small l lt))
  | inr (j, inner, le, held') ↦ cc
]

actual_20 : (s : Tree) → s.dimension_order ≡ 0 ∷ [] → actual_key cookie s ≡ ok (range 20 21) s
unfolding actual_key
actual_20 s e = rw e refl

-- The full leaf as the root.
abbrev with_slots : DynamicMempool
with_slots = record {
  next_free = λ i. if i == 3 then some 4 else none;
  first_free = some 3;
  item_cnt = 5;
}

with_slots-IsFree : IsFree with_slots (3 ∷ 4 ∷ [])
with_slots-IsFree = record {
  chain = cons 3 refl refl (cons 4 refl refl nil);
  taken = λ i lt out. ground arith;
  fits = omega arith;
}

abbrev full_root : Tree
full_root = record full_child { pool = with_slots; root = some 2 }

search_possition_1d-insert_to_root_example :
    (t : Tree) × (top : Ptr) × (height : ℕ) × (insert_to_root cfg 3 (some 2) cookie full_root
      ≡ ok (some top) t)
    × (height ≤ 2)
    × IsLevel t.node height (some top)
    × ((v : ℕ) (x : KeyInfo)
        → Has (views full_root) (some 2) x
          ⊎ (record { key = range 20 21; value = cookie.rule.value; next_level = none } ≡ x)
        → in_range x.key v ≡ true
        → Finds 3 t top v x)
    × ((v : ℕ)
        → ((x : KeyInfo) → Has (views full_root) (some 2) x → in_range x.key v ≡ false)
        → in_range (range 20 21) v ≡ false
        → search_possition_1d 3 (some top) (point v) t ≡ ok none t)
search_possition_1d-insert_to_root_example =
    search_possition_1d-insert_to_root cfg cookie (range 20 21) 3 3 1 2 full_root (3 ∷ 4 ∷ [])
      (omega arith) (omega arith) (omega arith) refl (actual_20 full_root refl) (omega arith)
      (((λ i lt. omega arith), λ i j less lt. omega arith), refl, λ inner. cc)
      (omega arith, λ inner. cc) (Apart-leaf 2 refl (λ l lt. omega arith)) with_slots-IsFree
      (omega arith) (λ q u. rw (Under-leaf (views full_root) 2 q refl u) refl)
