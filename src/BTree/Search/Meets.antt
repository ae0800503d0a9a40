-- ===== src/BTree/Search/Meets.antt =====
-- What the search in all levels is to return: the rule at the end of the longest chain of keys that a
-- packet meets.
use pclass_vectorized.Prelude.{
  ℕ, zero, suc, ◌+◌, ◌-◌, ◌<◌, ◌≤◌, ◌≡◌, ◌⊎◌, Bool, true, false, Option, none, some, List, length,
  get_or,
}
use pclass_vectorized.Range.{in_range}
use pclass_vectorized.BTree.{Ptr, Node, RuleValueInt, is_valid}
use pclass_vectorized.BTree.Search.Level.{Holds, IsLevel}

-- A compressed node: a leaf of two keys or more, of which only the last one may have a link.
pub record IsCompressed (n : Node) : Type 0 where
  pub compressed : n.is_compressed ≡ true
  pub leaf : n.is_leaf ≡ true
  pub many : 2 ≤ n.key_cnt
  pub links : (k : ℕ) → k + 1 < n.key_cnt → n.next_level k ≡ none

module _ (mem : Ptr → Node) (order : List ℕ) where
  -- Under the link of level i there are at most `depth` levels and compressed nodes. A level is a search
  -- tree of at most height h; a compressed node stands for as many levels as it has keys. The order has
  -- a dimension for each of them at which the search starts.
  abbrev pub IsTree : ℕ → ℕ → ℕ → Option Ptr → Type 0
  IsTree h depth i none = Unit {0}
  IsTree h zero i (some p) = ⊥
  IsTree h (suc depth) i (some p) =
      (i < length order)
      × ((IsLevel mem h (some p)
            × ((q k : ℕ) → Holds mem (some p) q k → IsTree h depth (i + 1) ((mem q).next_level k)))
          ⊎ (IsCompressed (mem p)
              × IsTree h depth (i + (mem p).key_cnt) ((mem p).next_level ((mem p).key_cnt - 1))))

  -- The packet meets key k of the compressed node p of level i.
  abbrev pub meets_key : (ℕ → ℕ) → Ptr → ℕ → ℕ → Bool
  meets_key val p i zero = in_range ((mem p).keys 0) (val (get_or order i 0))
  meets_key val p i (suc k) = in_range ((mem p).keys (suc k)) (val ((mem p).dim_index (suc k)))

  -- The packet meets a key of the level i, a key of the level under that one, and so on: a chain of
  -- n + 1 keys, each with the packet's value of the key's dimension in it. In a compressed node the
  -- keys follow each other. The value is the one that stands at the last key.
  pub data Meets (val : ℕ → ℕ) : Option Ptr → ℕ → ℕ → RuleValueInt → Type 0 where
    last :
        {p : Option Ptr} {i q k : ℕ}
        → Holds mem p q k
        → (mem q).is_compressed ≡ false
        → in_range ((mem q).keys k) (val (get_or order i 0)) ≡ true
        → Meets val p i 0 ((mem q).value k)
    onto :
        {p : Option Ptr} {i q k n : ℕ} {v : RuleValueInt}
        → Holds mem p q k
        → (mem q).is_compressed ≡ false
        → in_range ((mem q).keys k) (val (get_or order i 0)) ≡ true
        → Meets val ((mem q).next_level k) (i + 1) n v
        → Meets val p i (suc n) v
    within :
        {p : Ptr} {i k : ℕ}
        → (mem p).is_compressed ≡ true
        → k < (mem p).key_cnt
        → ((j : ℕ) → j ≤ k → meets_key val p i j ≡ true)
        → Meets val (some p) i k ((mem p).value k)
    through :
        {p : Ptr} {i n m : ℕ} {v : RuleValueInt}
        → (mem p).is_compressed ≡ true
        → ((j : ℕ) → j < (mem p).key_cnt → meets_key val p i j ≡ true)
        → m ≡ (mem p).key_cnt + n
        → Meets val ((mem p).next_level ((mem p).key_cnt - 1)) (i + (mem p).key_cnt) n v
        → Meets val (some p) i m v

  -- No rule's value stands at the end of a chain of more than n keys.
  abbrev pub NoneBeyond : (ℕ → ℕ) → Option Ptr → ℕ → ℕ → Type 0
  NoneBeyond val p i n =
      (n' : ℕ) (v : RuleValueInt) → n ≤ n' → Meets val p i n' v → is_valid v ≡ false

  -- The result is the value of the rule at the end of the longest chain that ends at a rule's value,
  -- and `res` if there is none.
  abbrev pub IsDeepest : (ℕ → ℕ) → Option Ptr → ℕ → RuleValueInt → RuleValueInt → Type 0
  IsDeepest val p i res r =
      ((r ≡ res) × NoneBeyond val p i 0)
      ⊎ ((n : ℕ) × Meets val p i n r × (is_valid r ≡ true) × NoneBeyond val p i (suc n))
