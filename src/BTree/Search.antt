-- ===== src/BTree/Search.antt =====
-- include/pcv/partition_sort/b_tree_search.h: search in one node, in one level and in all levels of
-- the tree (`search_fn` and `BTreeSearch`). The AVX2 variant is not called by the program.
pub mod Packet
pub mod Levels
pub mod Sequential
pub mod Level
pub mod UniqueKeys
pub mod Meets
pub mod Packed
pub mod PlainLevels
pub mod CompressedNodes
pub mod Deepest
pub mod Bytes
use pclass_vectorized.Prelude.{
  ℕ, zero, suc, ◌+◌, ◌-◌, ◌*◌, ◌/◌, ◌%◌, ◌^◌, Bool, true, false, ◌||◌, not, Option, none, some,
  List, [], ◌∷◌, ◌++◌, ltb, leb, ◌==◌, if◌then◌else◌, length,
}
use pclass_vectorized.Prelude.State.{Fault, Run, ok, fail, pure, throw, ◌>>=◌, ◌>>◌}
use pclass_vectorized.Range.{Range1d, in_range, eq_range, ne_range, lt_range}
use pclass_vectorized.BTree.{
  Ptr, RuleValueInt, RuleSpec, KeyInfo, Node, Tree, Op, load, deref, dim_at, get_key, field,
  is_valid, no_rule,
}
use pclass_vectorized.BTree.Navigator.{child, get_next_layer}

pub record SearchResult : Type 0 where
  pub val_index : ℕ
  pub in_range : Bool

abbrev pub found : ℕ → SearchResult
found i = record { val_index = i; in_range = true }

abbrev pub missed : ℕ → SearchResult
missed i = record { val_index = i; in_range = false }

-- What is searched for: a value (`T val`) or a whole range (`const Range1d<T> &val`).
pub data Key : Type 0 where
  point : ℕ → Key
  whole : Range1d → Key

-- `val < cur.low`
abbrev pub is_below : Key → ℕ → Bool
is_below (point v) low = ltb v low
is_below (whole r) low = ltb r.low low

-- `cur.in_range(val)` or `cur == val`
abbrev pub hits : Key → Range1d → Bool
hits (point v) cur = in_range cur v
hits (whole r) cur = eq_range cur r

-- The loop of `search_seq` at index i, with `count` keys left.
unfoldable pub search_seq_loop : (ℕ → Range1d) → Key → ℕ → ℕ → SearchResult
search_seq_loop keys val zero i = missed i
search_seq_loop keys val (suc count) i =
    let rest = search_seq_loop keys val count (i + 1) in
    if is_below val (keys i).low then missed i else if hits val (keys i) then found i else rest

-- `search_seq`
unfoldable pub search_seq : Node → Key → SearchResult
unfolding search_seq_loop
search_seq n val = search_seq_loop n.keys val n.key_cnt 0

-- `search_compressed_seq`
unfoldable pub search_compressed_seq : Node → Key → SearchResult
search_compressed_seq n val = record { val_index = 0; in_range = hits val (n.keys 0) }

-- `search_possition_1d`: the node and the index where the search ended, if it found something.
unfoldable pub search_possition_1d : ℕ → Option Ptr → Key → Op (Option (Ptr × ℕ))
unfolding search_seq search_compressed_seq child
search_possition_1d zero n val = throw Fault.out_of_fuel
search_possition_1d (suc fuel) none val = pure none
search_possition_1d (suc fuel) (some p) val = do
  n ← load p
  let s = if n.is_compressed then search_compressed_seq n val else search_seq n val
  if s.in_range
      then pure (some (p, s.val_index))
      else if n.is_leaf || n.is_compressed
      then pure none
      else do c ← child p s.val_index; search_possition_1d fuel c val

-- `getPred`: the last key of the subtree before key idx.
unfoldable pub right_most : ℕ → Option Ptr → Op Ptr
unfolding child
right_most zero cur = throw Fault.out_of_fuel
right_most (suc fuel) cur = do
  p ← deref cur
  n ← load p
  if n.is_leaf then pure p else do c ← child p n.key_cnt; right_most fuel c

unfoldable pub get_pred : ℕ → Ptr → ℕ → Op KeyInfo
unfolding right_most child get_key
get_pred fuel p idx = do
  c ← child p idx
  q ← right_most fuel c
  n ← load q
  pure (get_key n (n.key_cnt - 1))

-- `getSucc`: the first key of the subtree behind key idx.
unfoldable pub left_most : ℕ → Option Ptr → Op Ptr
unfolding child
left_most zero cur = throw Fault.out_of_fuel
left_most (suc fuel) cur = do
  p ← deref cur
  n ← load p
  if n.is_leaf then pure p else do c ← child p 0; left_most fuel c

unfoldable pub get_succ : ℕ → Ptr → ℕ → Op KeyInfo
unfolding left_most child get_key
get_succ fuel p idx = do c ← child p (idx + 1); q ← left_most fuel c; n ← load q; pure (get_key n 0)

-- `findKey`, at index i with `count` keys left.
unfoldable pub find_key_loop : (ℕ → Range1d) → Range1d → ℕ → ℕ → ℕ
find_key_loop keys k zero i = i
find_key_loop keys k (suc count) i =
    let rest = find_key_loop keys k count (i + 1) in if lt_range (keys i) k then rest else i

unfoldable pub find_key : Node → Range1d → ℕ
unfolding find_key_loop
find_key n k = find_key_loop n.keys k n.key_cnt 0
