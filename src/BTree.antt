-- ===== src/BTree.antt =====
-- include/pcv/partition_sort: the data of the layered B-tree (b_tree_cfg.h, rule_value_int.h,
-- key_info.h, b_tree_node.h, b_tree.h), in a build with NDEBUG. Nodes live in a `DynamicMempool`; a
-- pointer to a node is the index of its slot (`getId` and `getById` convert between the two), and a
-- null pointer and the stored INVALID_INDEX are both `none`. Arrays of fixed size are functions.
pub mod Navigator
pub mod Search
pub mod Insert
pub mod Remove
pub mod KeyIterator
pub mod CollisionCheck
pub mod ToRules
pub mod LeafKeys
pub mod Views
use pclass_vectorized.Prelude.{
  ℕ, ◌+◌, ◌-◌, ◌*◌, ◌%◌, ◌^◌, Bool, true, false, ◌&&◌, not, Option, none, some, List, ◌==◌, update,
  get_elem?, get_or,
}
use pclass_vectorized.Prelude.State.{Cmd, Fault, Run, ok, fail, ◌>>=◌, ◌>>◌}
use pclass_vectorized.Range.{Range1d, range, max_value}
use pclass_vectorized.Mempool.Dynamic.{DynamicMempool}
use pclass_vectorized.Mempool.Dynamic

-- `_BTreeCfg`, with the width of the unsigned type `Key_t` in bits
pub record BTreeCfg : Type 0 where
  pub key_bits : ℕ
  pub d : ℕ
  pub t : ℕ
  pub path_compression : Bool

-- `RuleValueInt`
pub record RuleValueInt : Type 0 where
  pub priority : ℕ
  pub rule_id : ℕ

abbrev pub invalid_rule : ℕ
invalid_rule = 2 ^ 24 - 1

-- The constructor with no argument.
abbrev pub no_rule : RuleValueInt
no_rule = record { priority = 0; rule_id = invalid_rule }

-- The constructor with two arguments; the fields have 8 and 24 bits.
unfoldable pub rule_value : ℕ → ℕ → RuleValueInt
rule_value priority rule_id = record { priority = priority % 2 ^ 8; rule_id = rule_id % 2 ^ 24 }

abbrev pub is_valid : RuleValueInt → Bool
is_valid v = not (v.rule_id == invalid_rule)

-- `operator==`
abbrev pub eq_value : RuleValueInt → RuleValueInt → Bool
eq_value a b = (a.priority == b.priority) && (a.rule_id == b.rule_id)

-- `rule_spec_t`: a range for each field, and the value.
pub record RuleSpec : Type 0 where
  pub ranges : List Range1d
  pub value : RuleValueInt

-- `rule.first[d]`; every d that is asked for is below D, the length of the list.
abbrev pub field : RuleSpec → ℕ → Range1d
field r d = get_or r.ranges d (range 0 0)

abbrev pub Ptr : Type 0
Ptr = ℕ

-- `_KeyInfo`
pub record KeyInfo : Type 0 where
  pub key : Range1d
  pub value : RuleValueInt
  pub next_level : Option Ptr

-- `_BTreeNode`
pub record Node : Type 0 where
  pub keys : ℕ → Range1d
  pub dim_index : ℕ → ℕ
  pub value : ℕ → RuleValueInt
  pub next_level : ℕ → Option Ptr
  pub child_index : ℕ → Option Ptr
  pub key_mask : ℕ
  pub key_cnt : ℕ
  pub is_leaf : Bool
  pub is_compressed : Bool
  pub parent : Option Ptr

abbrev pub min_degree : BTreeCfg → ℕ
min_degree cfg = cfg.t - 1

abbrev pub max_degree : BTreeCfg → ℕ
max_degree cfg = 2 * cfg.t - 1

unfoldable pub get_key : Node → ℕ → KeyInfo
get_key n i = record { key = n.keys i; value = n.value i; next_level = n.next_level i }

unfoldable pub set_key : Node → ℕ → KeyInfo → Node
set_key n i k = record n {
  keys = update n.keys i k.key;
  value = update n.value i k.value;
  next_level = update n.next_level i k.next_level;
}

unfoldable pub set_dim : Node → ℕ → ℕ → Node
set_dim n i d = record n { dim_index = update n.dim_index i d }

unfoldable pub set_key_cnt : Node → ℕ → Node
set_key_cnt n cnt = record n { key_cnt = cnt; key_mask = 2 ^ cnt - 1 }

unfoldable pub clean_children : Node → Node
clean_children n = record n { next_level = λ _. none; child_index = λ _. none }

-- The constructor of `_BTreeNode`. `dim_index` is left without a value there; it is 0 here, and the
-- code reads no entry before it has written it.
unfoldable pub new_node : BTreeCfg → Node
new_node cfg = record {
  keys = λ _. range (max_value cfg.key_bits) (max_value cfg.key_bits);
  dim_index = λ _. 0;
  value = λ _. no_rule;
  next_level = λ _. none;
  child_index = λ _. none;
  key_mask = 0;
  key_cnt = 0;
  is_leaf = true;
  is_compressed = false;
  parent = none;
}

-- `_BTree`, with the memory that its allocator manages.
pub record Tree : Type 0 where
  pub node : Ptr → Node
  pub pool : DynamicMempool
  pub root : Option Ptr
  pub dimension_order : List ℕ

abbrev pub Op : Type 0 → Type 0
Op A = Cmd Tree A

-- `*p`, for a pointer that is not null
abbrev pub load : Ptr → Op Node
load p s = ok (s.node p) s

-- the node at `p` is changed in place
abbrev pub modify : Ptr → (Node → Node) → Op (Unit {0})
modify p f s = ok tt (record s { node = update s.node p (f (s.node p)) })

-- a pointer that is about to be followed
abbrev pub deref : Option Ptr → Op Ptr
deref none s = fail Fault.null_pointer
deref (some p) s = ok p s

-- `tree.root`
abbrev pub get_root : Op (Option Ptr)
get_root s = ok s.root s

abbrev pub set_root : Option Ptr → Op (Unit {0})
set_root p s = ok tt (record s { root = p })

-- `tree.dimension_order`
abbrev pub get_order : Op (List ℕ)
get_order s = ok s.dimension_order s

-- `dimension_order[i]`
unfoldable pub dim_at : ℕ → Op ℕ
dim_at i s = elim (get_elem? s.dimension_order i) [
  | none ↦ fail Fault.out_of_range
  | some d ↦ ok d s
]

-- `node_allocator.get()`: a slot with a newly constructed node.
unfoldable pub alloc : BTreeCfg → Op Ptr
unfolding Dynamic.get new_node
alloc cfg s = elim (Dynamic.get s.pool) [
  | fail e ↦ fail e
  | ok p pool ↦ ok p (record s { pool = pool; node = update s.node p (new_node cfg) })
]

-- `node_allocator.release(p)`
unfoldable pub dealloc : Ptr → Op (Unit {0})
unfolding Dynamic.release
dealloc p s = elim (Dynamic.release p s.pool) [
  | fail e ↦ fail e
  | ok _ pool ↦ ok tt (record s { pool = pool })
]

-- `src.move_key(src_i, dst, dst_i)`
unfoldable pub move_key : Ptr → ℕ → Ptr → ℕ → Op (Unit {0})
unfolding get_key set_key
move_key src src_i dst dst_i = do n ← load src; modify dst (λ m. set_key m dst_i (get_key n src_i))
