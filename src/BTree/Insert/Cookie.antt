-- ===== src/BTree/Insert/Cookie.antt =====
-- include/pcv/partition_sort/b_tree_insert.h: the state of an insertion (`InsertCookie`).
use pclass_vectorized.Prelude.{ℕ, zero, suc, ◌+◌, ◌-◌, Bool, List, ltb, if◌then◌else◌, get_or}
use pclass_vectorized.Prelude.State.{pure, ◌>>=◌}
use pclass_vectorized.Range.{Range1d, is_wildcard}
use pclass_vectorized.BTree.{BTreeCfg, RuleSpec, Op, dim_at, field}

-- The order of the dimensions is the tree's.
pub record InsertCookie : Type 0 where
  pub level : ℕ
  pub requires_levels : ℕ
  pub rule : RuleSpec

-- The loop of `total_levels_required_cnt` from index `count - 1` down.
unfoldable pub total_levels_required_cnt : BTreeCfg → List ℕ → RuleSpec → ℕ → ℕ
total_levels_required_cnt cfg order rule zero = 1
total_levels_required_cnt cfg order rule (suc i) =
    let rest = total_levels_required_cnt cfg order rule i in
    if is_wildcard cfg.key_bits (field rule (get_or order i 0)) then rest else i + 1

unfoldable pub new_cookie : BTreeCfg → List ℕ → RuleSpec → InsertCookie
unfolding total_levels_required_cnt
new_cookie cfg order rule = record {
  level = 0;
  requires_levels = total_levels_required_cnt cfg order rule cfg.d;
  rule = rule;
}

-- `get_actual_key`
unfoldable pub actual_key : InsertCookie → Op Range1d
unfolding dim_at
actual_key cookie = do d ← dim_at cookie.level; pure (field cookie.rule d)

abbrev pub additional_level_required_cnt : InsertCookie → ℕ
additional_level_required_cnt cookie = cookie.requires_levels - cookie.level - 1

abbrev pub required_more_levels : InsertCookie → Bool
required_more_levels cookie = ltb (cookie.level + 1) cookie.requires_levels

-- `cookie.level++`
abbrev pub down : InsertCookie → InsertCookie
down cookie = record cookie { level = cookie.level + 1 }
