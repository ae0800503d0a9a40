-- ===== src/Tests/Trees.antt =====
-- Runs of the layered B-tree: two fields of 16 bits and T = 4, with and without path compression.
use pclass_vectorized.Prelude.{ℕ, ◌≡◌, refl, true, false, Option, none, some, List, [], ◌∷◌}
use pclass_vectorized.Prelude.State.{Run, Fault, ok, fail, pure, ◌>>◌}
use pclass_vectorized.Range.{range}
use pclass_vectorized.Mempool.Dynamic.{new}
use pclass_vectorized.BTree.{BTreeCfg, RuleSpec, RuleValueInt, Tree, Op, new_node}
use pclass_vectorized.BTree.Search.Levels.{search}
use pclass_vectorized.BTree.Insert.{insert}

abbrev cfg : BTreeCfg
cfg = record { key_bits = 16; d = 2; t = 4; path_compression = true }

abbrev plain : BTreeCfg
plain = record cfg { path_compression = false }

abbrev empty : Tree
empty = record {
  node = λ _. new_node cfg;
  pool = new 64;
  root = none;
  dimension_order = 0 ∷ 1 ∷ [];
}

abbrev value : ℕ → RuleValueInt
value n = record { priority = n; rule_id = n }

abbrev rule : ℕ → ℕ → ℕ → RuleSpec
rule a b n = record { ranges = range a a ∷ range b b ∷ []; value = value n }

abbrev packet : ℕ → ℕ → ℕ → ℕ
packet a b ℕ.zero = a
packet a b d = b

result : {A : Type 0} → Run Tree A → Option A
result (ok a s) = some a
result (fail e) = none

abbrev fault : {A : Type 0} → Run Tree A → Option Fault
fault (ok a s) = none
fault (fail e) = some e

abbrev insert_all : BTreeCfg → List RuleSpec → Op (Unit {0})
insert_all c [] = pure tt
insert_all c (r ∷ rs) = do insert c 40 r; insert_all c rs

abbrev two_rules : List RuleSpec
two_rules = rule 1 2 12 ∷ rule 1 3 13 ∷ []

find_second : result ((do insert_all cfg two_rules; search 40 (packet 1 3)) empty) ≡ some (value 13)
unfolding result insert search new new_node
find_second = refl
