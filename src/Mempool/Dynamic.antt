-- ===== src/Mempool/Dynamic.antt =====
-- include/pcv/partition_sort/mempool_dynamic.h: `DynamicMempool`, in a build with NDEBUG (the
-- assertions and the checks of `getById` and `getId` are compiled out; the assertions of `get` and
-- `release` on the links are functions of their own). The lock is not modelled: the
-- pools of the trees are instantiated with THREAD_SAFE = false.
pub mod FreeList
pub mod Double
use pclass_vectorized.Prelude.{
  ℕ, zero, suc, ◌+◌, ◌-◌, Option, none, some, Bool, true, false, not, ◌&&◌, ltb, ◌==◌,
  if◌then◌else◌, update,
}
use pclass_vectorized.Prelude.State.{Cmd, Fault, ok, fail}

-- `next_free` of a slot is null if the slot is allocated or is the last one of the free list.
pub record DynamicMempool : Type 0 where
  pub next_free : ℕ → Option ℕ
  pub first_free : Option ℕ
  pub item_cnt : ℕ

-- The constructor: every slot is free, each one linked to the next.
unfoldable pub new : ℕ → DynamicMempool
new item_cnt = record {
  next_free = λ i. if i + 1 == item_cnt then none else some (i + 1);
  first_free = some 0;
  item_cnt = item_cnt;
}

-- `get`, without the construction of the object
unfoldable pub get : Cmd DynamicMempool ℕ
get m = elim m.first_free [
  | none ↦ fail Fault.bad_alloc
  | some i ↦ ok i (record m { next_free = update m.next_free i none; first_free = m.next_free i })
]

-- `release`
unfoldable pub release : ℕ → Cmd DynamicMempool (Unit {0})
release i m = elim (m.next_free i) [
  | some _ ↦ fail Fault.runtime_error
  | none ↦ ok tt (record m { next_free = update m.next_free i m.first_free; first_free = some i })
]

-- The assertions of `get` on its links, in a build without NDEBUG: after a slot is taken, another one is free, and
-- behind it a third one; the new first link is neither to itself nor in a circle of two.
unfoldable pub get_assertions : DynamicMempool → Bool
get_assertions m = elim m.first_free [
  | none ↦ true
  | some i ↦ elim (m.next_free i) [
    | none ↦ false
    | some j ↦
        let next = update m.next_free i none in
        elim (next j) [
          | none ↦ false
          | some k ↦ not (k == j) && elim (next k) [ none ↦ true | some l ↦ not (l == j) ]
        ]
  ]
]

-- The assertions of `release`, in such a build.
unfoldable pub release_assertions : ℕ → DynamicMempool → Bool
release_assertions i m = elim m.first_free [
  | none ↦ false
  | some j ↦
      let next = update m.next_free i (some j) in
      ltb i m.item_cnt && not (j == i) && elim (next j) [ none ↦ true | some k ↦ not (k == i) ]
]

-- The loop of `size`; the list has at most `item_cnt` slots, so that this is fuel enough.
unfoldable pub count_free : ℕ → (ℕ → Option ℕ) → Option ℕ → ℕ → Option ℕ
count_free zero next i unused = none
count_free (suc fuel) next none unused = some unused
count_free (suc fuel) next (some i) unused = count_free fuel next (next i) (unused + 1)

-- `size`: 0 if the free list is empty, else the slots that are not on it.
unfoldable pub size : DynamicMempool → Option ℕ
size m = elim m.first_free [
  | none ↦ some 0
  | some i ↦ elim (count_free (m.item_cnt + 1) m.next_free (some i) 0) [
    | none ↦ none
    | some unused ↦ some (m.item_cnt - unused)
  ]
]
