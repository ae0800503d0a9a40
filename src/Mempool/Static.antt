-- ===== src/Mempool/Static.antt =====
-- include/pcv/partition_sort/mempool.h: `StaticMempool` with THREAD_SAFE = false, in a build with
-- NDEBUG (the assertions and the checks of `getById` and `getId` are compiled out). The end of the
-- free list is the pointer `mempool_info.end()`, here the slot `item_cnt`; the static arrays start
-- with zeros, so that the first link is null until the first `get`.
pub mod Spec
pub mod FreeList
pub mod Refines
use pclass_vectorized.Prelude.{
  ℕ, zero, suc, ◌+◌, ◌-◌, Option, none, some, ◌==◌, if◌then◌else◌, update,
}
use pclass_vectorized.Prelude.State.{Cmd, Fault, ok, fail, ◌>>=◌, pure}

pub record StaticMempool : Type 0 where
  pub next_free : ℕ → Option ℕ
  pub m_first_free : Option ℕ

-- The static storage before the first call.
abbrev pub zeroed : StaticMempool
zeroed = record { next_free = λ i. none; m_first_free = none }

-- `get` on a list that has been set up: the first slot is taken off.
unfoldable pub take_first : Cmd StaticMempool ℕ
take_first m = elim m.m_first_free [
  | none ↦ fail Fault.null_pointer
  | some i ↦ ok i (record m { next_free = update m.next_free i none; m_first_free = m.next_free i })
]

unfoldable pub release : ℕ → Cmd StaticMempool (Unit {0})
release i m = elim (m.next_free i) [
  | some _ ↦ fail Fault.runtime_error
  | none ↦
      ok tt (record m { next_free = update m.next_free i m.m_first_free; m_first_free = some i })
]

module _ (item_cnt : ℕ) where
  unfoldable pub init : StaticMempool → StaticMempool
  init m = record m {
    next_free = update (λ i. some (i + 1)) (item_cnt - 1) (some item_cnt);
    m_first_free = some 0;
  }

  unfoldable pub get : Cmd StaticMempool ℕ
  get m = elim m.m_first_free [
    | none ↦ take_first (init m)
    | some i ↦ if i == item_cnt then fail Fault.bad_alloc else take_first m
  ]

  -- The loop of `size`; the list has at most `item_cnt` slots, so that this is fuel enough.
  unfoldable pub count_free : ℕ → Option ℕ → ℕ → Cmd StaticMempool ℕ
  count_free zero p unused m = fail Fault.out_of_fuel
  count_free (suc fuel) none unused m = fail Fault.null_pointer
  count_free (suc fuel) (some i) unused m =
      let rest = count_free fuel (m.next_free i) (unused + 1) m in
      if i == item_cnt then ok unused m else rest

  unfoldable pub size : Cmd StaticMempool ℕ
  size m = elim m.m_first_free [
    | none ↦ ok 0 m
    | some i ↦ (count_free (item_cnt + 1) (some i) 0 >>= λ unused. pure (item_cnt - unused)) m
  ]
