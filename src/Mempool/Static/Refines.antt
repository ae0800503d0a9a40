-- ===== src/Mempool/Static/Refines.antt =====
-- include/pcv/partition_sort/mempool.h: sequences of calls of `StaticMempool`.
use pclass_vectorized.Prelude.{ℕ, suc, ◌<◌, ◌≡◌, refl, inl, inr, List, [], ◌∷◌, ap, All, Bool-cases}
use pclass_vectorized.Prelude.State.{ok}
use pclass_vectorized.Mempool.Slots.{has, slots}
use pclass_vectorized.Mempool.Static.{StaticMempool, zeroed, init, get, release, size}
use pclass_vectorized.Mempool.Static.Spec.{
  PoolOps, Call, get_call, size_call, release_call, returns, call, outcomes, free_list_pool, InPool,
}
use pclass_vectorized.Mempool.Static.FreeList.{
  IsFree, take_first-cons, get-IsFree, release_free, release_taken, size-IsFree, init-IsFree,
}

abbrev pub static_pool : ℕ → PoolOps StaticMempool
static_pool item_cnt = record { get = get item_cnt; release = release; size = size item_cnt }

module _ (item_cnt : ℕ) where
  -- A call of the static pool and the same call of the list return the same, and the pool's free
  -- slots are the list again.
  abbrev Agrees : Call → StaticMempool → List ℕ → Type 0
  Agrees c m free =
      ((call (static_pool item_cnt) c m).0 ≡ (call (free_list_pool item_cnt) c free).0)
      × IsFree item_cnt (call (static_pool item_cnt) c m).1
          (call (free_list_pool item_cnt) c free).1

  call-get : (m : StaticMempool) (free : List ℕ) → IsFree item_cnt m free → Agrees get_call m free
  call-get m [] f = rw (get-IsFree m [] f) (refl, f)
  call-get m (i ∷ free) f = let (m', e, f') = get-IsFree m (i ∷ free) f in rw e (refl, f')

  call-release :
      (m : StaticMempool) (free : List ℕ) (i : ℕ)
      → IsFree item_cnt m free
      → i < item_cnt
      → Agrees (release_call i) m free
  call-release m free i f b = elim (Bool-cases (has i free)) [
    | inl h ↦ rw (release_free m free i f h) (rw h (refl, f))
    | inr h ↦ let (m', e, f') = release_taken m free i f b h in rw e (rw h (refl, f'))
  ]

  call-Agrees :
      (c : Call) (m : StaticMempool) (free : List ℕ)
      → IsFree item_cnt m free
      → InPool item_cnt c
      → Agrees c m free
  call-Agrees get_call m free f b = call-get m free f
  call-Agrees size_call m free f b = rw (size-IsFree m free f) (refl, f)
  call-Agrees (release_call i) m free f b = call-release m free i f b

  outcomes-IsFree :
      (cs : List Call) (m : StaticMempool) (free : List ℕ)
      → IsFree item_cnt m free
      → All (InPool item_cnt) cs
      → outcomes (static_pool item_cnt) cs m ≡ outcomes (free_list_pool item_cnt) cs free
  outcomes-IsFree [] m free f b = refl
  outcomes-IsFree (c ∷ cs) m free f b =
      let (same, f') = call-Agrees c m free f b.0 in cc (same, outcomes-IsFree cs _ _ f' b.1)

get-zeroed :
    (n : ℕ) → (m : StaticMempool) × (get (suc n) zeroed ≡ ok 0 m) × IsFree (suc n) m (slots n 1)
unfolding get init slots
get-zeroed n = let f = init-IsFree n in take_first-cons (init (suc n) zeroed) refl f.chain f.taken

-- From the zeroed static storage on, every sequence of calls of a pool of n + 1 slots that starts
-- with `get` and releases slots of the pool only returns and throws what the list of free slots
-- 0, ..., n does: `get` hands out the first free slot or throws `bad_alloc`, the release of a free
-- slot throws a runtime error, any other release puts the slot in front, and `size` is the number of
-- slots that are not free.
pub outcomes-static_pool :
    (n : ℕ) (cs : List Call)
    → All (InPool (suc n)) cs
    → outcomes (static_pool (suc n)) (get_call ∷ cs) zeroed
      ≡ outcomes (free_list_pool (suc n)) (get_call ∷ cs) (slots (suc n) 0)
unfolding slots
outcomes-static_pool n cs b =
    let (m, e, f) = get-zeroed n in
    let rest = outcomes-IsFree (suc n) cs m (slots n 1) f b in rw e (ap (◌∷◌ (returns 0)) rest)
