-- ===== src/Mempool/Static/Spec.antt =====
-- What a pool of slots promises: the free slots are a list, `get` takes the first one, `release` puts
-- a slot in front, and sequences of calls are compared by what they return. A call that throws leaves
-- the pool as it was: the exceptions of mempool.h are thrown before the first write.
use pclass_vectorized.Prelude.{ℕ, ◌-◌, ◌<◌, List, [], ◌∷◌, if◌then◌else◌, length}
use pclass_vectorized.Prelude.State.{Cmd, Run, Fault, ok, fail}
use pclass_vectorized.Mempool.Slots.{has}

-- The operations of a pool with states S.
pub record PoolOps (S : Type 0) : Type 0 where
  pub get : Cmd S ℕ
  pub release : ℕ → Cmd S (Unit {0})
  pub size : Cmd S ℕ

pub data Call : Type 0 where
  get_call size_call : Call
  release_call : ℕ → Call

pub data Outcome : Type 0 where
  returns : ℕ → Outcome
  returns_void : Outcome
  throws : Fault → Outcome

module _ {S : Type 0} where
  abbrev pub outcome : {A : Type 0} → (A → Outcome) → S → Run S A → Outcome × S
  outcome f s (ok a t) = (f a, t)
  outcome f s (fail e) = (throws e, s)

  abbrev pub call : PoolOps S → Call → S → Outcome × S
  call pool get_call s = outcome returns s (pool.get s)
  call pool size_call s = outcome returns s (pool.size s)
  call pool (release_call i) s = outcome (λ _. returns_void) s (pool.release i s)

  -- What a sequence of calls returns.
  abbrev pub outcomes : PoolOps S → List Call → S → List Outcome
  outcomes pool [] s = []
  outcomes pool (c ∷ cs) s = (call pool c s).0 ∷ outcomes pool cs (call pool c s).1

abbrev pub spec_get : Cmd (List ℕ) ℕ
spec_get [] = fail Fault.bad_alloc
spec_get (i ∷ free) = ok i free

-- A pool of item_cnt slots; the state is the list of the free ones.
abbrev pub free_list_pool : ℕ → PoolOps (List ℕ)
free_list_pool item_cnt = record {
  get = spec_get;
  release = λ i free. if has i free then fail Fault.runtime_error else ok tt (i ∷ free);
  size = λ free. ok (item_cnt - length free) free;
}

-- A call releases a slot of the pool.
abbrev pub InPool : ℕ → Call → Type 0
InPool item_cnt get_call = Unit
InPool item_cnt size_call = Unit
InPool item_cnt (release_call i) = i < item_cnt
