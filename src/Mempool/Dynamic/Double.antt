-- ===== src/Mempool/Dynamic/Double.antt =====
-- Which double releases `DynamicMempool::release` reports.
use pclass_vectorized.Prelude.{ℕ, ◌≡◌, none, some, List, [], ◌∷◌, ◌++◌, update}
use pclass_vectorized.Prelude.State.{Fault, ok, fail}
use pclass_vectorized.Mempool.Dynamic.{DynamicMempool, get, release}
use pclass_vectorized.Mempool.Dynamic.FreeList.{IsFree}

-- The pool after the double release of slot i, and after the `get` that follows.
abbrev released : DynamicMempool → ℕ → DynamicMempool
released m i = record m { next_free = update m.next_free i m.first_free; first_free = some i }

abbrev reused : DynamicMempool → ℕ → DynamicMempool
reused m i = record m { next_free = update (update m.next_free i m.first_free) i none }

-- What a release of slot i does that stands on the free list, between `l` and `r`.
abbrev pub Releases : DynamicMempool → ℕ → List ℕ → List ℕ → Type 0
Releases m i l (j ∷ r) = release i m ≡ fail Fault.runtime_error
Releases m i l [] =
    (m' m'' : DynamicMempool) × (release i m ≡ ok tt m')
    × (get m' ≡ ok i m'')
    × IsFree m'' (l ++ i ∷ [])
