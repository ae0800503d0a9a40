-- ===== src/Mempool/Dynamic/FreeList.antt =====
-- The free list of a `DynamicMempool`, and what `get`, `release` and `size` do to it.
use pclass_vectorized.Prelude.{
  ℕ, zero, suc, ◌+◌, ◌-◌, ◌<◌, ◌≤◌, ◌≡◌, ◌↔◌, refl, ltb, true, false, Option, none, some, List, [],
  ◌∷◌, arith, ◌==◌, if◌then◌else◌, length, update,
}
use pclass_vectorized.Prelude.State.{Fault, ok, fail}
use pclass_vectorized.Mempool.Slots.{has, slots, has-slots, slots-has, length-slots}
use pclass_vectorized.Mempool.Dynamic.{
  DynamicMempool, new, get, release, get_assertions, release_assertions, count_free, size,
}

-- From `p` the links lead through the slots `l`, each one once, to null.
pub data Chain (next : ℕ → Option ℕ) : Option ℕ → List ℕ → Type 0 where
  nil : Chain next none []
  cons :
      {q : Option ℕ} {l : List ℕ} (i : ℕ)
      → next i ≡ q
      → has i l ≡ false
      → Chain next q l
      → Chain next (some i) (i ∷ l)

-- The pool's free slots are `free`, in the order in which they will be handed out; the link of any
-- other slot of the pool is null.
pub record IsFree (m : DynamicMempool) (free : List ℕ) : Type 0 where
  pub chain : Chain m.next_free m.first_free free
  pub taken : (i : ℕ) → i < m.item_cnt → has i free ≡ false → m.next_free i ≡ none
  pub fits : length free ≤ m.item_cnt

pub Chain-frame :
    {next next' : ℕ → Option ℕ} {p : Option ℕ} {l : List ℕ}
    → Chain next p l
    → ((i : ℕ) → has i l ≡ true → next' i ≡ next i)
    → Chain next' p l
Chain-frame nil same = nil
Chain-frame (cons i e out c) same =
    cons i (ground (arith, same i)) out (Chain-frame c λ j h. same j (ground arith))

Chain-update :
    {next : ℕ → Option ℕ} {p : Option ℕ} {l : List ℕ} (i : ℕ) (v : Option ℕ)
    → Chain next p l
    → has i l ≡ false
    → Chain (update next i v) p l
Chain-update i v c out = Chain-frame c λ j h. ground arith

-- The outcome of `get` on a pool whose first link and free list are given.
get_cons :
    (m : DynamicMempool) {p : Option ℕ} {i : ℕ} {l : List ℕ}
    → m.first_free ≡ p
    → Chain m.next_free p (i ∷ l)
    → ((j : ℕ) → j < m.item_cnt → has j (i ∷ l) ≡ false → m.next_free j ≡ none)
    → suc (length l) ≤ m.item_cnt
    → (m' : DynamicMempool) × (get m ≡ ok i m') × IsFree m' l × (m'.item_cnt ≡ m.item_cnt)
unfolding get
get_cons m e (cons i next out c) taken fits = (
  record m { next_free = update m.next_free i none; first_free = m.next_free i },
  rw e,
  record {
    chain = rw next (Chain-update i none c out);
    taken = λ j b h. ground (arith, taken j b);
    fits = omega arith;
  },
  refl,
)

get_nil :
    (m : DynamicMempool) {p : Option ℕ}
    → m.first_free ≡ p
    → Chain m.next_free p []
    → get m ≡ fail Fault.bad_alloc
unfolding get
get_nil m e nil = rw e refl

Chain-head :
    {next : ℕ → Option ℕ} {p : Option ℕ} {i : ℕ} {l : List ℕ}
    → Chain next p (i ∷ l)
    → has i l ≡ false
Chain-head (cons i e out c) = out

-- The assertions of `get`, from the links of a pool with a free slot.
get_assertions_cons :
    (m : DynamicMempool) {p : Option ℕ} {i : ℕ} {l : List ℕ}
    → m.first_free ≡ p
    → Chain m.next_free p (i ∷ l)
    → (get_assertions m ≡ true) ↔ (2 ≤ length l)
unfolding get_assertions
get_assertions_cons m e (cons i next out nil) = rw (e, next) ((λ h. cc), λ h. absurd (omega arith))
get_assertions_cons m e (cons i next out (cons j next' out' nil)) =
    let last : update m.next_free i none j ≡ none = ground (arith, next', out) in
    rw (e, next, last) ((λ h. cc), λ h. absurd (omega arith))
get_assertions_cons m e (cons i next out (cons j next' out' (cons k next'' out'' nil))) =
    let after_j : update m.next_free i none j ≡ some k = ground (arith, next', out) in
    let after_k : update m.next_free i none k ≡ none = ground (arith, next'', out) in
    let ne : (k == j) ≡ false = ground (arith, out') in
    rw (e, next, after_j, after_k, ne) ((λ h. omega arith), λ h. refl)
get_assertions_cons m e (cons i next out (cons j next' out' (cons k next'' out'' (cons x f o c)))) =
    let after_j : update m.next_free i none j ≡ some k = ground (arith, next', out) in
    let after_k : update m.next_free i none k ≡ some x = ground (arith, next'', out) in
    let ne : (k == j) ≡ false = ground (arith, out') in
    let ne' : (x == j) ≡ false = ground (arith, out') in
    rw (e, next, after_j, after_k, ne, ne') ((λ h. omega arith), λ h. refl)

-- The assertions of `release` of a slot that is not free.
release_assertions_lem :
    (m : DynamicMempool) {p : Option ℕ} {l : List ℕ} (i : ℕ)
    → m.first_free ≡ p
    → Chain m.next_free p l
    → i < m.item_cnt
    → has i l ≡ false
    → (release_assertions i m ≡ true) ↔ (1 ≤ length l)
unfolding release_assertions
release_assertions_lem m i e nil b out = rw e ((λ h. cc), λ h. absurd (omega arith))
release_assertions_lem m i e (cons j next out' nil) b out =
    let after_j : update m.next_free i (some j) j ≡ none = ground (arith, next, out) in
    let ne : (j == i) ≡ false = ground (arith, out) in
    let inside : ltb i m.item_cnt ≡ true = ground arith in
    rw (e, after_j, ne, inside) ((λ h. omega arith), λ h. refl)
release_assertions_lem m i e (cons j next out' (cons k next' out'' c)) b out =
    let after_j : update m.next_free i (some j) j ≡ some k = ground (arith, next, out) in
    let ne : (j == i) ≡ false = ground (arith, out) in
    let ne' : (k == i) ≡ false = ground (arith, out) in
    let inside : ltb i m.item_cnt ≡ true = ground arith in
    rw (e, after_j, ne, ne', inside) ((λ h. omega arith), λ h. refl)

-- What `get` does on a pool with these free slots.
abbrev pub Hands : DynamicMempool → List ℕ → Type 0
Hands m [] = get m ≡ fail Fault.bad_alloc
Hands m (i ∷ l) =
    ((m' : DynamicMempool) × (get m ≡ ok i m') × IsFree m' l × (m'.item_cnt ≡ m.item_cnt))
    × (has i l ≡ false)
    × ((get_assertions m ≡ true) ↔ (2 ≤ length l))

-- On a pool with no free slot `get` fails with `bad_alloc`. On a pool with free slots, in a build with
-- NDEBUG, it hands out the first slot of the free list, which is not among the slots that are left; the
-- assertions of a build without it hold exactly if two more slots are left, so that they abort the
-- program when one of the last two slots is handed out.
pub get-IsFree : (m : DynamicMempool) (free : List ℕ) → IsFree m free → Hands m free
get-IsFree m [] f = get_nil m refl f.chain
get-IsFree m (i ∷ l) f =
    (get_cons m refl f.chain f.taken f.fits, Chain-head f.chain, get_assertions_cons m refl f.chain)

-- No slot is on the list twice.
pub IsFree-head : (m : DynamicMempool) (i : ℕ) (l : List ℕ) → IsFree m (i ∷ l) → has i l ≡ false
IsFree-head m i l f = Chain-head f.chain

pub release-eq_ok :
    (m : DynamicMempool) (i : ℕ)
    → m.next_free i ≡ none
    → release i m
      ≡ ok tt (record m { next_free = update m.next_free i m.first_free; first_free = some i })
unfolding release
release-eq_ok m i e = ground arith

-- A slot that is not on the free list is released to the front of the list, and the next `get` hands
-- out that slot again and restores the free list, in a build with NDEBUG. The assertions of a build
-- without it hold in the release exactly if some slot is free before, and in that `get` exactly if two
-- are.
pub get-release :
    (m : DynamicMempool) (i : ℕ) (l : List ℕ)
    → IsFree m l
    → i < m.item_cnt
    → has i l ≡ false
    → length l < m.item_cnt
    → (m' m'' : DynamicMempool) × (release i m ≡ ok tt m')
      × IsFree m' (i ∷ l)
      × (get m' ≡ ok i m'')
      × IsFree m'' l
      × ((release_assertions i m ≡ true) ↔ (1 ≤ length l))
      × ((get_assertions m' ≡ true) ↔ (2 ≤ length l))
get-release m i l f b out room =
    let released = record m {
      next_free = update m.next_free i m.first_free;
      first_free = some i;
    } in
    let valid : IsFree released (i ∷ l) = record {
      chain = cons i (ground arith) out (Chain-update i m.first_free f.chain out);
      taken = λ j b h. ground (arith, f.taken j b);
      fits = omega arith;
    } in
    let ((m'', got, valid', _), _, assertions) = get-IsFree released (i ∷ l) valid in
    (
      released,
      m'',
      release-eq_ok m i (f.taken i b out),
      valid,
      got,
      valid',
      release_assertions_lem m i refl f.chain b out,
      assertions,
    )

count_free-Chain :
    (fuel : ℕ) {next : ℕ → Option ℕ} {p : Option ℕ} {l : List ℕ} (unused : ℕ)
    → Chain next p l
    → length l < fuel
    → count_free fuel next p unused ≡ some (unused + length l)
unfolding count_free
count_free-Chain zero unused c h = absurd (omega arith)
count_free-Chain (suc fuel) unused nil h = ground arith
count_free-Chain (suc fuel) unused (cons i e out c) h =
    rw e (ground (arith, count_free-Chain fuel (unused + 1) c))

size_none : (m : DynamicMempool) → m.first_free ≡ none → size m ≡ some 0
unfolding size
size_none m e = ground arith

size_some :
    (m : DynamicMempool) {i u : ℕ}
    → m.first_free ≡ some i
    → count_free (m.item_cnt + 1) m.next_free (some i) 0 ≡ some u
    → size m ≡ some (m.item_cnt - u)
unfolding size
size_some m e f = ground arith

size-Chain :
    (m : DynamicMempool) {p : Option ℕ} {l : List ℕ}
    → m.first_free ≡ p
    → Chain m.next_free p l
    → length l ≤ m.item_cnt
    → size m ≡ some (if length l == 0 then 0 else m.item_cnt - length l)
size-Chain m e nil h = size_none m e
size-Chain m {l = i ∷ l} e (cons i' next out c) h =
    let counted = count_free-Chain (m.item_cnt + 1) 0 (cons i' next out c) (omega arith) in
    ground (arith, size_some m e counted)

-- `size` ends on every pool with a proper free list: it counts the slots that are not free if some
-- slot is free, and says 0 if none is, although every slot is then allocated.
pub size-IsFree :
    (m : DynamicMempool) (l : List ℕ)
    → IsFree m l
    → size m ≡ some (if length l == 0 then 0 else m.item_cnt - length l)
size-IsFree m l f = size-Chain m refl f.chain f.fits

Chain-eq :
    {next : ℕ → Option ℕ} {p q : Option ℕ} {l : List ℕ} → p ≡ q → Chain next p l → Chain next q l
Chain-eq e c = rw e at c

new-Chain :
    (item_cnt n k : ℕ)
    → k + suc n ≡ item_cnt
    → Chain (new item_cnt).next_free (some k) (slots (suc n) k)
unfolding slots new
new-Chain item_cnt zero k e = cons k (ground arith) refl nil
new-Chain item_cnt (suc n) k e =
    cons k (ground arith) (ground (arith, has-slots k n (k + 1 + 1)))
      (new-Chain item_cnt n (k + 1) (omega arith))

-- A new pool of n + 1 slots is entirely free, in ascending order.
pub new-IsFree : (n : ℕ) → IsFree (new (suc n)) (slots (suc n) 0)
unfolding new
new-IsFree n = record {
  chain = new-Chain (suc n) n 0 (omega arith);
  taken = λ i b h. absurd (omega (arith, slots-has i (suc n) 0 h));
  fits = omega (arith, length-slots (suc n) 0);
}
