-- ===== src/Mempool/Static/FreeList.antt =====
-- The free list of a `StaticMempool`, and what each operation does to it.
use pclass_vectorized.Prelude.{
  ℕ, zero, suc, ◌+◌, ◌-◌, ◌<◌, ◌≤◌, ◌≡◌, refl, ◌∙◌, inl, inr, true, false, Option, none, some, List,
  [], ◌∷◌, arith, length, update, ap, Bool-cases,
}
use pclass_vectorized.Prelude.State.{Fault, ok, fail}
use pclass_vectorized.Mempool.Slots.{has, slots, has-slots, slots-has, AreSlots, length-AreSlots}
use pclass_vectorized.Mempool.Static.{
  StaticMempool, zeroed, init, take_first, get, release, count_free, size,
}

-- From `p` the links lead through the slots `l`, each one once, to the end of the array.
pub data Chain (item_cnt : ℕ) (next : ℕ → Option ℕ) : Option ℕ → List ℕ → Type 0 where
  end : Chain item_cnt next (some item_cnt) []
  cons :
      {q : Option ℕ} {l : List ℕ} (i : ℕ)
      → i < item_cnt
      → next i ≡ q
      → has i l ≡ false
      → Chain item_cnt next q l
      → Chain item_cnt next (some i) (i ∷ l)

-- The pool is set up and its free slots are `free`; the link of any other slot is null.
pub record IsFree (item_cnt : ℕ) (m : StaticMempool) (free : List ℕ) : Type 0 where
  pub chain : Chain item_cnt m.next_free m.m_first_free free
  pub taken : (i : ℕ) → i < item_cnt → has i free ≡ false → m.next_free i ≡ none

-- What `get` does on a pool that is set up and has these free slots.
abbrev pub Hands : ℕ → StaticMempool → List ℕ → Type 0
Hands item_cnt m [] = get item_cnt m ≡ fail Fault.bad_alloc
Hands item_cnt m (i ∷ l) = (m' : StaticMempool) × (get item_cnt m ≡ ok i m') × IsFree item_cnt m' l

size_some :
    (item_cnt : ℕ) (m : StaticMempool) {i : ℕ} (u : ℕ)
    → m.m_first_free ≡ some i
    → count_free item_cnt (item_cnt + 1) (some i) 0 m ≡ ok (0 + u) m
    → size item_cnt m ≡ ok (item_cnt - u) m
unfolding size
size_some item_cnt m u e f = ground (arith, e, f)

module _ {item_cnt : ℕ} where
  Chain-AreSlots :
      {next : ℕ → Option ℕ} {p : Option ℕ} {l : List ℕ}
      → Chain item_cnt next p l
      → AreSlots item_cnt l
  Chain-AreSlots end = tt
  Chain-AreSlots (cons i b e out c) = (b, out, Chain-AreSlots c)

  Chain-frame :
      {next next' : ℕ → Option ℕ} {p : Option ℕ} {l : List ℕ}
      → Chain item_cnt next p l
      → ((i : ℕ) → i < item_cnt → has i l ≡ true → next' i ≡ next i)
      → Chain item_cnt next' p l
  Chain-frame end same = end
  Chain-frame (cons i b e out c) same =
      cons i b (ground (arith, same i b)) out (Chain-frame c λ j bj h. same j bj (ground arith))

  Chain-update :
      {next : ℕ → Option ℕ} {p : Option ℕ} {l : List ℕ} (i : ℕ) (v : Option ℕ)
      → Chain item_cnt next p l
      → has i l ≡ false
      → Chain item_cnt (update next i v) p l
  Chain-update i v c out = Chain-frame c λ j b h. ground arith

  Chain-start :
      {next : ℕ → Option ℕ} {p : Option ℕ} {l : List ℕ}
      → Chain item_cnt next p l
      → (j : ℕ) × (p ≡ some j)
  Chain-start end = (item_cnt, refl)
  Chain-start (cons i b e out c) = (i, refl)

  -- Every slot of the list has a link.
  Chain-linked :
      {next : ℕ → Option ℕ} {p : Option ℕ} {l : List ℕ} (i : ℕ)
      → Chain item_cnt next p l
      → has i l ≡ true
      → (j : ℕ) × (next i ≡ some j)
  Chain-linked i end h = cc
  Chain-linked {next = next} i (cons {l = l} x b e out c) h = elim (Bool-cases (has i l)) [
    | inl later ↦ Chain-linked i c later
    | inr here ↦
        let (j, start) = Chain-start c in
        let same : i ≡ x = ground arith in (j, ap next same ∙ e ∙ start)
  ]

  length-Chain :
      {next : ℕ → Option ℕ} {p : Option ℕ} {l : List ℕ}
      → Chain item_cnt next p l
      → length l ≤ item_cnt
  length-Chain {l = l} c = length-AreSlots l item_cnt (Chain-AreSlots c)

  -- `get` hands out the first slot of the list, and the rest of the list stays free.
  pub take_first-cons :
      (m : StaticMempool) {p : Option ℕ} {i : ℕ} {l : List ℕ}
      → m.m_first_free ≡ p
      → Chain item_cnt m.next_free p (i ∷ l)
      → ((j : ℕ) → j < item_cnt → has j (i ∷ l) ≡ false → m.next_free j ≡ none)
      → (m' : StaticMempool) × (take_first m ≡ ok i m') × IsFree item_cnt m' l
  unfolding take_first
  take_first-cons m e (cons i b next out c) taken = (
    record m { next_free = update m.next_free i none; m_first_free = m.next_free i },
    rw e refl,
    record {
      chain = rw next (Chain-update i none c out);
      taken = λ j b h. ground (arith, taken j b);
    },
  )

  get_cons :
      (m : StaticMempool) {p : Option ℕ} {i : ℕ} {l : List ℕ}
      → m.m_first_free ≡ p
      → Chain item_cnt m.next_free p (i ∷ l)
      → get item_cnt m ≡ take_first m
  unfolding get
  get_cons m e (cons i b next out c) = ground arith

  get_end :
      (m : StaticMempool) {p : Option ℕ}
      → m.m_first_free ≡ p
      → Chain item_cnt m.next_free p []
      → get item_cnt m ≡ fail Fault.bad_alloc
  unfolding get
  get_end m e end = ground arith

  pub get-IsFree :
      (m : StaticMempool) (free : List ℕ) → IsFree item_cnt m free → Hands item_cnt m free
  get-IsFree m [] f = get_end m refl f.chain
  get-IsFree m (i ∷ l) f =
      let (m', e, f') = take_first-cons m refl f.chain f.taken in
      (m', get_cons m refl f.chain ∙ e, f')

  pub release_free :
      (m : StaticMempool) (free : List ℕ) (i : ℕ)
      → IsFree item_cnt m free
      → has i free ≡ true
      → release i m ≡ fail Fault.runtime_error
  unfolding release
  release_free m free i f h = let (j, linked) = Chain-linked i f.chain h in ground (arith, linked)

  pub release_taken :
      (m : StaticMempool) (free : List ℕ) (i : ℕ)
      → IsFree item_cnt m free
      → i < item_cnt
      → has i free ≡ false
      → (m' : StaticMempool) × (release i m ≡ ok tt m') × IsFree item_cnt m' (i ∷ free)
  unfolding release
  release_taken m free i f b h = (
    record m { next_free = update m.next_free i m.m_first_free; m_first_free = some i },
    ground (arith, f.taken i b h),
    record {
      chain = cons i b (ground arith) h (Chain-update i m.m_first_free f.chain h);
      taken = λ j bj out. ground (arith, f.taken j bj);
    },
  )

  count_free-Chain :
      (fuel : ℕ) (m : StaticMempool) {p : Option ℕ} {l : List ℕ} (unused : ℕ)
      → Chain item_cnt m.next_free p l
      → length l < fuel
      → count_free item_cnt fuel p unused m ≡ ok (unused + length l) m
  unfolding count_free
  count_free-Chain zero m unused c h = absurd (omega arith)
  count_free-Chain (suc fuel) m unused end h = ground arith
  count_free-Chain (suc fuel) m unused (cons i b e out c) h =
      rw e (ground (arith, count_free-Chain fuel m (unused + 1) c))

  pub size-IsFree :
      (m : StaticMempool) (free : List ℕ)
      → IsFree item_cnt m free
      → size item_cnt m ≡ ok (item_cnt - length free) m
  size-IsFree m free f =
      let (i, start) = Chain-start f.chain in
      let c = rw start at f.chain in
      let bound = length-Chain f.chain in
      size_some item_cnt m (length free) start (count_free-Chain (item_cnt + 1) m 0 c (omega arith))

-- The links that `init` writes: slot k leads through k, ..., n.
init-Chain :
    (n k d : ℕ)
    → k + suc d ≡ suc n
    → Chain (suc n) (init (suc n) zeroed).next_free (some k) (slots (suc d) k)
unfolding slots init
init-Chain n k zero e =
    let last : k ≡ n = omega arith in cons k (omega arith) (ground arith) refl end
init-Chain n k (suc d) e =
    cons k (omega arith) (ground arith) (ground (arith, has-slots k d (k + 1 + 1)))
      (init-Chain n (k + 1) d (omega arith))

pub init-IsFree : (n : ℕ) → IsFree (suc n) (init (suc n) zeroed) (slots (suc n) 0)
unfolding init
init-IsFree n = record {
  chain = init-Chain n 0 n (omega arith);
  taken = λ i b h. absurd (omega (arith, slots-has i (suc n) 0 h));
}
