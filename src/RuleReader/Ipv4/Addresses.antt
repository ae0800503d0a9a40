-- ===== src/RuleReader/Ipv4/Addresses.antt =====
-- src/rule_parser/classbench_rule_parser.cpp: the addresses that `parse_IPRange` computes from the
-- numbers of an address and a prefix length.
use Prim.Native.Nat.{bit_and, bit_or}
use pclass_vectorized.Prelude.{
  ℕ, ◌+◌, ◌-◌, ◌*◌, ◌/◌, ◌^◌, ◌<◌, ◌≡◌, ◌≢◌, refl, ap, ◌∙◌, arith, ◌==◌, if◌then◌else◌, update, inl,
  inr, ◌⊎◌,
}
use pclass_vectorized.RuleReader.Ipv4.{set_tail, join, four}
use pclass_vectorized.RuleReader.Ipv4.Blocks.{address, clear_low, set_low}

-- The numbers that `ip_range` joins. With no bits to mask the branch without the operation is the same.
abbrev pub first_at : ℕ → ℕ → (ℕ → ℕ) → ℕ → ℕ
first_at j k p =
    if k == 0
    then set_tail j 0 p
    else update (set_tail j 0 p) (3 - j)
        (bit_and (set_tail j 0 p (3 - j)) (2 ^ 32 - 1 - (2 ^ k - 1)))

abbrev pub last_at : ℕ → ℕ → (ℕ → ℕ) → ℕ → ℕ
last_at j k q =
    if k == 0
    then set_tail j 255 q
    else update (set_tail j 255 q) (3 - j) (bit_or (set_tail j 255 q (3 - j)) (2 ^ k - 1))

pub join-four :
    (a b c d : ℕ) → a < 256 → b < 256 → c < 256 → d < 256 → join (four a b c d) ≡ address a b c d
unfolding join
join-four a b c d ba bb bc bd = omega arith

join_at :
    (p : ℕ → ℕ) (a b c d : ℕ) → p 0 ≡ a → p 1 ≡ b → p 2 ≡ c → p 3 ≡ d → join p ≡ join (four a b c d)
unfolding join
join_at p a b c d ha hb hc hd = cc (ha, hb, hc, hd)

no_bits : (y k : ℕ) → k ≡ 0 → y / 2 ^ k * 2 ^ k ≡ y
no_bits y k e = rw e (omega arith)

zero_or_more : (k : ℕ) → (k ≡ 0) ⊎ (0 < k)
zero_or_more k = ground arith

module _ (j k : ℕ) (p : ℕ → ℕ) where
  first_else : (i : ℕ) → i ≢ 3 - j → first_at j k p i ≡ set_tail j 0 p i
  first_else i ne = ground arith

  last_else : (i : ℕ) → i ≢ 3 - j → last_at j k p i ≡ set_tail j 255 p i
  last_else i ne = ground arith

  first_here :
      (y : ℕ)
      → set_tail j 0 p (3 - j) ≡ y
      → y < 256
      → k < 8
      → first_at j k p (3 - j) ≡ y / 2 ^ k * 2 ^ k
  first_here y e by bk = elim (zero_or_more k) [
    | inl none ↦ ground (arith, no_bits y k none)
    | inr some ↦ ground (arith, clear_low y k by bk)
  ]

  last_here :
      (x : ℕ)
      → set_tail j 255 p (3 - j) ≡ x / 2 ^ k * 2 ^ k
      → last_at j k p (3 - j) ≡ x / 2 ^ k * 2 ^ k + (2 ^ k - 1)
  last_here x e = elim (zero_or_more k) [
    | inl none ↦ let none_set : 2 ^ k ≡ 1 = ap (λ n. 2 ^ n) none in ground (arith, none_set)
    | inr some ↦ ground (arith, set_low x k)
  ]

-- The joined numbers for each byte that the prefix can end in.
module _ (a b c d k : ℕ) (bk : k < 8) where
  abbrev pub low_bits : ℕ → ℕ
  low_bits y = y / 2 ^ k * 2 ^ k

  abbrev pub Joins : ℕ → (ℕ → ℕ) → (ℕ → ℕ) → Type 0
  Joins j low high =
      (join (first_at j k (four a b c d)) ≡ join low)
      × (join (last_at j k (first_at j k (four a b c d))) ≡ join high)

  pub at_byte_3 :
      d < 256 → Joins 0 (four a b c (low_bits d)) (four a b c (low_bits d + (2 ^ k - 1)))
  unfolding set_tail
  at_byte_3 bd =
      let p = four a b c d in
      let first = first_at 0 k p in
      let here = first_here 0 k p d refl bd bk in
      let there = last_here 0 k first d here in
      (
        join_at first a b c (low_bits d) (first_else 0 k p 0 (omega arith))
            (first_else 0 k p 1 (omega arith)) (first_else 0 k p 2 (omega arith)) here,
        join_at (last_at 0 k first) a b c (low_bits d + (2 ^ k - 1))
            (last_else 0 k first 0 (omega arith) ∙ first_else 0 k p 0 (omega arith))
            (last_else 0 k first 1 (omega arith) ∙ first_else 0 k p 1 (omega arith))
            (last_else 0 k first 2 (omega arith) ∙ first_else 0 k p 2 (omega arith)) there,
      )

  pub at_byte_2 :
      c < 256 → Joins 1 (four a b (low_bits c) 0) (four a b (low_bits c + (2 ^ k - 1)) 255)
  unfolding set_tail
  at_byte_2 bc =
      let p = four a b c d in
      let first = first_at 1 k p in
      let here = first_here 1 k p c refl bc bk in
      let there = last_here 1 k first c here in
      (
        join_at first a b (low_bits c) 0 (first_else 1 k p 0 (omega arith))
            (first_else 1 k p 1 (omega arith)) here (first_else 1 k p 3 (omega arith)),
        join_at (last_at 1 k first) a b (low_bits c + (2 ^ k - 1)) 255
            (last_else 1 k first 0 (omega arith) ∙ first_else 1 k p 0 (omega arith))
            (last_else 1 k first 1 (omega arith) ∙ first_else 1 k p 1 (omega arith)) there
            (last_else 1 k first 3 (omega arith)),
      )

  pub at_byte_1 :
      b < 256 → Joins 2 (four a (low_bits b) 0 0) (four a (low_bits b + (2 ^ k - 1)) 255 255)
  unfolding set_tail
  at_byte_1 bb =
      let p = four a b c d in
      let first = first_at 2 k p in
      let here = first_here 2 k p b refl bb bk in
      let there = last_here 2 k first b here in
      (
        join_at first a (low_bits b) 0 0 (first_else 2 k p 0 (omega arith)) here
            (first_else 2 k p 2 (omega arith)) (first_else 2 k p 3 (omega arith)),
        join_at (last_at 2 k first) a (low_bits b + (2 ^ k - 1)) 255 255
            (last_else 2 k first 0 (omega arith) ∙ first_else 2 k p 0 (omega arith)) there
            (last_else 2 k first 2 (omega arith)) (last_else 2 k first 3 (omega arith)),
      )

  pub at_byte_0 :
      a < 256 → Joins 3 (four (low_bits a) 0 0 0) (four (low_bits a + (2 ^ k - 1)) 255 255 255)
  unfolding set_tail
  at_byte_0 ba =
      let p = four a b c d in
      let first = first_at 3 k p in
      let here = first_here 3 k p a refl ba bk in
      let there = last_here 3 k first a here in
      (
        join_at first (low_bits a) 0 0 0 here (first_else 3 k p 1 (omega arith))
            (first_else 3 k p 2 (omega arith)) (first_else 3 k p 3 (omega arith)),
        join_at (last_at 3 k first) (low_bits a + (2 ^ k - 1)) 255 255 255 there
            (last_else 3 k first 1 (omega arith)) (last_else 3 k first 2 (omega arith))
            (last_else 3 k first 3 (omega arith)),
      )
