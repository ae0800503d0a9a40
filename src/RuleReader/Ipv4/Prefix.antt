-- ===== src/RuleReader/Ipv4/Prefix.antt =====
-- src/rule_parser/classbench_rule_parser.cpp: the range of an address with a prefix length.
use pclass_vectorized.Prelude.{
  ℕ, zero, suc, ◌+◌, ◌-◌, ◌*◌, ◌/◌, ◌%◌, ◌^◌, ◌≤◌, ◌<◌, ◌≡◌, refl, sym, ap, ◌∙◌, arith, false, ltb,
}
use pclass_vectorized.Range.{range}
use pclass_vectorized.Prelude.Bits.{pow2_add, pow2_pos}
use pclass_vectorized.RuleReader.Text.{success}
use pclass_vectorized.RuleReader.Ipv4.{set_tail, join, ip_range, four}
use pclass_vectorized.RuleReader.Ipv4.Blocks.{address, block, block_at, low_bits_lt}
use pclass_vectorized.RuleReader.Ipv4.Addresses.{
  first_at, last_at, join-four, at_byte_3, at_byte_2, at_byte_1, at_byte_0,
}

ip_range_at :
    (p : ℕ → ℕ) (mask j k : ℕ)
    → mask ≤ 32
    → (32 - mask) / 8 ≡ j
    → (32 - mask) % 8 ≡ k
    → ip_range p mask
      ≡ success (range (join (first_at j k p)) (join (last_at j k (first_at j k p))))
unfolding ip_range
ip_range_at p mask j k le ej ek =
    let fits : ltb 32 mask ≡ false = ground arith in rw fits (rw ej (rw ek refl))

module _ (a b c d : ℕ) (ba : a < 256) (bb : b < 256) (bc : c < 256) (bd : d < 256) where
  -- What is joined for the byte 3 - j and k bits is the block of the address.
  abbrev Ranges : ℕ → ℕ → Type 0
  Ranges j k =
      let first = first_at j k (four a b c d) in
      range (join first) (join (last_at j k first)) ≡ block (address a b c d) (8 * j + k)

  -- The byte x that the prefix ends in, with H in front of it and L behind it.
  range_at :
      (low high H x L P k n : ℕ)
      → 0 < P
      → L < P
      → k < 8
      → 2 ^ n ≡ P * 2 ^ k
      → address a b c d ≡ (H * 256 + x) * P + L
      → low ≡ (H * 256 + x / 2 ^ k * 2 ^ k) * P
      → high + 1 ≡ (H * 256 + x / 2 ^ k * 2 ^ k) * P + P * 2 ^ k
      → range low high ≡ block (address a b c d) n
  range_at low high H x L P k n pos less bk width e el eh =
      let start : address a b c d / 2 ^ n * 2 ^ n ≡ (H * 256 + x / 2 ^ k * 2 ^ k) * P =
        ap (λ z. z / 2 ^ n * 2 ^ n) e ∙ block_at H x L P k n pos less bk width in
      let same_low : low ≡ address a b c d / 2 ^ n * 2 ^ n = el ∙ sym start in
      let same_high : high ≡ address a b c d / 2 ^ n * 2 ^ n + (2 ^ n - 1) =
        omega (arith, start, width, eh) in
      cc (same_low, same_high)

  range_0 : (k : ℕ) → k < 8 → Ranges 0 k
  range_0 k bk =
      let p = four a b c d in
      let first = first_at 0 k p in
      let (low, high) = at_byte_3 a b c d k bk bd in
      let bound = low_bits_lt d k bd bk in
      let low_sum = low ∙ join-four a b c (d / 2 ^ k * 2 ^ k) ba bb bc (omega (arith, bound)) in
      let high_sum = high ∙ join-four a b c (d / 2 ^ k * 2 ^ k + (2 ^ k - 1)) ba bb bc bound in
      range_at (join first) (join (last_at 0 k first)) (a * 2 ^ 16 + b * 2 ^ 8 + c) d (0) (2 ^ 0) k
        (0 + k) (omega arith) (omega arith) bk (pow2_add 0 k) (omega arith) (omega (arith, low_sum))
        (omega (arith, high_sum, pow2_pos k))

  range_1 : (k : ℕ) → k < 8 → Ranges 1 k
  range_1 k bk =
      let p = four a b c d in
      let first = first_at 1 k p in
      let (low, high) = at_byte_2 a b c d k bk bc in
      let bound = low_bits_lt c k bc bk in
      let low_sum =
        low ∙ join-four a b (c / 2 ^ k * 2 ^ k) 0 ba bb (omega (arith, bound)) (omega arith) in
      let high_sum =
        high ∙ join-four a b (c / 2 ^ k * 2 ^ k + (2 ^ k - 1)) 255 ba bb bound (omega arith) in
      range_at (join first) (join (last_at 1 k first)) (a * 2 ^ 8 + b) c (d) (2 ^ 8) k (8 + k)
        (omega arith) (omega arith) bk (pow2_add 8 k) (omega arith) (omega (arith, low_sum))
        (omega (arith, high_sum, pow2_pos k))

  range_2 : (k : ℕ) → k < 8 → Ranges 2 k
  range_2 k bk =
      let p = four a b c d in
      let first = first_at 2 k p in
      let (low, high) = at_byte_1 a b c d k bk bb in
      let bound = low_bits_lt b k bb bk in
      let low_sum =
        low
        ∙ join-four a (b / 2 ^ k * 2 ^ k) 0 0 ba (omega (arith, bound)) (omega arith)
            (omega arith) in
      let high_sum =
        high
        ∙ join-four a (b / 2 ^ k * 2 ^ k + (2 ^ k - 1)) 255 255 ba bound (omega arith)
            (omega arith) in
      range_at (join first) (join (last_at 2 k first)) (a) b (c * 2 ^ 8 + d) (2 ^ 16) k (16 + k)
        (omega arith) (omega arith) bk (pow2_add 16 k) (omega arith) (omega (arith, low_sum))
        (omega (arith, high_sum, pow2_pos k))

  range_3 : (k : ℕ) → k < 8 → Ranges 3 k
  range_3 k bk =
      let p = four a b c d in
      let first = first_at 3 k p in
      let (low, high) = at_byte_0 a b c d k bk ba in
      let bound = low_bits_lt a k ba bk in
      let low_sum =
        low
        ∙ join-four (a / 2 ^ k * 2 ^ k) 0 0 0 (omega (arith, bound)) (omega arith) (omega arith)
            (omega arith) in
      let high_sum =
        high
        ∙ join-four (a / 2 ^ k * 2 ^ k + (2 ^ k - 1)) 255 255 255 bound (omega arith) (omega arith)
            (omega arith) in
      range_at (join first) (join (last_at 3 k first)) (0) a (b * 2 ^ 16 + c * 2 ^ 8 + d) (2 ^ 24) k
        (24 + k) (omega arith) (omega arith) bk (pow2_add 24 k) (omega arith)
        (omega (arith, low_sum)) (omega (arith, high_sum, pow2_pos k))

  ranges : (j k : ℕ) → k < 8 → 8 * j + k ≤ 32 → Ranges j k
  unfolding set_tail join
  ranges zero k bk le = range_0 k bk
  ranges (suc zero) k bk le = range_1 k bk
  ranges (suc (suc zero)) k bk le = range_2 k bk
  ranges (suc (suc (suc zero))) k bk le = range_3 k bk
  ranges (suc (suc (suc (suc zero)))) zero bk le =
      let start : 0 ≡ address a b c d / 2 ^ 32 * 2 ^ 32 = omega arith in
      let end : 2 ^ 32 - 1 ≡ address a b c d / 2 ^ 32 * 2 ^ 32 + (2 ^ 32 - 1) = omega arith in
      cc (start, end)
  ranges (suc (suc (suc (suc zero)))) (suc k) bk le = absurd (omega arith)
  ranges (suc (suc (suc (suc (suc j))))) k bk le = absurd (omega arith)

  -- `parse_IPRange` of the bytes a, b, c, d and a prefix length of at most 32 is the range of all
  -- addresses that have the first `mask` bits of the address a.b.c.d: it starts at the address with
  -- the other bits cleared and has 2 ^ (32 - mask) addresses.
  pub ip_range-block :
      (mask : ℕ)
      → mask ≤ 32
      → ip_range (four a b c d) mask ≡ success (block (address a b c d) (32 - mask))
  ip_range-block mask le =
      let j = (32 - mask) / 8 in
      let k = (32 - mask) % 8 in
      let split : 8 * j + k ≡ 32 - mask = omega arith in
      ip_range_at (four a b c d) mask j k le refl refl
      ∙ ap success (ranges j k (omega arith) (omega arith) ∙ ap (block (address a b c d)) split)
