-- ===== src/RuleReader/Printer/Prefixes.antt =====
-- src/rule_parser/classbench_rule_parser.cpp: the prefix length that `print_ipv4` finds.
use Prim.Native.Nat.{bit_and}
use native.Mathlib.Nat.{
  mul_assoc, mul-div_cancel, mul-add-div_right, div-eq_of_lt, pow-suc, add-mul,
}
use pclass_vectorized.Prelude.{
  ℕ, zero, suc, ◌+◌, ◌-◌, ◌*◌, ◌/◌, ◌%◌, ◌^◌, ◌≤◌, ◌<◌, ◌≡◌, ◌⊎◌, inl, inr, sym, ap, ◌∙◌, arith,
}
use pclass_vectorized.Prelude.Bits.{bit_and-bit, pow2_pos, pow2_add}
use pclass_vectorized.Range.{Range1d, range}
use pclass_vectorized.RuleReader.Printer.{printed_prefix_len}

-- The addresses with the same first 32 - n bits, which are those of B.
abbrev pub prefix_block : ℕ → ℕ → Range1d
prefix_block B n = range (B * 2 ^ n) (B * 2 ^ n + (2 ^ n - 1))

module _ (B e j : ℕ) where
  power : 2 ^ (suc e + j) ≡ 2 ^ e * 2 * 2 ^ j
  power = pow2_add (suc e) j ∙ ap (λ p. p * 2 ^ j) (pow-suc 2 e)

  low_quotient : B * 2 ^ (suc e + j) / 2 ^ j ≡ B * 2 ^ e * 2
  low_quotient =
      ap (λ p. B * p / 2 ^ j) power
      ∙ ap (λ p. p / 2 ^ j) (sym (mul_assoc B (2 ^ e * 2) (2 ^ j)))
      ∙ mul-div_cancel (B * (2 ^ e * 2)) (pow2_pos j)
      ∙ sym (mul_assoc B (2 ^ e) 2)

  high_sum :
      B * 2 ^ (suc e + j) + (2 ^ (suc e + j) - 1)
      ≡ (B * 2 ^ e * 2 + (2 ^ e * 2 - 1)) * 2 ^ j + (2 ^ j - 1)
  high_sum =
      let Q = 2 ^ e * 2 in
      let P = 2 ^ j in
      let front : B * (Q * P) ≡ B * 2 ^ e * 2 * P =
        sym (mul_assoc B Q P) ∙ ap (λ m. m * P) (sym (mul_assoc B (2 ^ e) 2)) in
      let whole : Q - 1 + 1 ≡ Q = omega (arith, pow2_pos e) in
      let back : (Q - 1) * P + 1 * P ≡ Q * P = sym (add-mul (Q - 1) 1 P) ∙ ap (λ m. m * P) whole in
      let sum = add-mul (B * 2 ^ e * 2) (Q - 1) P in
      ap (λ p. B * p + (p - 1)) power ∙ omega (arith, front, back, sum, pow2_pos j)

  high_quotient :
      (B * 2 ^ (suc e + j) + (2 ^ (suc e + j) - 1)) / 2 ^ j ≡ B * 2 ^ e * 2 + (2 ^ e * 2 - 1)
  high_quotient =
      let rest : (2 ^ j - 1) / 2 ^ j ≡ 0 = div-eq_of_lt (omega (arith, pow2_pos j)) in
      ap (λ h. h / 2 ^ j) high_sum
      ∙ mul-add-div_right (pow2_pos j) (B * 2 ^ e * 2 + (2 ^ e * 2 - 1)) (2 ^ j - 1)
      ∙ omega (arith, rest)

  -- Below the prefix the bits of the bounds differ.
  bits_differ :
      bit_and (prefix_block B (suc e + j)).low (2 ^ j)
      < bit_and (prefix_block B (suc e + j)).high (2 ^ j)
  bits_differ =
      let even : B * 2 ^ e * 2 % 2 ≡ 0 = omega arith in
      let odd : (B * 2 ^ e * 2 + (2 ^ e * 2 - 1)) % 2 ≡ 1 = omega (arith, pow2_pos e) in
      let low =
        bit_and-bit j (B * 2 ^ (suc e + j))
        ∙ ap (λ q. q % 2 * 2 ^ j) low_quotient
        ∙ ap (λ b. b * 2 ^ j) even in
      let high =
        bit_and-bit j (B * 2 ^ (suc e + j) + (2 ^ (suc e + j) - 1))
        ∙ ap (λ q. q % 2 * 2 ^ j) high_quotient
        ∙ ap (λ b. b * 2 ^ j) odd in
      omega (arith, low, high, pow2_pos j)

-- At the end of the prefix they are the same.
bits_same :
    (B n : ℕ) → bit_and (prefix_block B n).low (2 ^ n) ≡ bit_and (prefix_block B n).high (2 ^ n)
bits_same B n =
    let rest : (2 ^ n - 1) / 2 ^ n ≡ 0 = div-eq_of_lt (omega (arith, pow2_pos n)) in
    let low : B * 2 ^ n / 2 ^ n ≡ B = mul-div_cancel B (pow2_pos n) in
    let high : (B * 2 ^ n + (2 ^ n - 1)) / 2 ^ n ≡ B =
      mul-add-div_right (pow2_pos n) B (2 ^ n - 1) ∙ omega (arith, rest) in
    bit_and-bit n (B * 2 ^ n)
    ∙ ap (λ q. q % 2 * 2 ^ n) (low ∙ sym high)
    ∙ sym (bit_and-bit n (B * 2 ^ n + (2 ^ n - 1)))

last-cases : (m p : ℕ) → m ≤ suc p → (m ≤ p) ⊎ (m ≡ suc p)
last-cases m p h = ground arith

module _ (B n : ℕ) (le : n ≤ 32) where
  step_differ :
      (p : ℕ)
      → 32 - n ≤ p
      → suc p ≤ 32
      → printed_prefix_len (suc p) (prefix_block B n).low (prefix_block B n).high
        ≡ printed_prefix_len p (prefix_block B n).low (prefix_block B n).high
  unfolding printed_prefix_len
  step_differ p h fits =
      let j = 32 - suc p in
      let e : suc (n - suc j) + j ≡ n = omega arith in
      let less = rw e at (bits_differ B (n - suc j) j) in ground (arith, less)

  step_same :
      (p : ℕ)
      → 32 - n ≡ suc p
      → printed_prefix_len (suc p) (prefix_block B n).low (prefix_block B n).high ≡ suc p
  unfolding printed_prefix_len
  step_same p h =
      let e : 32 - suc p ≡ n = omega arith in
      let same = bits_same B n in rw e (ground (arith, same))

  prefix_len_from :
      (p : ℕ)
      → 32 - n ≤ p
      → p ≤ 32
      → printed_prefix_len p (prefix_block B n).low (prefix_block B n).high ≡ 32 - n
  unfolding printed_prefix_len
  prefix_len_from zero h fits = omega arith
  prefix_len_from (suc p) h fits = elim (last-cases (32 - n) p h) [
    | inl less ↦ step_differ p less fits ∙ prefix_len_from p less (omega arith)
    | inr e ↦ step_same p e ∙ sym e
  ]

-- `print_ipv4` finds the prefix length of a block.
pub printed_prefix_len_lem :
    (B n : ℕ)
    → n ≤ 32
    → printed_prefix_len 32 (prefix_block B n).low (prefix_block B n).high ≡ 32 - n
printed_prefix_len_lem B n le = prefix_len_from B n le 32 (omega arith) (omega arith)
