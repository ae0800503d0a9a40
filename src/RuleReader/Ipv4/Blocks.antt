-- ===== src/RuleReader/Ipv4/Blocks.antt =====
-- src/rule_parser/classbench_rule_parser.cpp: the range that `parse_IPRange` computes from the numbers
-- of an address and a prefix length.
use native.Mathlib.Nat.{
  add-mul, div-lt_iff_lt-mul, mul-le-mul_right, mul_comm, div-div-eq-div-mul, mul_assoc,
  mul-add-div, mul-add-div_right, mul-div_cancel, div-eq_of_lt,
}
use Prim.Native.Nat.{bit_and, bit_or}
use pclass_vectorized.Prelude.{ℕ, ◌+◌, ◌-◌, ◌*◌, ◌/◌, ◌^◌, ◌<◌, ◌≡◌, sym, ap, ◌∙◌, arith}
use pclass_vectorized.Prelude.Bits.{bit_and-high, bit_or-low, pow2_pos, pow2_add}
use pclass_vectorized.Range.{Range1d, range}

-- The number of an address.
abbrev pub address : ℕ → ℕ → ℕ → ℕ → ℕ
address a b c d = a * 2 ^ 24 + b * 2 ^ 16 + c * 2 ^ 8 + d

-- The addresses that differ from this one in the last n bits at most.
abbrev pub block : ℕ → ℕ → Range1d
block addr n = range (addr / 2 ^ n * 2 ^ n) (addr / 2 ^ n * 2 ^ n + (2 ^ n - 1))

-- The two operations on a byte with the mask of the last k bits.
pub clear_low :
    (x k : ℕ) → x < 256 → k < 8 → bit_and x (2 ^ 32 - 1 - (2 ^ k - 1)) ≡ x / 2 ^ k * 2 ^ k
clear_low x k bx bk =
    let e : k + (32 - k) ≡ 32 = omega arith in
    let width : 2 ^ (k + (32 - k)) ≡ 2 ^ 32 = ap (λ n. 2 ^ n) e in
    let mask : 2 ^ 32 - 1 - (2 ^ k - 1) ≡ 2 ^ (k + (32 - k)) - 2 ^ k =
      omega (arith, width, pow2_pos k) in
    ap (bit_and x) mask ∙ bit_and-high k (32 - k) x (omega (arith, width))

pub set_low : (x k : ℕ) → bit_or (x / 2 ^ k * 2 ^ k) (2 ^ k - 1) ≡ x / 2 ^ k * 2 ^ k + (2 ^ k - 1)
set_low x k =
    bit_or-low k (x / 2 ^ k * 2 ^ k)
    ∙ ap (λ q. q * 2 ^ k + (2 ^ k - 1)) (mul-div_cancel (x / 2 ^ k) (pow2_pos k))

whole_block : (H R Q : ℕ) → Q * R ≡ 256 → Q * (R * H) ≡ H * 256
whole_block H R Q e = sym (mul_assoc Q R H) ∙ ap (λ w. w * H) e ∙ mul_comm 256 H

regroup : (H R Q P y : ℕ) → Q * R ≡ 256 → (R * H + y) * (P * Q) ≡ (H * 256 + y * Q) * P
regroup H R Q P y e =
    ap (λ w. (R * H + y) * w) (mul_comm P Q)
    ∙ sym (mul_assoc (R * H + y) Q P)
    ∙ ap (λ w. w * P)
        (add-mul (R * H) y Q ∙ ap (λ w. w + y * Q) (mul_comm (R * H) Q ∙ whole_block H R Q e))

-- The block of an address whose byte x is the one that the prefix ends in: the part H in front of the
-- byte stays and the part L behind it goes.
pub block_at :
    (H x L P k n : ℕ)
    → 0 < P
    → L < P
    → k < 8
    → 2 ^ n ≡ P * 2 ^ k
    → ((H * 256 + x) * P + L) / 2 ^ n * 2 ^ n ≡ (H * 256 + x / 2 ^ k * 2 ^ k) * P
block_at H x L P k n pos less bk width =
    let R = 2 ^ (8 - k) in
    let e : k + (8 - k) ≡ 8 = omega arith in
    let whole : 2 ^ k * R ≡ 256 = sym (pow2_add k (8 - k)) ∙ ap (λ m. 2 ^ m) e in
    let front : ((H * 256 + x) * P + L) / P ≡ H * 256 + x =
      mul-add-div_right pos (H * 256 + x) L ∙ omega (arith, div-eq_of_lt less) in
    let byte : (H * 256 + x) / 2 ^ k ≡ R * H + x / 2 ^ k =
      ap (λ w. (w + x) / 2 ^ k) (sym (whole_block H R (2 ^ k) whole))
      ∙ mul-add-div (pow2_pos k) (R * H) x in
    let quotient : ((H * 256 + x) * P + L) / 2 ^ n ≡ R * H + x / 2 ^ k =
      ap (λ w. ((H * 256 + x) * P + L) / w) width
      ∙ sym (div-div-eq-div-mul ((H * 256 + x) * P + L) P (2 ^ k))
      ∙ ap (λ q. q / 2 ^ k) front
      ∙ byte in
    cc (quotient, width, regroup H R (2 ^ k) P (x / 2 ^ k) whole)

pub low_bits_lt : (y k : ℕ) → y < 256 → k < 8 → y / 2 ^ k * 2 ^ k + (2 ^ k - 1) < 256
low_bits_lt y k by bk =
    let e : 8 - k + k ≡ 8 = omega arith in
    let whole : 2 ^ (8 - k) * 2 ^ k ≡ 256 = sym (pow2_add (8 - k) k) ∙ ap (λ m. 2 ^ m) e in
    let below : y / 2 ^ k < 2 ^ (8 - k) =
      (div-lt_iff_lt-mul (pow2_pos k)).1 (omega (arith, whole)) in
    let next = mul-le-mul_right (2 ^ k) below in omega (arith, next, whole, pow2_pos k)
