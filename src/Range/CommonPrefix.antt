-- ===== src/Range/CommonPrefix.antt =====
-- include/pcv/common/range.h: `_get_mask_le`, against the bits that the bounds have in common.
use Prim.Native.Nat.{bit_xor, differ}
use pclass_vectorized.Prelude.{
  ℕ, suc, zero, ◌+◌, ◌-◌, ◌*◌, ◌/◌, ◌%◌, ◌^◌, ◌≤◌, ◌<◌, ◌≡◌, ◌≢◌, refl, sym, ap, ◌∙◌, inl, inr,
  Bool, true, ◌&&◌, List, [], ◌∷◌, arith, leb, ◌==◌, get_or, Bool-cases, ==_iff, if◌then◌else◌,
  subst,
}
use native.Mathlib.Nat.{div-div-eq-div-mul}
use pclass_vectorized.Prelude.Bits.{differ-zero, differ_self, bit_xor-pow2, bit_xor-bit}
use pclass_vectorized.Range.{Range1d}
use pclass_vectorized.Range.Mask.{
  byte_prefix, get_common_prefix_length, mask_le_loop, get_mask_le, byte_at,
}
use pclass_vectorized.Range.Prefix.{
  IsPrefixMask, mask_le_loop-IsPrefixMask, byte_prefix-le, pow_more,
}

-- Bit j of a value.
abbrev pub bit : ℕ → ℕ → ℕ
bit v j = v / 2 ^ j % 2

-- The bits of x from k - 1 down to 0, from what the table says of x: those of the prefix are clear, and
-- the one behind it is set.
bits_agree : ℕ → ℕ → ℕ → Bool
bits_agree x pl zero = true
bits_agree x pl (suc k) =
    (if leb 8 (k + pl) then bit x k == 0 else if k + pl == 7 then bit x k == 1 else true)
    && bits_agree x pl k

bits_agree_at :
    (x pl n k : ℕ)
    → k < n
    → bits_agree x pl n ≡ true
    → (if leb 8 (k + pl) then bit x k == 0 else if k + pl == 7 then bit x k == 1 else true) ≡ true
unfolding bits_agree
bits_agree_at x pl zero k lt all = absurd (omega arith)
bits_agree_at x pl (suc n) k lt all = elim (Bool-cases (k == n)) [
  | inl e ↦ let e' : k ≡ n = ground arith in rw e' (ground arith)
  | inr ne ↦ bits_agree_at x pl n k (ground arith) (ground arith)
]

-- The entries of the table from x on.
table_agrees : List ℕ → ℕ → Bool
table_agrees [] x = true
table_agrees (pl ∷ table) x = bits_agree x pl 8 && table_agrees table (x + 1)

length_of : List ℕ → ℕ
length_of [] = 0
length_of (x ∷ xs) = suc (length_of xs)

table_agrees_at :
    (table : List ℕ) (start i : ℕ)
    → i < length_of table
    → table_agrees table start ≡ true
    → bits_agree (start + i) (get_or table i 0) 8 ≡ true
unfolding table_agrees length_of
table_agrees_at [] start i lt all = absurd (omega arith)
table_agrees_at (pl ∷ table) start zero lt all =
    let same : start ≡ start + 0 = omega arith in
    subst (λ x. bits_agree x pl 8 ≡ true) same (ground arith)
table_agrees_at (pl ∷ table) start (suc i) lt all =
    let same : start + 1 + i ≡ start + suc i = omega arith in
    subst (λ x. bits_agree x (get_or table i 0) 8 ≡ true) same
      (table_agrees_at table (start + 1) i (omega arith) (ground arith))

byte_prefix-agrees : (x : ℕ) → x < 256 → bits_agree x (get_or byte_prefix x 0) 8 ≡ true
unfolding byte_prefix table_agrees bits_agree length_of
byte_prefix-agrees x lt =
    let same : 0 + x ≡ x = omega arith in
    subst (λ y. bits_agree y (get_or byte_prefix x 0) 8 ≡ true) same
      (table_agrees_at byte_prefix 0 x lt refl)

bit_xor_byte : (a b : ℕ) → a < 256 → b < 256 → bit_xor a b < 256
bit_xor_byte a b lt lt' =
    let a0 : a / 256 ≡ 0 = omega arith in
    let b0 : b / 256 ≡ 0 = omega arith in
    let none_above : bit_xor a b / 256 ≡ 0 =
      bit_xor-pow2 8 a b ∙ ap (λ x. bit_xor x (b / 256)) a0 ∙ ap (bit_xor 0) b0 in
    omega arith

-- The prefix of two bytes: they agree on its bits, and not on the one behind it.
module _ (a b : ℕ) (lt : a < 256) (lt' : b < 256) where
  abbrev prefix : ℕ
  prefix = get_or byte_prefix (bit_xor a b) 0

  xor_bit :
      (k : ℕ)
      → k < 8
      → (if leb 8 (k + prefix)
          then bit (bit_xor a b) k == 0
          else if k + prefix == 7
          then bit (bit_xor a b) k == 1
          else true)
        ≡ true
  xor_bit k le =
      bits_agree_at (bit_xor a b) prefix 8 k le
        (byte_prefix-agrees (bit_xor a b) (bit_xor_byte a b lt lt'))

  same_bit : (k : ℕ) → k < 8 → 8 ≤ k + prefix → bit a k ≡ bit b k
  same_bit k le inside =
      let clear : bit (bit_xor a b) k ≡ 0 = ground (arith, xor_bit k le, inside) in
      differ-zero (bit a k) (bit b k) (omega arith) (omega arith) (sym (bit_xor-bit k a b) ∙ clear)

  other_bit : (k : ℕ) → k + prefix ≡ 7 → bit a k ≢ bit b k
  other_bit k behind same =
      let set : bit (bit_xor a b) k ≡ 1 = ground (arith, xor_bit k (omega arith), behind) in
      let clear : bit (bit_xor a b) k ≡ 0 =
        bit_xor-bit k a b ∙ ap (λ x. differ x (bit b k)) same ∙ differ_self (bit b k) in
      omega arith

low_bit : (x k : ℕ) → k < 8 → bit (x % 256) k ≡ bit x k
low_bit x zero lt = omega arith
low_bit x (suc zero) lt = omega arith
low_bit x (suc (suc zero)) lt = omega arith
low_bit x (suc (suc (suc zero))) lt = omega arith
low_bit x (suc (suc (suc (suc zero)))) lt = omega arith
low_bit x (suc (suc (suc (suc (suc zero))))) lt = omega arith
low_bit x (suc (suc (suc (suc (suc (suc zero)))))) lt = omega arith
low_bit x (suc (suc (suc (suc (suc (suc (suc zero))))))) lt = omega arith
low_bit x (suc (suc (suc (suc (suc (suc (suc (suc k)))))))) lt = absurd (omega arith)

-- The bits of a byte of a value.
bit-byte_at : (v b k : ℕ) → k < 8 → bit (byte_at v b) k ≡ bit v (8 * b + k)
bit-byte_at v b k lt =
    let place : 256 ^ b * 2 ^ k ≡ 2 ^ (8 * b + k) = omega (arith, pow_more k b) in
    low_bit (v / 256 ^ b) k lt
    ∙ ap (λ x. x % 2) (div-div-eq-div-mul v (256 ^ b) (2 ^ k) ∙ ap (λ x. v / x) place)

-- Of the 8 * n bits, the upper pl are those that both values have in common.
abbrev pub IsCommonPrefix : ℕ → ℕ → ℕ → ℕ → Type 0
IsCommonPrefix n low high pl =
    ((j : ℕ) → j < 8 * n → 8 * n ≤ j + pl → bit low j ≡ bit high j)
    × ((j : ℕ) → j + pl + 1 ≡ 8 * n → bit low j ≢ bit high j)

module _ (low high b : ℕ) where
  abbrev in_byte : ℕ
  in_byte = get_or byte_prefix (bit_xor (byte_at low b) (byte_at high b)) 0

  same_in_byte :
      (j : ℕ) → 8 * b ≤ j → j < 8 * suc b → 8 * suc b ≤ j + in_byte → bit low j ≡ bit high j
  same_in_byte j ge lt inside =
      let k = j - 8 * b in
      let place : 8 * b + k ≡ j = omega arith in
      let small : k < 8 = omega arith in
      let same =
        same_bit (byte_at low b) (byte_at high b) (omega arith) (omega arith) k small
          (omega arith) in
      ap (bit low) (sym place)
      ∙ sym (bit-byte_at low b k small)
      ∙ same
      ∙ bit-byte_at high b k small
      ∙ ap (bit high) place

  other_in_byte : (j : ℕ) → j + in_byte + 1 ≡ 8 * suc b → in_byte < 8 → bit low j ≢ bit high j
  other_in_byte j behind part same =
      let k = j - 8 * b in
      let place : 8 * b + k ≡ j = omega arith in
      let small : k < 8 = omega arith in
      other_bit (byte_at low b) (byte_at high b) (omega arith) (omega arith) k (omega arith) (
        bit-byte_at low b k small
        ∙ ap (bit low) place
        ∙ same
        ∙ ap (bit high) (sym place)
        ∙ sym (bit-byte_at high b k small))

mask_le_loop-IsCommonPrefix :
    (low high n : ℕ) → IsCommonPrefix n low high (mask_le_loop low high n).1
unfolding mask_le_loop get_common_prefix_length
mask_le_loop-IsCommonPrefix low high zero =
    ((λ j lt le. absurd (omega arith)), λ j e. absurd (omega arith))
mask_le_loop-IsCommonPrefix low high (suc b) =
    let (same, other) = mask_le_loop-IsCommonPrefix low high b in
    elim (Bool-cases (in_byte low high b == 8)) [
      | inl whole ↦
          let e : in_byte low high b ≡ 8 = (==_iff (in_byte low high b) 8).0 whole in
          rw whole (
            (λ j lt le. elim (Bool-cases (leb (8 * b) j)) [
              | inl here ↦
                  let ge : 8 * b ≤ j = ground arith in same_in_byte low high b j ge lt (omega arith)
              | inr below ↦ same j (ground arith) (omega arith)
            ]),
            λ j behind. other j (omega arith),
          )
      | inr part ↦
          let le8 = byte_prefix-le (bit_xor (byte_at low b) (byte_at high b)) in
          let less : in_byte low high b < 8 = ground (arith, le8, part) in
          rw part (
            (λ j lt le. same_in_byte low high b j (omega arith) lt (omega arith)),
            λ j behind. other_in_byte low high b j (omega arith) less,
          )
    ]

-- `_get_mask_le` of a range of n bytes returns a mask and a length, such that the bounds of the range
-- agree on that many of their upper bits and not on the one behind them, and these are the bits that are
-- set in the mask, and no others.
pub get_mask_le-IsCommonPrefix :
    (n : ℕ) (r : Range1d)
    → IsPrefixMask n (get_mask_le n r) × IsCommonPrefix n r.low r.high (get_mask_le n r).1
unfolding get_mask_le
get_mask_le-IsCommonPrefix n r =
    (mask_le_loop-IsPrefixMask r.low r.high n, mask_le_loop-IsCommonPrefix r.low r.high n)
