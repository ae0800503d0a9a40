-- ===== src/Prelude/Bits.antt =====
-- Bitwise operations with the masks that the program uses: ones in the low places, ones above them,
-- and a single one.
use Prim.Native.Nat.{
  ℕ, zero, suc, bitwise, ◌+◌, ◌-◌, ◌*◌, ◌/◌, ◌%◌, ◌^◌, ◌≤◌, ◌<◌, min, max, bit_and, bit_or, digits,
  bit_and-bitwise, bit_or-bitwise, bit_xor, bit_xor-bitwise, differ,
}
use mathlib.Core.Path.{◌≡◌, refl, ap, ◌∙◌, sym}
use native.Mathlib.Nat.{div-div-eq-div-mul, mul_assoc, pow-suc, pow-succ', one-le-pow, div-eq_of_lt}
use native.Mathlib.Omega.{arith}

module _ (z : ℕ → ℕ) (f : ℕ → ℕ → ℕ) where
  -- Where the count of digits reaches the number, one more is not looked at.
  more : (count a b : ℕ) → a ≤ count → digits z f (suc count) a b ≡ digits z f count a b
  more zero zero b le = refl
  more (suc count) zero b le = refl
  more zero (suc a) b le = absurd (omega arith)
  more (suc count) (suc a) b le =
      let half = more count (suc a / 2) (b / 2) (omega arith) in
      ap (λ rest. rest * 2 + f (suc a % 2) (b % 2)) half

  many : (extra a b : ℕ) → digits z f (extra + a) a b ≡ digits z f a a b
  many zero a b = ap (λ count. digits z f count a b) (omega arith)
  many (suc extra) a b =
      let e : suc extra + a ≡ suc (extra + a) = omega arith in
      ap (λ count. digits z f count a b) e ∙ more (extra + a) a b (omega arith) ∙ many extra a b

  -- The lowest digit, and the others.
  module _ (at_zero : (b : ℕ) → z b ≡ z (b / 2) * 2 + f 0 (b % 2)) where
    lowest : (a b : ℕ) → bitwise z f a b ≡ bitwise z f (a / 2) (b / 2) * 2 + f (a % 2) (b % 2)
    lowest zero b = at_zero b
    lowest (suc a) b =
        let extra = a - suc a / 2 in
        let e : a ≡ extra + suc a / 2 = omega arith in
        ap (λ count. digits z f count (suc a / 2) (b / 2) * 2 + f (suc a % 2) (b % 2)) e
        ∙ ap (λ rest. rest * 2 + f (suc a % 2) (b % 2)) (many extra (suc a / 2) (b / 2))

bit_and-halves : (a b : ℕ) → bit_and a b ≡ bit_and (a / 2) (b / 2) * 2 + min (a % 2) (b % 2)
bit_and-halves a b =
    let native = bit_and-bitwise (a / 2) (b / 2) in
    bit_and-bitwise a b
    ∙ lowest (λ b. zero) min (λ b. omega arith) a b
    ∙ ap (λ rest. rest * 2 + min (a % 2) (b % 2)) (sym native)

bit_or-halves : (a b : ℕ) → bit_or a b ≡ bit_or (a / 2) (b / 2) * 2 + max (a % 2) (b % 2)
bit_or-halves a b =
    let native = bit_or-bitwise (a / 2) (b / 2) in
    bit_or-bitwise a b
    ∙ lowest (λ b. b) max (λ b. omega arith) a b
    ∙ ap (λ rest. rest * 2 + max (a % 2) (b % 2)) (sym native)

and_nothing : (count a : ℕ) → digits (λ b. zero) min count a 0 ≡ 0
and_nothing zero a = refl
and_nothing (suc count) zero = refl
and_nothing (suc count) (suc a) = omega (arith, and_nothing count (suc a / 2))

pub bit_and-zero : (a : ℕ) → bit_and a 0 ≡ 0
bit_and-zero a = bit_and-bitwise a 0 ∙ and_nothing a a

or_nothing : (count a : ℕ) → a ≤ count → digits (λ b. b) max count a 0 ≡ a
or_nothing zero a le = omega arith
or_nothing (suc count) zero le = refl
or_nothing (suc count) (suc a) le = omega (arith, or_nothing count (suc a / 2) (omega arith))

bit_or-zero : (a : ℕ) → bit_or a 0 ≡ a
bit_or-zero a = bit_or-bitwise a 0 ∙ or_nothing a a (omega arith)

pub pow2_pos : (k : ℕ) → 1 ≤ 2 ^ k
pow2_pos k = one-le-pow k 2 (omega arith)

pub div-pow2_suc : (a k : ℕ) → a / 2 ^ suc k ≡ a / 2 / 2 ^ k
div-pow2_suc a k = ap (◌/◌ a) (pow-succ' 2 k) ∙ sym (div-div-eq-div-mul a 2 (2 ^ k))

pub pow2_add : (j k : ℕ) → 2 ^ (j + k) ≡ 2 ^ j * 2 ^ k
pow2_add j zero = let e : 2 ^ (j + 0) ≡ 2 ^ j = ap (λ n. 2 ^ n) (omega arith) in e ∙ omega arith
pow2_add j (suc k) =
    let e : 2 ^ (j + suc k) ≡ 2 ^ suc (j + k) = ap (λ n. 2 ^ n) (omega arith) in
    e
    ∙ pow-suc 2 (j + k)
    ∙ ap (λ p. p * 2) (pow2_add j k)
    ∙ mul_assoc (2 ^ j) (2 ^ k) 2
    ∙ ap (λ p. 2 ^ j * p) (sym (pow-suc 2 k))

-- One digit of the second number at a time.
bit_and-digit : (a m b : ℕ) → b < 2 → bit_and a (m * 2 + b) ≡ bit_and (a / 2) m * 2 + min (a % 2) b
bit_and-digit a m b h =
    let half : (m * 2 + b) / 2 ≡ m = omega arith in
    let digit : (m * 2 + b) % 2 ≡ b = omega arith in bit_and-halves a (m * 2 + b) ∙ cc (half, digit)

bit_or-digit : (a m b : ℕ) → b < 2 → bit_or a (m * 2 + b) ≡ bit_or (a / 2) m * 2 + max (a % 2) b
bit_or-digit a m b h =
    let half : (m * 2 + b) / 2 ≡ m = omega arith in
    let digit : (m * 2 + b) % 2 ≡ b = omega arith in bit_or-halves a (m * 2 + b) ∙ cc (half, digit)

twice_block : (a k : ℕ) → a / 2 ^ suc k * 2 ^ suc k ≡ a / 2 / 2 ^ k * 2 ^ k * 2
twice_block a k =
    ap (λ q. q * 2 ^ suc k) (div-pow2_suc a k)
    ∙ ap (λ p. a / 2 / 2 ^ k * p) (pow-suc 2 k)
    ∙ sym (mul_assoc (a / 2 / 2 ^ k) (2 ^ k) 2)

-- The low k places.
pub bit_and-low : (k a : ℕ) → a ≡ a / 2 ^ k * 2 ^ k + bit_and a (2 ^ k - 1)
bit_and-low zero a = omega (arith, bit_and-zero a)
bit_and-low (suc k) a =
    let mask : 2 ^ suc k - 1 ≡ (2 ^ k - 1) * 2 + 1 = omega (arith, pow-succ' 2 k, pow2_pos k) in
    let digit = bit_and-digit a (2 ^ k - 1) 1 (omega arith) in
    rw mask (omega (arith, digit, bit_and-low k (a / 2), twice_block a k))

-- The places from k on, of k + d.
pub bit_and-high :
    (k d a : ℕ) → a < 2 ^ (k + d) → bit_and a (2 ^ (k + d) - 2 ^ k) ≡ a / 2 ^ k * 2 ^ k
bit_and-high zero d a h =
    let all : 2 ^ (0 + d) ≡ 2 ^ d = ap (λ e. 2 ^ e) (omega arith) in
    let none_above : a / 2 ^ d ≡ 0 = div-eq_of_lt (omega (arith, all)) in
    let low = rw none_above at (bit_and-low d a) in rw all (omega (arith, low))
bit_and-high (suc k) d a h =
    let more : 2 ^ (suc k + d) ≡ 2 ^ (k + d) * 2 =
      ap (λ e. 2 ^ e) (omega arith) ∙ pow-suc 2 (k + d) in
    let mask : 2 ^ (suc k + d) - 2 ^ suc k ≡ (2 ^ (k + d) - 2 ^ k) * 2 + 0 =
      omega (arith, more, pow-suc 2 k) in
    let digit = bit_and-digit a (2 ^ (k + d) - 2 ^ k) 0 (omega arith) in
    let rest = bit_and-high k d (a / 2) (omega (arith, more)) in
    rw mask (omega (arith, digit, rest, twice_block a k))

-- All of the low k places are set.
pub bit_or-low : (k a : ℕ) → bit_or a (2 ^ k - 1) ≡ a / 2 ^ k * 2 ^ k + (2 ^ k - 1)
bit_or-low zero a = omega (arith, bit_or-zero a)
bit_or-low (suc k) a =
    let mask : 2 ^ suc k - 1 ≡ (2 ^ k - 1) * 2 + 1 = omega (arith, pow-succ' 2 k, pow2_pos k) in
    let digit = bit_or-digit a (2 ^ k - 1) 1 (omega arith) in
    rw mask (omega (arith, digit, bit_or-low k (a / 2), twice_block a k, mask))

-- A single place.
pub bit_and-bit : (k a : ℕ) → bit_and a (2 ^ k) ≡ a / 2 ^ k % 2 * 2 ^ k
bit_and-bit zero a = omega (arith, bit_and-digit a 0 1 (omega arith), bit_and-zero (a / 2))
bit_and-bit (suc k) a =
    let mask : 2 ^ suc k ≡ 2 ^ k * 2 + 0 = omega (arith, pow-suc 2 k) in
    let digit = ap (bit_and a) mask ∙ bit_and-digit a (2 ^ k) 0 (omega arith) in
    let halves = ap (λ q. q % 2 * 2 ^ suc k) (div-pow2_suc a k) in
    let double = ap (λ p. a / 2 / 2 ^ k % 2 * p) (pow-suc 2 k) in
    let assoc = mul_assoc (a / 2 / 2 ^ k % 2) (2 ^ k) 2 in
    omega (arith, digit, bit_and-bit k (a / 2), halves, double, assoc)

bit_xor-halves : (a b : ℕ) → bit_xor a b ≡ bit_xor (a / 2) (b / 2) * 2 + differ (a % 2) (b % 2)
bit_xor-halves a b =
    let native = bit_xor-bitwise (a / 2) (b / 2) in
    bit_xor-bitwise a b
    ∙ lowest (λ b. b) differ (λ b. omega arith) a b
    ∙ ap (λ rest. rest * 2 + differ (a % 2) (b % 2)) (sym native)

-- Two digits of the base 2 differ, or are the same.
differ_le : (x y : ℕ) → x < 2 → y < 2 → differ x y < 2
differ_le zero y lt lt' = lt'
differ_le (suc zero) zero lt lt' = omega arith
differ_le (suc zero) (suc zero) lt lt' = omega arith
differ_le (suc zero) (suc (suc y)) lt lt' = absurd (omega arith)
differ_le (suc (suc x)) y lt lt' = absurd (omega arith)

pub differ-zero : (x y : ℕ) → x < 2 → y < 2 → differ x y ≡ 0 → x ≡ y
differ-zero zero y lt lt' e = sym e
differ-zero (suc zero) zero lt lt' e = absurd (omega arith)
differ-zero (suc zero) (suc zero) lt lt' e = refl
differ-zero (suc zero) (suc (suc y)) lt lt' e = absurd (omega arith)
differ-zero (suc (suc x)) y lt lt' e = absurd (omega arith)

pub differ_self : (x : ℕ) → differ x x ≡ 0
differ_self zero = refl
differ_self (suc x) = differ_self x

bit_xor_half : (a b : ℕ) → bit_xor a b / 2 ≡ bit_xor (a / 2) (b / 2)
bit_xor_half a b =
    omega (arith, bit_xor-halves a b, differ_le (a % 2) (b % 2) (omega arith) (omega arith))

bit_xor_lowest : (a b : ℕ) → bit_xor a b % 2 ≡ differ (a % 2) (b % 2)
bit_xor_lowest a b =
    omega (arith, bit_xor-halves a b, differ_le (a % 2) (b % 2) (omega arith) (omega arith))

pub bit_xor-pow2 : (k a b : ℕ) → bit_xor a b / 2 ^ k ≡ bit_xor (a / 2 ^ k) (b / 2 ^ k)
bit_xor-pow2 zero a b =
    let one : (x : ℕ) → x / 1 ≡ x = λ x. omega arith in
    one (bit_xor a b) ∙ ap (λ x. bit_xor x b) (sym (one a)) ∙ ap (bit_xor (a / 1)) (sym (one b))
bit_xor-pow2 (suc k) a b =
    div-pow2_suc (bit_xor a b) k
    ∙ ap (λ x. x / 2 ^ k) (bit_xor_half a b)
    ∙ bit_xor-pow2 k (a / 2) (b / 2)
    ∙ ap (λ x. bit_xor x (b / 2 / 2 ^ k)) (sym (div-pow2_suc a k))
    ∙ ap (λ x. bit_xor (a / 2 ^ suc k) x) (sym (div-pow2_suc b k))

pub bit_xor-bit : (k a b : ℕ) → bit_xor a b / 2 ^ k % 2 ≡ differ (a / 2 ^ k % 2) (b / 2 ^ k % 2)
bit_xor-bit k a b = ap (λ x. x % 2) (bit_xor-pow2 k a b) ∙ bit_xor_lowest (a / 2 ^ k) (b / 2 ^ k)
