-- ===== src/Range/Prefix.antt =====
-- include/pcv/common/range.h: `_get_mask_le`, against the masks of prefixes.
use Prim.Native.Nat.{bit_xor}
use pclass_vectorized.Prelude.{
  ℕ, suc, zero, ◌+◌, ◌-◌, ◌*◌, ◌^◌, ◌≤◌, ◌≡◌, refl, sym, ap, ◌∙◌, inl, inr, Bool, true, ◌&&◌, List,
  [], ◌∷◌, arith, leb, ◌==◌, get_or, Bool-cases, ==_iff,
}
use native.Mathlib.Nat.{add-mul}
use pclass_vectorized.Range.Mask.{
  byte_prefix, mask_val, get_common_prefix_length, mask_le_loop, byte_at,
}

all_below_9 : List ℕ → Bool
all_below_9 [] = true
all_below_9 (x ∷ xs) = leb x 8 && all_below_9 xs

get_or-le : (xs : List ℕ) (i : ℕ) → all_below_9 xs ≡ true → get_or xs i 0 ≤ 8
unfolding all_below_9
get_or-le [] i all = omega arith
get_or-le (x ∷ xs) zero all = ground arith
get_or-le (x ∷ xs) (suc i) all = get_or-le xs i (ground arith)

pub byte_prefix-le : (i : ℕ) → get_or byte_prefix i 0 ≤ 8
unfolding byte_prefix all_below_9
byte_prefix-le i = get_or-le byte_prefix i refl

-- The mask of a byte has the prefix's bits at the top.
mask_val_lem : (pl : ℕ) → pl ≤ 8 → get_or mask_val pl 0 + 2 ^ (8 - pl) ≡ 256
unfolding mask_val
mask_val_lem zero le = refl
mask_val_lem (suc zero) le = refl
mask_val_lem (suc (suc zero)) le = refl
mask_val_lem (suc (suc (suc zero))) le = refl
mask_val_lem (suc (suc (suc (suc zero)))) le = refl
mask_val_lem (suc (suc (suc (suc (suc zero))))) le = refl
mask_val_lem (suc (suc (suc (suc (suc (suc zero)))))) le = refl
mask_val_lem (suc (suc (suc (suc (suc (suc (suc zero))))))) le = refl
mask_val_lem (suc (suc (suc (suc (suc (suc (suc (suc zero)))))))) le = refl
mask_val_lem (suc (suc (suc (suc (suc (suc (suc (suc (suc pl))))))))) le = absurd (omega arith)

pow_256 : (b : ℕ) → 2 ^ (8 * b) ≡ 256 ^ b
pow_256 zero = refl
pow_256 (suc b) =
    let e : 8 * suc b ≡ suc (suc (suc (suc (suc (suc (suc (suc (8 * b)))))))) = omega arith in
    rw e (omega (arith, pow_256 b))

pub pow_more : (e b : ℕ) → 2 ^ (8 * b + e) ≡ 2 ^ e * 256 ^ b
pow_more zero b = let e : 8 * b + 0 ≡ 8 * b = omega arith in rw e (omega (arith, pow_256 b))
pow_more (suc e) b =
    let next : 8 * b + suc e ≡ suc (8 * b + e) = omega arith in
    let double : 2 ^ suc e ≡ 2 ^ e + 2 ^ e = omega arith in
    rw (next, double, add-mul (2 ^ e) (2 ^ e) (256 ^ b)) (omega (arith, pow_more e b))

distribute : (p q m : ℕ) → p + q ≡ 256 → p * m + q * m ≡ 256 * m
distribute p q m e = sym (add-mul p q m) ∙ ap (λ x. x * m) e

-- A mask of n bytes with the upper pl bits set, and pl.
abbrev pub IsPrefixMask : ℕ → ℕ × ℕ → Type 0
IsPrefixMask n (mask, pl) = (pl ≤ 8 * n) × (mask + 2 ^ (8 * n - pl) ≡ 256 ^ n)

-- The mask of the highest byte, if the prefix ends in it.
last_byte : (b pl : ℕ) → pl ≤ 8 → IsPrefixMask (suc b) (get_or mask_val pl 0 * 256 ^ b, pl)
last_byte b pl le =
    let e : 8 * suc b - pl ≡ 8 * b + (8 - pl) = omega arith in
    let sum = distribute (get_or mask_val pl 0) (2 ^ (8 - pl)) (256 ^ b) (mask_val_lem pl le) in
    (omega arith, rw (e, pow_more (8 - pl) b) (omega (arith, sum)))

-- The highest byte, if the whole byte belongs to the prefix, before the others.
whole_byte :
    (b mask pl : ℕ)
    → IsPrefixMask b (mask, pl)
    → IsPrefixMask (suc b) (get_or mask_val 8 0 * 256 ^ b + mask, 8 + pl)
unfolding mask_val
whole_byte b mask pl (le, sum) =
    let e : 8 * suc b - (8 + pl) ≡ 8 * b - pl = omega arith in
    (omega arith, rw e (omega (arith, sum)))

pub mask_le_loop-IsPrefixMask : (low high n : ℕ) → IsPrefixMask n (mask_le_loop low high n)
unfolding mask_le_loop get_common_prefix_length
mask_le_loop-IsPrefixMask low high zero = (omega arith, refl)
mask_le_loop-IsPrefixMask low high (suc b) =
    let x = bit_xor (byte_at low b) (byte_at high b) in
    let (le, sum) = mask_le_loop-IsPrefixMask low high b in
    elim (Bool-cases (get_or byte_prefix x 0 == 8)) [
      | inl whole ↦
          let e : get_or byte_prefix x 0 ≡ 8 = (==_iff (get_or byte_prefix x 0) 8).0 whole in
          rw (whole, e) (whole_byte b _ _ (le, sum))
      | inr part ↦ rw part (last_byte b (get_or byte_prefix x 0) (byte_prefix-le x))
    ]
