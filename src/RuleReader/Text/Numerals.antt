-- ===== src/RuleReader/Text/Numerals.antt =====
-- src/rule_parser/classbench_rule_parser.cpp: numbers that are printed and read again.
use native.Mathlib.Nat.{div-lt_iff_lt-mul, pow-suc, pow-zero, mod-lt, div-add-mod'}
use mathlib.Core.List.{append_assoc, append-nil}
use pclass_vectorized.Prelude.{
  ℕ, zero, suc, ◌+◌, ◌*◌, ◌/◌, ◌%◌, ◌^◌, ◌<◌, ◌≤◌, ◌≡◌, refl, ap, ◌∙◌, false, none, some, ◌⊎◌, List,
  [], ◌∷◌, ◌++◌, arith, All, sym, inl, inr, All-append,
}
use pclass_vectorized.RuleReader.Text.{digit_char, digit, scan, numeral, decimal, atoui, is_space}

pub digit-digit_char : (base d : ℕ) → base ≤ 16 → d < base → digit base (digit_char d) ≡ some d
digit-digit_char base d le lt = ground arith

pub scan-some :
    (base c : ℕ) {d : ℕ} (v : ℕ) (s : List ℕ)
    → digit base c ≡ some d
    → scan base v (c ∷ s) ≡ scan base (v * base + d) s
unfolding scan
scan-some base c v s h = ap (λ o. elim o [ none ↦ v | some d ↦ scan base (v * base + d) s ]) h

pub scan-none : (base c v : ℕ) (s : List ℕ) → digit base c ≡ none → scan base v (c ∷ s) ≡ v
unfolding scan
scan-none base c v s h = ap (λ o. elim o [ none ↦ v | some d ↦ scan base (v * base + d) s ]) h

ltb-cases : (a b : ℕ) → (a < b) ⊎ (b ≤ a)
ltb-cases a b = ground arith

module _ (base : ℕ) (lo : 2 ≤ base) where
  numeral_small : (fuel n : ℕ) → n < base → numeral base (suc fuel) n ≡ digit_char n ∷ []
  unfolding numeral
  numeral_small fuel n lt = ground arith

  numeral_large :
      (fuel n : ℕ)
      → base ≤ n
      → numeral base (suc fuel) n ≡ numeral base fuel (n / base) ++ digit_char (n % base) ∷ []
  unfolding numeral
  numeral_large fuel n le = ground arith

  -- The first digit.
  pub numeral_cons :
      (fuel n : ℕ)
      → (d : ℕ) × (s : List ℕ) × (d < base) × (numeral base (suc fuel) n ≡ digit_char d ∷ s)
  unfolding numeral
  numeral_cons zero n = elim (ltb-cases n base) [
    | inl lt ↦ (n, [], lt, numeral_small 0 n lt)
    | inr le ↦ (n % base, [], mod-lt n (omega arith), numeral_large 0 n le)
  ]
  numeral_cons (suc fuel) n = elim (ltb-cases n base) [
    | inl lt ↦ (n, [], lt, numeral_small (suc fuel) n lt)
    | inr le ↦
        let (d, s, lt, e) = numeral_cons fuel (n / base) in
        (
          d,
          s ++ digit_char (n % base) ∷ [],
          lt,
          numeral_large (suc fuel) n le ∙ ap (λ w. w ++ digit_char (n % base) ∷ []) e,
        )
  ]

  -- Every character is a digit.
  pub All-numeral :
      (P : ℕ → Type 0) (fuel n : ℕ)
      → ((d : ℕ) → d < base → P (digit_char d))
      → All P (numeral base fuel n)
  unfolding numeral
  All-numeral P zero n h = tt
  All-numeral P (suc fuel) n h = elim (ltb-cases n base) [
    | inl lt ↦ rw (numeral_small fuel n lt) (h n lt, tt)
    | inr le ↦
        let last = h (n % base) (mod-lt n (omega arith)) in
        rw (numeral_large fuel n le) (
          All-append P (numeral base fuel (n / base)) (digit_char (n % base) ∷ [])
            (All-numeral P fuel (n / base) h) (last, tt))
  ]

  module _ (hi : base ≤ 16) where
    scan-digit_char :
        (v d : ℕ) (s : List ℕ)
        → d < base
        → scan base v (digit_char d ∷ s) ≡ scan base (v * base + d) s
    scan-digit_char v d s lt = scan-some base (digit_char d) v s (digit-digit_char base d hi lt)

    -- A printed number is read back as itself, whatever the text behind it.
    pub scan-numeral :
        (fuel n : ℕ) (s : List ℕ)
        → n < base ^ fuel
        → scan base 0 (numeral base fuel n ++ s) ≡ scan base n s
    unfolding numeral
    scan-numeral zero n s lt = let e : n ≡ 0 = omega (arith, pow-zero base) in rw e refl
    scan-numeral (suc fuel) n s lt = elim (ltb-cases n base) [
      | inl small ↦
          let first : 0 * base + n ≡ n = omega arith in
          ap (λ w. scan base 0 (w ++ s)) (numeral_small fuel n small)
          ∙ scan-digit_char 0 n s small
          ∙ ap (λ v. scan base v s) first
      | inr le ↦
          let positive : 0 < base = omega arith in
          let less : n / base < base ^ fuel =
            (div-lt_iff_lt-mul positive).1 (rw (pow-suc base fuel) at lt) in
          let last = digit_char (n % base) in
          ap (λ w. scan base 0 (w ++ s)) (numeral_large fuel n le)
          ∙ ap (scan base 0) (append_assoc (numeral base fuel (n / base)) (last ∷ []) s)
          ∙ scan-numeral fuel (n / base) (last ∷ s) less
          ∙ scan-digit_char (n / base) (n % base) s (mod-lt n (omega arith))
          ∙ ap (λ v. scan base v s) (div-add-mod' n base)
    ]

digit_char-is_space : (d : ℕ) → d < 16 → is_space (digit_char d) ≡ false
digit_char-is_space d lt = ground arith

atoui_digit :
    (d : ℕ) (s : List ℕ)
    → d < 10
    → scan 10 0 (digit_char d ∷ s) < 2 ^ 32
    → atoui (digit_char d ∷ s) ≡ scan 10 0 (digit_char d ∷ s)
unfolding atoui
atoui_digit d s lt fits = ground arith

-- A printed number of 32 bits is read back by `atoui`.
pub atoui-decimal : (n : ℕ) → n < 2 ^ 32 → atoui (decimal n) ≡ n
unfolding scan
atoui-decimal n lt =
    let (d, s, small, e) = numeral_cons 10 (omega arith) 19 n in
    let back : scan 10 0 (decimal n) ≡ n =
      ap (scan 10 0) (sym (append-nil (decimal n)))
      ∙ scan-numeral 10 (omega arith) (omega arith) 20 n [] (omega arith) in
    let read = rw e at back in rw e (atoui_digit d s small (rw read lt) ∙ read)

-- A printed number is not empty.
pub decimal_cons : (n : ℕ) → (c : ℕ) × (s : List ℕ) × (decimal n ≡ c ∷ s)
decimal_cons n = let (d, s, small, e) = numeral_cons 10 (omega arith) 19 n in (digit_char d, s, e)
