-- ===== src/RuleReader/Printer/Protocol.antt =====
-- src/rule_parser/classbench_rule_parser.cpp: the protocol as it is printed and read.
use pclass_vectorized.Prelude.{
  ℕ, ◌<◌, ◌^◌, ◌≡◌, refl, sym, ap, ◌∙◌, subst, arith, true, false, List, [], ◌∷◌, ◌++◌, All, ◌==◌,
  ltb, Bool-cases, if◌then◌else◌, inl, inr, ◌⊎◌,
}
use native.Mathlib.Nat.{mod-eq_of_lt}
use mathlib.Core.List.{append-nil}
use pclass_vectorized.Range.{Range1d, range}
use pclass_vectorized.RuleReader.Text.{success, digit_char, numeral, scan, split, text}
use pclass_vectorized.RuleReader.Text.Numerals.{
  All-numeral, numeral_cons, scan-numeral, scan-some, digit-digit_char,
}
use pclass_vectorized.RuleReader.Text.Pieces.{Lacks, split-append, split_last}
use pclass_vectorized.RuleReader.Classbench.{parse_protocol, stoul_16}
use pclass_vectorized.RuleReader.Printer.{print_range_hex, hex_2}

-- What the ClassBench line can hold of the protocol: one value, or any.
abbrev pub IsPrintable : Range1d → Type 0
IsPrintable r = ((r.low < 2 ^ 16) × (r.high ≡ r.low)) ⊎ (r ≡ range 0 65535)

hex_2-cases : (v : ℕ) → (hex_2 v ≡ b'0' ∷ numeral 16 20 v) ⊎ (hex_2 v ≡ numeral 16 20 v)
unfolding hex_2
hex_2-cases v = elim (Bool-cases (ltb v 16)) [
  | inl h ↦ inl (ap (λ b. if b then b'0' ∷ numeral 16 20 v else numeral 16 20 v) h)
  | inr h ↦ inr (ap (λ b. if b then b'0' ∷ numeral 16 20 v else numeral 16 20 v) h)
]

scan-hex_2 : (v : ℕ) → v < 2 ^ 16 → scan 16 0 (hex_2 v) ≡ v
unfolding scan
scan-hex_2 v b =
    let back : scan 16 0 (numeral 16 20 v) ≡ v =
      ap (scan 16 0) (sym (append-nil (numeral 16 20 v)))
      ∙ scan-numeral 16 (omega arith) (omega arith) 20 v [] (omega arith) in
    elim (hex_2-cases v) [
      | inl e ↦ ap (scan 16 0) e ∙ scan-some 16 b'0' 0 (numeral 16 20 v) refl ∙ back
      | inr e ↦ ap (scan 16 0) e ∙ back
    ]

hex_2_cons : (v : ℕ) → (d : ℕ) × (s : List ℕ) × (d < 16) × (hex_2 v ≡ digit_char d ∷ s)
hex_2_cons v = elim (hex_2-cases v) [
  | inl e ↦ (0, numeral 16 20 v, omega arith, e)
  | inr e ↦ let (d, s, lt, cons) = numeral_cons 16 (omega arith) 19 v in (d, s, lt, e ∙ cons)
]

pub All-hex_2 : (P : ℕ → Type 0) (v : ℕ) → ((d : ℕ) → d < 16 → P (digit_char d)) → All P (hex_2 v)
All-hex_2 P v h =
    let all = All-numeral 16 (omega arith) P 20 v h in
    elim (hex_2-cases v) [
      | inl e ↦ subst (All P) (sym e) (h 0 (omega arith), all)
      | inr e ↦ subst (All P) (sym e) all
    ]

stoul_16_digit :
    (d : ℕ) (s : List ℕ)
    → d < 16
    → scan 16 0 (digit_char d ∷ s) < 2 ^ 16
    → stoul_16 (b'0' ∷ b'x' ∷ digit_char d ∷ s) ≡ success (scan 16 0 (digit_char d ∷ s))
unfolding stoul_16
stoul_16_digit d s lt fits =
    let known = digit-digit_char 16 d (omega arith) lt in ground (arith, known)

stoul_16-hex_2 : (v : ℕ) → v < 2 ^ 16 → stoul_16 (b'0' ∷ b'x' ∷ hex_2 v) ≡ success v
stoul_16-hex_2 v b =
    let (d, s, lt, e) = hex_2_cons v in
    let back = ap (scan 16 0) (sym e) ∙ scan-hex_2 v b in
    ap (λ w. stoul_16 (b'0' ∷ b'x' ∷ w)) e
    ∙ stoul_16_digit d s lt (omega (arith, back))
    ∙ ap success back

print_wildcard : parse_protocol (print_range_hex (range 0 65535)) ≡ success (range 0 65535)
unfolding parse_protocol print_range_hex split stoul_16 scan hex_2 numeral
print_wildcard = refl

split_hex :
    (v m : ℕ)
    → split (b'0' ∷ b'x' ∷ (hex_2 v ++ b'/' ∷ b'0' ∷ b'x' ∷ hex_2 m)) b'/'
      ≡ (b'0' ∷ b'x' ∷ hex_2 v) ∷ (b'0' ∷ b'x' ∷ hex_2 m) ∷ []
split_hex v m =
    let lacks : (n : ℕ) → Lacks b'/' (b'0' ∷ b'x' ∷ hex_2 n) = λ n.
      let hex = All-hex_2 (λ c. (c == b'/') ≡ false) n λ d lt. ground arith in
      (refl, (refl, hex)) in
    split-append (b'0' ∷ b'x' ∷ hex_2 v) (b'0' ∷ b'x' ∷ hex_2 m) b'/' (lacks v)
    ∙ ap (◌∷◌ (b'0' ∷ b'x' ∷ hex_2 v)) (split_last b'0' (b'x' ∷ hex_2 m) b'/' (lacks m))

hex_255 : hex_2 255 ≡ text "FF"
unfolding hex_2 numeral
hex_255 = refl

print_exact :
    (v : ℕ) → v < 2 ^ 16 → parse_protocol (print_range_hex (range v v)) ≡ success (range v v)
unfolding parse_protocol print_range_hex
print_exact v b =
    let same : (v == v) ≡ true = ground arith in
    rw same (rw (split_hex v 255) (rw hex_255 (rw (stoul_16-hex_2 v b) (rw (mod-eq_of_lt b) refl))))

pub parse_protocol-print_range_hex :
    (r : Range1d) → IsPrintable r → parse_protocol (print_range_hex r) ≡ success r
parse_protocol-print_range_hex r (inl (b, e)) =
    let same : r ≡ range r.low r.low = cc e in
    ap (λ p. parse_protocol (print_range_hex p)) same ∙ print_exact r.low b ∙ ap success (sym same)
parse_protocol-print_range_hex r (inr e) =
    ap (λ p. parse_protocol (print_range_hex p)) e ∙ print_wildcard ∙ ap success (sym e)
