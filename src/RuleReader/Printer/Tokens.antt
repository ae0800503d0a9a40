-- ===== src/RuleReader/Printer/Tokens.antt =====
-- src/rule_parser/classbench_rule_parser.cpp: the words of a printed line.
use mathlib.Core.List.{append_assoc, append-nil}
use pclass_vectorized.Prelude.{
  ℕ, ◌≤◌, ◌≡◌, refl, sym, ap, ◌∙◌, arith, true, false, List, [], ◌∷◌, ◌++◌, All, All-append, ◌==◌,
  if◌then◌else◌,
}
use pclass_vectorized.Range.{Range1d}
use pclass_vectorized.Rule.{RuleIpv4Acl}
use pclass_vectorized.RuleReader.Text.{is_space, decimal, numeral, words}
use pclass_vectorized.RuleReader.Text.Numerals.{All-numeral, decimal_cons}
use pclass_vectorized.RuleReader.Text.Pieces.{IsWord, IsWord-append, words-append, words_space}
use pclass_vectorized.RuleReader.Ipv4.Dotted.{dotted}
use pclass_vectorized.RuleReader.Printer.Protocol.{All-hex_2}
use pclass_vectorized.RuleReader.Printer.{
  print_ipv4, print_range, print_range_hex, print_rule, byte, printed_prefix_len, hex_2,
}

abbrev pub NoSpace : List ℕ → Type 0
NoSpace w = All (λ x. is_space x ≡ false) w

pub numeral-NoSpace : (base fuel n : ℕ) → 2 ≤ base → base ≤ 16 → NoSpace (numeral base fuel n)
numeral-NoSpace base fuel n lo hi =
    All-numeral base lo (λ x. is_space x ≡ false) fuel n λ d lt. ground arith

decimal-NoSpace : (n : ℕ) → NoSpace (decimal n)
decimal-NoSpace n = numeral-NoSpace 10 20 n (omega arith) (omega arith)

decimal-IsWord : (n : ℕ) → IsWord (decimal n)
decimal-IsWord n = let (c, s, e) = decimal_cons n in rw e (rw e at (decimal-NoSpace n))

NoSpace-append : (w s : List ℕ) → NoSpace w → NoSpace s → NoSpace (w ++ s)
NoSpace-append = All-append (λ x. is_space x ≡ false)

after_first : (b c d : ℕ) → NoSpace (b'.' ∷ (decimal b ++ b'.' ∷ (decimal c ++ b'.' ∷ decimal d)))
after_first b c d =
    let last =
      NoSpace-append (decimal c) (b'.' ∷ decimal d) (decimal-NoSpace c) (refl, decimal-NoSpace d) in
    let middle =
      NoSpace-append (decimal b) (b'.' ∷ (decimal c ++ b'.' ∷ decimal d)) (decimal-NoSpace b)
        (refl, last) in
    (refl, middle)

dotted-IsWord : (a b c d mask : ℕ) → IsWord (dotted a b c d ++ b'/' ∷ decimal mask)
dotted-IsWord a b c d mask =
    IsWord-append (dotted a b c d) (b'/' ∷ decimal mask)
      (IsWord-append (decimal a) (b'.' ∷ (decimal b ++ b'.' ∷ (decimal c ++ b'.' ∷ decimal d)))
        (decimal-IsWord a) (after_first b c d))
      (refl, decimal-NoSpace mask)

print_ipv4-IsWord : (r : Range1d) → IsWord (print_ipv4 r)
unfolding print_ipv4
print_ipv4-IsWord r =
    dotted-IsWord (byte r.low 3) (byte r.low 2) (byte r.low 1) (byte r.low 0)
      (printed_prefix_len 32 r.low r.high)

hex-IsWord : (r : Range1d) → IsWord (print_range_hex r)
unfolding print_range_hex
hex-IsWord r =
    let hex : (n : ℕ) → NoSpace (hex_2 n) =
      λ n. All-hex_2 (λ x. is_space x ≡ false) n λ d lt. ground arith in
    let mask = if r.low == r.high then 0xff else 0 in
    (
      refl,
      (
        refl,
        NoSpace-append (hex_2 r.low) (b'/' ∷ b'0' ∷ b'x' ∷ hex_2 mask) (hex r.low)
            (refl, (refl, (refl, hex mask))),
      ),
    )

-- One word and the space behind it.
word_then :
    (w : List ℕ) (x : ℕ) (s : List ℕ)
    → IsWord w
    → is_space x ≡ true
    → words (w ++ x ∷ s) ≡ w ∷ words s
word_then w x s h e = words-append w (x ∷ s) h e ∙ ap (◌∷◌ w) (words_space x s e)

last_word : (w : List ℕ) → IsWord w → words w ≡ w ∷ []
unfolding words
last_word w h = ap words (sym (append-nil w)) ∙ words-append w [] h refl

-- The three words of a port range.
words-print_range :
    (r : Range1d) (s : List ℕ)
    → words (print_range r ++ b'\t' ∷ s) ≡ decimal r.low ∷ (b':' ∷ []) ∷ decimal r.high ∷ words s
unfolding print_range
words-print_range r s =
    ap words (append_assoc (decimal r.low) (b' ' ∷ b':' ∷ b' ' ∷ decimal r.high) (b'\t' ∷ s))
    ∙ word_then (decimal r.low) b' ' _ (decimal-IsWord r.low) refl
    ∙ ap (◌∷◌ (decimal r.low)) (
        word_then (b':' ∷ []) b' ' _ (refl, tt) refl
        ∙ ap (◌∷◌ (b':' ∷ [])) (word_then (decimal r.high) b'\t' s (decimal-IsWord r.high) refl))

at-IsWord : (w : List ℕ) → IsWord w → IsWord (b'@' ∷ w)
at-IsWord [] h = absurd h
at-IsWord (c ∷ w) h = (refl, h)

abbrev pub tokens : RuleIpv4Acl → List (List ℕ)
tokens r =
    (b'@' ∷ print_ipv4 r.sip)
    ∷ print_ipv4 r.dip
    ∷ decimal r.sport.low
    ∷ (b':' ∷ [])
    ∷ decimal r.sport.high
    ∷ decimal r.dport.low
    ∷ (b':' ∷ [])
    ∷ decimal r.dport.high
    ∷ print_range_hex r.proto
    ∷ []

-- The words of the printed line.
pub words-print_rule : (r : RuleIpv4Acl) → words (print_rule r) ≡ tokens r
unfolding print_rule
words-print_rule r =
    word_then (b'@' ∷ print_ipv4 r.sip) b'\t' _
      (at-IsWord (print_ipv4 r.sip) (print_ipv4-IsWord r.sip)) refl
    ∙ ap (◌∷◌ (b'@' ∷ print_ipv4 r.sip)) (
        word_then (print_ipv4 r.dip) b'\t' _ (print_ipv4-IsWord r.dip) refl
        ∙ ap (◌∷◌ (print_ipv4 r.dip)) (
            words-print_range r.sport _
            ∙ ap (λ w. decimal r.sport.low ∷ (b':' ∷ []) ∷ decimal r.sport.high ∷ w)
                (words-print_range r.dport _
                  ∙ ap (λ w. decimal r.dport.low ∷ (b':' ∷ []) ∷ decimal r.dport.high ∷ w)
                      (last_word (print_range_hex r.proto) (hex-IsWord r.proto)))))
