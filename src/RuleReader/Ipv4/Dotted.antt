-- ===== src/RuleReader/Ipv4/Dotted.antt =====
-- src/rule_parser/classbench_rule_parser.cpp: `parse_IPRange` on the text of an address with a prefix
-- length.
use pclass_vectorized.Prelude.{
  ℕ, ◌-◌, ◌≤◌, ◌<◌, ◌≡◌, refl, ap, ◌∙◌, arith, false, ◌==◌, List, [], ◌∷◌, ◌++◌, All-append,
}
use pclass_vectorized.RuleReader.Text.{success, decimal, split}
use pclass_vectorized.RuleReader.Text.Numerals.{All-numeral, atoui-decimal, decimal_cons}
use pclass_vectorized.RuleReader.Text.Pieces.{Lacks, split-append, split_last}
use pclass_vectorized.RuleReader.Ipv4.{parse_ip_range}
use pclass_vectorized.RuleReader.Ipv4.Blocks.{address, block}
use pclass_vectorized.RuleReader.Ipv4.Prefix.{ip_range-block}

-- A printed number has no character below 0.
pub decimal-Lacks : (n delim : ℕ) → delim < b'0' → Lacks delim (decimal n)
decimal-Lacks n delim h =
    All-numeral 10 (omega arith) (λ c. (c == delim) ≡ false) 20 n λ d lt. ground arith

split-decimal : (n delim : ℕ) → delim < b'0' → split (decimal n) delim ≡ decimal n ∷ []
split-decimal n delim h =
    let (c, s, e) = decimal_cons n in
    rw e (split_last c s delim (rw e at (decimal-Lacks n delim h)))

-- The text a.b.c.d
abbrev pub dotted : ℕ → ℕ → ℕ → ℕ → List ℕ
dotted a b c d = decimal a ++ b'.' ∷ (decimal b ++ b'.' ∷ (decimal c ++ b'.' ∷ decimal d))

split-dotted :
    (a b c d : ℕ) → split (dotted a b c d) b'.' ≡ decimal a ∷ decimal b ∷ decimal c ∷ decimal d ∷ []
split-dotted a b c d =
    split-append (decimal a) _ b'.' (decimal-Lacks a b'.' (omega arith))
    ∙ ap (◌∷◌ (decimal a)) (
        split-append (decimal b) _ b'.' (decimal-Lacks b b'.' (omega arith))
        ∙ ap (◌∷◌ (decimal b)) (
            split-append (decimal c) _ b'.' (decimal-Lacks c b'.' (omega arith))
            ∙ ap (◌∷◌ (decimal c)) (split-decimal d b'.' (omega arith))))

dotted-Lacks : (a b c d : ℕ) → Lacks b'/' (dotted a b c d)
dotted-Lacks a b c d =
    let lacks : (n : ℕ) → Lacks b'/' (decimal n) = λ n. decimal-Lacks n b'/' (omega arith) in
    let more : (n : ℕ) (s : List ℕ) → Lacks b'/' s → Lacks b'/' (decimal n ++ b'.' ∷ s) =
      λ n s h. All-append (λ c. (c == b'/') ≡ false) (decimal n) (b'.' ∷ s) (lacks n) (refl, h) in
    more a _ (more b _ (more c _ (lacks d)))

split-prefix :
    (a b c d mask : ℕ)
    → split (dotted a b c d ++ b'/' ∷ decimal mask) b'/' ≡ dotted a b c d ∷ decimal mask ∷ []
split-prefix a b c d mask =
    split-append (dotted a b c d) (decimal mask) b'/' (dotted-Lacks a b c d)
    ∙ ap (◌∷◌ (dotted a b c d)) (split-decimal mask b'/' (omega arith))

-- The text a.b.c.d/mask is read as the block of the address.
pub parse_ip_range-dotted :
    (a b c d mask : ℕ)
    → a < 256
    → b < 256
    → c < 256
    → d < 256
    → mask ≤ 32
    → parse_ip_range (dotted a b c d ++ b'/' ∷ decimal mask)
      ≡ success (block (address a b c d) (32 - mask))
unfolding parse_ip_range
parse_ip_range-dotted a b c d mask ba bb bc bd le = rw (split-prefix a b c d mask) (
    rw (split-dotted a b c d) (
      rw (atoui-decimal a (omega arith)) (
        rw (atoui-decimal b (omega arith)) (
          rw (atoui-decimal c (omega arith)) (
            rw (atoui-decimal d (omega arith)) (
              rw (atoui-decimal mask (omega arith))
                (ip_range-block a b c d ba bb bc bd mask le)))))))
