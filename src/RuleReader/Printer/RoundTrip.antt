-- ===== src/RuleReader/Printer/RoundTrip.antt =====
-- src/rule_parser/classbench_rule_parser.cpp: rules that are printed and read again.
use native.Mathlib.Nat.{mod-eq_of_lt, mul-div_cancel}
use pclass_vectorized.Prelude.{
  ℕ, ◌+◌, ◌-◌, ◌*◌, ◌≤◌, ◌<◌, ◌^◌, ◌≡◌, refl, sym, ap, ◌∙◌, arith, ◌∷◌, ◌++◌,
}
use pclass_vectorized.Prelude.Bits.{pow2_pos}
use pclass_vectorized.Range.{Range1d, range}
use pclass_vectorized.Rule.{RuleIpv4Acl}
use pclass_vectorized.RuleReader.Text.{success, decimal, words}
use pclass_vectorized.RuleReader.Text.Numerals.{atoui-decimal}
use pclass_vectorized.RuleReader.Ipv4.{parse_ip_range}
use pclass_vectorized.RuleReader.Ipv4.Blocks.{address, block}
use pclass_vectorized.RuleReader.Ipv4.Dotted.{dotted, parse_ip_range-dotted}
use pclass_vectorized.RuleReader.Classbench.{parse, parse_port, after_at}
use pclass_vectorized.RuleReader.Printer.{print_ipv4, print_rule, byte, printed_prefix_len}
use pclass_vectorized.RuleReader.Printer.Prefixes.{prefix_block, printed_prefix_len_lem}
use pclass_vectorized.RuleReader.Printer.Protocol.{IsPrintable, parse_protocol-print_range_hex}
use pclass_vectorized.RuleReader.Printer.Tokens.{words-print_rule}

-- The addresses with a common prefix of 32 - n bits.
abbrev pub IsBlock : Range1d → Type 0
IsBlock r = (B n : ℕ) × (n ≤ 32) × (r ≡ prefix_block B n) × (r.high < 2 ^ 32)

address-byte : (v : ℕ) → v < 2 ^ 32 → address (byte v 3) (byte v 2) (byte v 1) (byte v 0) ≡ v
address-byte v b = omega arith

block-prefix_block : (B n : ℕ) → block (B * 2 ^ n) n ≡ prefix_block B n
block-prefix_block B n =
    ap (λ q. range (q * 2 ^ n) (q * 2 ^ n + (2 ^ n - 1))) (mul-div_cancel B (pow2_pos n))

print_prefix_block :
    (B n : ℕ)
    → n ≤ 32
    → (prefix_block B n).high < 2 ^ 32
    → parse_ip_range (print_ipv4 (prefix_block B n)) ≡ success (prefix_block B n)
unfolding print_ipv4
print_prefix_block B n le fits =
    let v = B * 2 ^ n in
    let length : printed_prefix_len 32 (prefix_block B n).low (prefix_block B n).high ≡ 32 - n =
      printed_prefix_len_lem B n le in
    let back : 32 - (32 - n) ≡ n = omega arith in
    ap
      (λ m. parse_ip_range (dotted (byte v 3) (byte v 2) (byte v 1) (byte v 0) ++ b'/' ∷ decimal m))
      length
    ∙ parse_ip_range-dotted (byte v 3) (byte v 2) (byte v 1) (byte v 0) (32 - n) (omega arith)
        (omega arith) (omega arith) (omega arith) (omega arith)
    ∙ ap (λ m. success (block (address (byte v 3) (byte v 2) (byte v 1) (byte v 0)) m)) back
    ∙ ap (λ a. success (block a n)) (address-byte v (omega arith))
    ∙ ap success (block-prefix_block B n)

-- The printed prefix of a block of addresses is read as this block.
pub parse_ip_range-print_ipv4 :
    (r : Range1d) → IsBlock r → parse_ip_range (print_ipv4 r) ≡ success r
parse_ip_range-print_ipv4 r (B, n, le, e, fits) =
    let fits' : (prefix_block B n).high < 2 ^ 32 = rw e at fits in
    ap (λ p. parse_ip_range (print_ipv4 p)) e ∙ print_prefix_block B n le fits' ∙ ap success (sym e)

abbrev pub IsPort : Range1d → Type 0
IsPort r = (r.low < 2 ^ 16) × (r.high < 2 ^ 16)

port-decimal : (r : Range1d) → IsPort r → parse_port (decimal r.low) (decimal r.high) ≡ r
unfolding parse_port
port-decimal r (bl, bh) =
    rw (atoui-decimal r.low (omega arith))
      (rw (atoui-decimal r.high (omega arith)) (rw (mod-eq_of_lt bl) (rw (mod-eq_of_lt bh) refl)))

-- The line of a rule is read as the rule, with the number of its line as priority: the addresses are
-- blocks with a common prefix, the ports are any ranges of 16 bits, and the protocol is one value or
-- the range of all.
pub parse-print_rule :
    (r : RuleIpv4Acl) (cost : ℕ)
    → IsBlock r.sip
    → IsBlock r.dip
    → IsPort r.sport
    → IsPort r.dport
    → IsPrintable r.proto
    → parse (words (print_rule r)) cost ≡ success (record { rule = r; priority = cost })
unfolding parse after_at
parse-print_rule r cost s d sp dp pr =
    ap (λ t. parse t cost) (words-print_rule r)
    ∙ rw (parse_ip_range-print_ipv4 r.sip s) (
        rw (parse_ip_range-print_ipv4 r.dip d) (
          rw (port-decimal r.sport sp)
            (rw (port-decimal r.dport dp) (rw (parse_protocol-print_range_hex r.proto pr) refl))))
