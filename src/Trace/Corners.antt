-- ===== src/Trace/Corners.antt =====
-- src/rule_parser/trace_tools.cpp: the packets of `random_corner` and their rules.
use pclass_vectorized.Prelude.{
  ℕ, ◌+◌, ◌*◌, ◌/◌, ◌%◌, ◌^◌, ◌≤◌, ◌<◌, ◌≡◌, refl, ap, ◌∙◌, arith, Bool, true, false, List, [], ◌∷◌,
  if◌then◌else◌,
}
use pclass_vectorized.Range.{Range1d, range, in_range}
use pclass_vectorized.Range.Mask.{swap_bytes, to_be}
use pclass_vectorized.Rule.{
  RuleIpv4Acl, exact_array_to_rule_le, exact_array_to_rule_be, reverse_endianity,
}
use pclass_vectorized.Rule.Halves.{Is32, in_rule}
use pclass_vectorized.Rule.Endianity.{Is16}
use pclass_vectorized.Trace.{corner, push_value_32, push_value_16, corner_packet, random_corner}

-- The seven words of a packet.
abbrev pub seven_words : (ℕ → ℕ) → List ℕ
seven_words p = p 0 ∷ p 1 ∷ p 2 ∷ p 3 ∷ p 4 ∷ p 5 ∷ p 6 ∷ []

in_range-corner : (r : Range1d) (b : Bool) → r.low ≤ r.high → in_range r (corner r b) ≡ true
in_range-corner r true le = ground arith
in_range-corner r false le = ground arith

corner_lt : (r : Range1d) (b : Bool) (n : ℕ) → r.low < n → r.high < n → corner r b < n
corner_lt r true n l h = l
corner_lt r false n l h = h

-- The bounds are in order, and those of the addresses have 32 bits, those of the others 16.
pub record IsRule (r : RuleIpv4Acl) : Type 0 where
  pub sip_32 : Is32 r.sip
  pub dip_32 : Is32 r.dip
  pub sport_16 : Is16 r.sport
  pub dport_16 : Is16 r.dport
  pub proto_16 : Is16 r.proto
  pub sip_le : r.sip.low ≤ r.sip.high
  pub dip_le : r.dip.low ≤ r.dip.high
  pub sport_le : r.sport.low ≤ r.sport.high
  pub dport_le : r.dport.low ≤ r.dport.high
  pub proto_le : r.proto.low ≤ r.proto.high

-- The packet as a rule of single values, by the reader for its order of bytes.
abbrev pub packet_rule : Bool → List ℕ → RuleIpv4Acl
packet_rule big_endian ws =
    if big_endian then exact_array_to_rule_be ws else exact_array_to_rule_le ws

exactly : RuleIpv4Acl → Bool → Bool → Bool → Bool → Bool → RuleIpv4Acl
exactly r b0 b1 b2 b3 b4 = record {
  sip = range (corner r.sip b0) (corner r.sip b0);
  dip = range (corner r.dip b1) (corner r.dip b1);
  sport = range (corner r.sport b2) (corner r.sport b2);
  dport = range (corner r.dport b3) (corner r.dport b3);
  proto = range (corner r.proto b4) (corner r.proto b4);
}

glue_32 : (v : ℕ) → v < 2 ^ 32 → v % 2 ^ 16 + v / 2 ^ 16 % 2 ^ 16 * 2 ^ 16 ≡ v
glue_32 v lt = omega arith

glue_32be :
    (v : ℕ)
    → v < 2 ^ 32
    → swap_bytes 4 (swap_bytes 4 v % 2 ^ 16 + swap_bytes 4 v / 2 ^ 16 % 2 ^ 16 * 2 ^ 16) ≡ v
unfolding swap_bytes
glue_32be v lt = omega arith

glue_16be : (v : ℕ) → v < 2 ^ 16 → swap_bytes 2 (swap_bytes 2 v) ≡ v
unfolding swap_bytes
glue_16be v lt = omega arith

module _ (r : RuleIpv4Acl) (valid : IsRule r) (b0 b1 b2 b3 b4 : Bool) (hdr : ℕ → ℕ) where
  packet_rule-le :
      exact_array_to_rule_le (seven_words (corner_packet r false b0 b1 b2 b3 b4 hdr))
      ≡ exactly r b0 b1 b2 b3 b4
  unfolding corner_packet push_value_32 push_value_16 exact_array_to_rule_le exactly
  packet_rule-le =
      rw
        (
          glue_32 (corner r.sip b0) (corner_lt r.sip b0 _ valid.sip_32.0 valid.sip_32.1),
          glue_32 (corner r.dip b1) (corner_lt r.dip b1 _ valid.dip_32.0 valid.dip_32.1),
        )
        refl

  packet_rule-be :
      exact_array_to_rule_be (seven_words (corner_packet r true b0 b1 b2 b3 b4 hdr))
      ≡ exactly r b0 b1 b2 b3 b4
  unfolding corner_packet push_value_32 push_value_16 exact_array_to_rule_be exact_array_to_rule_le
      reverse_endianity to_be exactly
  packet_rule-be =
      rw
        (
          glue_32be (corner r.sip b0) (corner_lt r.sip b0 _ valid.sip_32.0 valid.sip_32.1),
          glue_32be (corner r.dip b1) (corner_lt r.dip b1 _ valid.dip_32.0 valid.dip_32.1),
          glue_16be (corner r.sport b2) (corner_lt r.sport b2 _ valid.sport_16.0 valid.sport_16.1),
          glue_16be (corner r.dport b3) (corner_lt r.dport b3 _ valid.dport_16.0 valid.dport_16.1),
          glue_16be (corner r.proto b4) (corner_lt r.proto b4 _ valid.proto_16.0 valid.proto_16.1),
        )
        refl

  exactly-in_rule : in_rule r (exactly r b0 b1 b2 b3 b4) ≡ true
  unfolding exactly
  exactly-in_rule =
      rw
        (
          in_range-corner r.sip b0 valid.sip_le,
          in_range-corner r.dip b1 valid.dip_le,
          in_range-corner r.sport b2 valid.sport_le,
          in_range-corner r.dport b3 valid.dport_le,
          in_range-corner r.proto b4 valid.proto_le,
        )
        refl

  corner_packet-in_rule :
      (big_endian : Bool)
      → in_rule r
          (packet_rule big_endian (seven_words (corner_packet r big_endian b0 b1 b2 b3 b4 hdr)))
        ≡ true
  corner_packet-in_rule true = ap (in_rule r) packet_rule-be ∙ exactly-in_rule
  corner_packet-in_rule false = ap (in_rule r) packet_rule-le ∙ exactly-in_rule

-- The packet of `random_corner` meets its rule, whatever the random bits are and whatever the packet
-- held before, if it is read in the order of bytes in which it was written: by
-- `exact_array_to_rule_be` if big-endian, else by `exact_array_to_rule_le`.
pub random_corner-in_rule :
    {Rand : Type 0} (draw : ℕ → Rand → ℕ × Rand) (r : RuleIpv4Acl) (big_endian : Bool) (hdr : ℕ → ℕ)
    (rand : Rand)
    → IsRule r
    → in_rule r (packet_rule big_endian (seven_words (random_corner draw r big_endian hdr rand).0))
      ≡ true
unfolding random_corner
random_corner-in_rule draw r big_endian hdr rand valid =
    corner_packet-in_rule r valid _ _ _ _ _ hdr big_endian
