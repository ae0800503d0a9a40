-- ===== src/Rule/Halves.antt =====
-- src/rule_parser/rule.cpp: what the form of 16-bit ranges keeps of a rule.
use pclass_vectorized.Prelude.{
  ℕ, ◌+◌, ◌*◌, ◌/◌, ◌%◌, ◌^◌, ◌-◌, ◌<◌, ◌≤◌, ◌≡◌, ◌↔◌, ◌⊎◌, inl, inr, All, Bool, true, ◌&&◌, List,
  [], ◌∷◌, refl, arith,
}
use pclass_vectorized.Range.{Range1d, range, in_range}
use pclass_vectorized.Rule.{
  RuleIpv4Acl, TaggedRule, minus_one, fill_32, pop_32, rule_to_array_16b, rule_from_array,
  exact_array_to_rule_le,
}

-- The bounds are values of 32 bits.
abbrev pub Is32 : Range1d → Type 0
Is32 r = (r.low < 2 ^ 32) × (r.high < 2 ^ 32)

abbrev join : ℕ → ℕ → ℕ
join low high = high * 2 ^ 16 + low

join-halves : (v : ℕ) → v < 2 ^ 32 → join (v % 2 ^ 16) (v / 2 ^ 16 % 2 ^ 16) ≡ v
join-halves v lt = omega arith

-- The range is a subrange of one block of 2 ^ 16 values, or is made of whole blocks, as a prefix of an
-- address is.
abbrev pub IsAligned : Range1d → Type 0
IsAligned r =
    (r.low / 2 ^ 16 ≡ r.high / 2 ^ 16) ⊎ ((r.low % 2 ^ 16 ≡ 0) × (r.high % 2 ^ 16 ≡ 2 ^ 16 - 1))

-- Every range has the value at its place in it.
abbrev pub meets : List Range1d → List ℕ → Bool
meets [] vs = true
meets (r ∷ rs) [] = true
meets (r ∷ rs) (v ∷ vs) = in_range r v && meets rs vs

-- The assertion of the constructor of `Range1d`.
abbrev pub IsProper : Range1d → Type 0
IsProper r = r.low ≤ r.high

fill_32-IsProper : (r : Range1d) → Is32 r → IsAligned r → IsProper r → All IsProper (fill_32 r)
unfolding fill_32
fill_32-IsProper r bound (inl same) le = (omega arith, (omega arith, tt))
fill_32-IsProper r bound (inr (low, high)) le = (omega arith, (omega arith, tt))

-- For a rule whose addresses have 32 bits and are aligned and none of whose ranges is empty, the ranges
-- that `rule_to_array_16b` makes are not empty either, as the constructor of a range asserts, and
-- `rule_from_array` makes the rule of them again, with -1 in place of its priority and its tag.
pub rule_from_array-rule_to_array_16b :
    (r : TaggedRule)
    → Is32 r.rule.sip
    → Is32 r.rule.dip
    → IsAligned r.rule.sip
    → IsAligned r.rule.dip
    → IsProper r.rule.sip
    → IsProper r.rule.dip
    → IsProper r.rule.sport
    → IsProper r.rule.dport
    → IsProper r.rule.proto
    → All IsProper (rule_to_array_16b r.rule)
      × (rule_from_array (rule_to_array_16b r.rule)
          ≡ record r { priority = minus_one; tag = minus_one })
unfolding rule_from_array rule_to_array_16b pop_32 fill_32
rule_from_array-rule_to_array_16b r s d asip adip ps pd psp pdp pp =
    let (s0, (s1, _)) = fill_32-IsProper r.rule.sip s asip ps in
    let (d0, (d1, _)) = fill_32-IsProper r.rule.dip d adip pd in
    (
      (s0, (s1, (d0, (d1, (psp, (pdp, (pp, tt))))))),
      rw
          (
            join-halves r.rule.sip.low s.0,
            join-halves r.rule.sip.high s.1,
            join-halves r.rule.dip.low d.0,
            join-halves r.rule.dip.high d.1,
          )
          refl,
    )

fill_32-meets :
    (r : Range1d) (low high : ℕ)
    → Is32 r
    → IsAligned r
    → low < 2 ^ 16
    → high < 2 ^ 16
    → (meets (fill_32 r) (low ∷ high ∷ []) ≡ true) ↔ (in_range r (low + high * 2 ^ 16) ≡ true)
unfolding fill_32
fill_32-meets r low high is_32 aligned l h = ground arith

-- The packet's values lie in the rule's ranges.
abbrev pub in_rule : RuleIpv4Acl → RuleIpv4Acl → Bool
in_rule r packet =
    in_range r.sip packet.sip.low
    && in_range r.dip packet.dip.low
    && in_range r.sport packet.sport.low
    && in_range r.dport packet.dport.low
    && in_range r.proto packet.proto.low

-- Both parts of an address together decide what the address does.
glue :
    (w x y z p q r sip dip : Bool)
    → ((w && (x && true)) ≡ true) ↔ (sip ≡ true)
    → ((y && (z && true)) ≡ true) ↔ (dip ≡ true)
    → ((w && (x && (y && (z && (p && (q && (r && true))))))) ≡ true)
      ↔ ((sip && dip && p && q && r) ≡ true)
glue w x y z p q r sip dip first second = ground arith

-- An aligned rule of 32-bit addresses is met by a packet of 7 values of 16 bits exactly if each of the
-- ranges that `rule_to_array_16b` makes of it has the value at its place in it; the packet is read by
-- `exact_array_to_rule_le`.
pub rule_to_array_16b-meets :
    (r : RuleIpv4Acl) (a b c d sport dport proto : ℕ)
    → Is32 r.sip
    → Is32 r.dip
    → IsAligned r.sip
    → IsAligned r.dip
    → a < 2 ^ 16
    → b < 2 ^ 16
    → c < 2 ^ 16
    → d < 2 ^ 16
    → let packet = a ∷ b ∷ c ∷ d ∷ sport ∷ dport ∷ proto ∷ [] in
      (meets (rule_to_array_16b r) packet ≡ true)
      ↔ (in_rule r (exact_array_to_rule_le packet) ≡ true)
unfolding rule_to_array_16b exact_array_to_rule_le fill_32
rule_to_array_16b-meets r a b c d sport dport proto s t as' at' ha hb hc hd =
    let first = fill_32-meets r.sip a b s as' ha hb in
    let second = fill_32-meets r.dip c d t at' hc hd in
    glue (in_range (range (r.sip.low % 65536) (r.sip.high % 65536)) a)
      (in_range (range (r.sip.low / 65536 % 65536) (r.sip.high / 65536 % 65536)) b)
      (in_range (range (r.dip.low % 65536) (r.dip.high % 65536)) c)
      (in_range (range (r.dip.low / 65536 % 65536) (r.dip.high / 65536 % 65536)) d)
      (in_range r.sport sport) (in_range r.dport dport) (in_range r.proto proto)
      (in_range r.sip (a + b * 2 ^ 16)) (in_range r.dip (c + d * 2 ^ 16)) first second
