-- ===== src/Trace.antt =====
-- src/rule_parser/trace_tools.cpp: packets at the corners of rules, for traces. A packet is an array of
-- 7 words of 16 bits. The generator of random numbers and its uniform distribution are parameters.
pub mod Corners
pub mod Packets
use pclass_vectorized.Prelude.{
  ℕ, zero, suc, ◌+◌, ◌-◌, ◌*◌, ◌/◌, ◌%◌, ◌^◌, Bool, true, false, List, [], ◌∷◌, ◌++◌, leb, ltb,
  ◌==◌, if◌then◌else◌, update, get_elem?, length, Option, none, some,
}
use pclass_vectorized.Range.{Range1d}
use pclass_vectorized.Range.Mask.{swap_bytes}
use pclass_vectorized.Rule.{RuleIpv4Acl}
use pclass_vectorized.RuleReader.Text.{Result, success, failure, Failure, ◌>>=◌}

-- A packet that is being written, and the place of the next byte.
pub record Header : Type 0 where
  pub packet : ℕ → ℕ
  pub byte_offset : ℕ

-- The bound that is taken.
abbrev pub corner : Range1d → Bool → ℕ
corner val use_low = if use_low then val.low else val.high

-- `ramdom_corner_push_value` of a `Range1d<uint32_t>`
unfoldable pub push_value_32 : Range1d → Bool → Bool → Header → Header
push_value_32 val use_low big_endian h =
    let v = corner val use_low in
    let w = if big_endian then swap_bytes 4 v else v in
    let at = h.byte_offset / 2 in
    record {
      packet = update (update h.packet at (w % 2 ^ 16)) (at + 1) (w / 2 ^ 16 % 2 ^ 16);
      byte_offset = h.byte_offset + 4;
    }

-- `ramdom_corner_push_value` of a `Range1d<uint16_t>`
unfoldable pub push_value_16 : Range1d → Bool → Bool → Header → Header
push_value_16 val use_low big_endian h =
    let v = corner val use_low in
    record {
      packet = update h.packet (h.byte_offset / 2) (if big_endian then swap_bytes 2 v else v);
      byte_offset = h.byte_offset + 2;
    }

-- `random_corner` with the bounds that are taken.
unfoldable pub corner_packet :
    RuleIpv4Acl → Bool → Bool → Bool → Bool → Bool → Bool → (ℕ → ℕ) → ℕ → ℕ
corner_packet rule big_endian b0 b1 b2 b3 b4 new_hdr =
    let h0 = push_value_32 rule.sip b0 big_endian (record { packet = new_hdr; byte_offset = 0 }) in
    let h1 = push_value_32 rule.dip b1 big_endian h0 in
    let h2 = push_value_16 rule.sport b2 big_endian h1 in
    let h3 = push_value_16 rule.dport b3 big_endian h2 in
    (push_value_16 rule.proto b4 big_endian h3).packet

abbrev pub repeat : ℕ → (ℕ → ℕ) → List (ℕ → ℕ)
repeat zero packet = []
repeat (suc n) packet = packet ∷ repeat n packet

abbrev pub choose : List RuleIpv4Acl → ℕ → Result RuleIpv4Acl
choose [] i = failure Failure.undefined
choose (r ∷ rs) zero = success r
choose (r ∷ rs) (suc i) = choose rs i

abbrev pub take : {A : Type 0} → ℕ → List A → List A
take zero xs = []
take (suc n) [] = []
take (suc n) (x ∷ xs) = x ∷ take n xs

-- `draw n` is a number up to n.
module _ {Rand : Type 0} (draw : ℕ → Rand → ℕ × Rand) where
  -- `p < 0.5` for a random bit p
  abbrev pub use_low_bit : Rand → Bool × Rand
  use_low_bit rand = ((draw 1 rand).0 == 0, (draw 1 rand).1)

  unfoldable pub random_corner : RuleIpv4Acl → Bool → (ℕ → ℕ) → Rand → (ℕ → ℕ) × Rand
  random_corner rule big_endian new_hdr rand =
      let (b0, rand0) = use_low_bit rand in
      let (b1, rand1) = use_low_bit rand0 in
      let (b2, rand2) = use_low_bit rand1 in
      let (b3, rand3) = use_low_bit rand2 in
      let (b4, rand4) = use_low_bit rand3 in
      (corner_packet rule big_endian b0 b1 b2 b3 b4 new_hdr, rand4)

  -- `pareto_distrib` for a b that is not 0, by its ceiling: the random number is a bit as well, and for
  -- the bit 1 the quotient is infinite, which does not convert.
  unfoldable pub pareto_distrib : ℕ → Rand → Result (ℕ × Rand)
  pareto_distrib ceil_b rand =
      if (draw 1 rand).0 == 0 then success (ceil_b, (draw 1 rand).1) else failure Failure.undefined

  -- One round of the loop of `header_gen`: copies of a random corner of a random rule. The packet is
  -- not initialised; all of its words are written.
  unfoldable pub header_round : List RuleIpv4Acl → ℕ → Bool → Rand → Result (List (ℕ → ℕ) × Rand)
  header_round filters ceil_b big_endian rand =
      let (fi, rand0) = draw (length filters - 1) rand in
      choose filters fi >>= λ rule.
      let (packet, rand1) = random_corner rule big_endian (λ i. 0) rand0 in
      pareto_distrib ceil_b rand1 >>= λ copies. success (repeat copies.0 packet, copies.1)

  -- The loop of `header_gen`: at most one round for each packet, so that the threshold is fuel enough.
  -- `num_headers` is the number of packets so far; a number that is no `int` is a failure here.
  unfoldable pub header_loop :
      ℕ → List RuleIpv4Acl → ℕ → ℕ → Bool → List (ℕ → ℕ) → Rand → Result (List (ℕ → ℕ))
  header_loop zero filters ceil_b threshold big_endian packets rand = success packets
  header_loop (suc fuel) filters ceil_b threshold big_endian packets rand =
      let rest = header_round filters ceil_b big_endian rand >>= λ more.
      header_loop fuel filters ceil_b threshold big_endian (packets ++ more.0) more.1 in
      if leb (2 ^ 31) (length packets)
      then failure Failure.undefined
      else if ltb (length packets) threshold
      then rest
      else success packets

  -- `header_gen`: the first packets, as many as the threshold, which is an `int` in its 32 bits; a
  -- negative one is the end of a vector in front of its begin.
  unfoldable pub header_gen : List RuleIpv4Acl → ℕ → ℕ → Bool → Rand → Result (List (ℕ → ℕ))
  header_gen filters ceil_b threshold big_endian rand =
      let packets = header_loop threshold filters ceil_b threshold big_endian [] rand in
      if leb (2 ^ 31) threshold
      then failure Failure.undefined
      else packets >>= λ ps. success (take threshold ps)

  -- `generate_packets_from_ruleset`, from the generator with its seed; the ceiling of 0.1 is 1, and the
  -- `size_t` becomes an `int`.
  unfoldable pub generate_packets_from_ruleset :
      List RuleIpv4Acl → ℕ → Bool → Rand → Result (List (ℕ → ℕ))
  generate_packets_from_ruleset [] num_packets big_endian rand = failure Failure.runtime_error
  generate_packets_from_ruleset (r ∷ rs) num_packets big_endian rand =
      header_gen (r ∷ rs) 1 (num_packets % 2 ^ 32) big_endian rand
