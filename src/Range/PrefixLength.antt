-- ===== src/Range/PrefixLength.antt =====
-- src/rule_parser/classbench_rule_parser.cpp: `IsPower2`, `IsPrefix` and `PrefixLength` of bounds of 32
-- bits.
use Prim.Native.Nat.{bit_and}
use pclass_vectorized.Prelude.{
  ℕ, zero, suc, ◌+◌, ◌-◌, ◌/◌, ◌%◌, ◌^◌, Bool, ◌&&◌, ◌==◌, if◌then◌else◌,
}

-- The subtraction wraps around.
unfoldable pub is_power2 : ℕ → Bool
is_power2 x = bit_and ((x + (2 ^ 32 - 1)) % 2 ^ 32) x == 0

unfoldable pub is_prefix : ℕ → ℕ → Bool
unfolding is_power2
is_prefix low high =
    let diff = (high + (2 ^ 32 - low)) % 2 ^ 32 in
    (bit_and low high == low) && is_power2 ((diff + 1) % 2 ^ 32)

-- The places of x up to the highest one that is set; 32 steps are enough for 32 bits.
unfoldable pub bit_length : ℕ → ℕ → ℕ
bit_length zero x = 0
bit_length (suc fuel) x = let rest = bit_length fuel (x / 2) in if x == 0 then 0 else suc rest

unfoldable pub prefix_length : ℕ → ℕ → ℕ
unfolding bit_length
prefix_length low high = 32 - bit_length 32 ((high + (2 ^ 32 - low)) % 2 ^ 32)
