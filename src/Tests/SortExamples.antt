-- ===== src/Tests/SortExamples.antt =====
-- The theorems about arrays, intervals, pools, ranges and rules at concrete inputs.
use pclass_vectorized.Prelude.{
  ℕ, zero, suc, ◌+◌, ◌*◌, ◌<◌, ◌≤◌, ◌≡◌, All, refl, inl, inr, ◌↔◌, true, none, some, [], ◌∷◌, arith,
  ◌==◌, if◌then◌else◌,
}
use pclass_vectorized.Prelude.State.{ok}
use pclass_vectorized.Range.{Range1d, range, overlaps}
use pclass_vectorized.Range.Mask.{get_mask_le}
use pclass_vectorized.Range.Prefix.{IsPrefixMask}
use pclass_vectorized.Range.CommonPrefix.{IsCommonPrefix, get_mask_le-IsCommonPrefix}
use pclass_vectorized.Range.Overlap.{Shares, EntersFromBelow, overlaps-Shares}
use pclass_vectorized.ArrayResort.{array_resort}
use pclass_vectorized.ArrayResort.Sorted.{IsSorted, IsSortedBut, moved, array_resort-IsSorted}
use pclass_vectorized.Mempool.Dynamic.{
  DynamicMempool, new, get, release, size, get_assertions, release_assertions,
}
use pclass_vectorized.Mempool.Slots.{slots}
use pclass_vectorized.Mempool.Dynamic.FreeList.{
  Chain, IsFree, Hands, get-IsFree, get-release, size-IsFree, new-IsFree,
}
use pclass_vectorized.Rule.{
  reverse_endianity, RuleIpv4Acl, TaggedRule, minus_one, rule_to_array_16b, rule_from_array,
  exact_array_to_rule_le,
}
use pclass_vectorized.Rule.Endianity.{RangeReversed, reverse_endianity-RangeReversed}
use pclass_vectorized.Rule.Halves.{
  in_rule, meets, IsProper, rule_from_array-rule_to_array_16b, rule_to_array_16b-meets,
}

overlaps-Shares_example :
    (overlaps (range 5 10) (range 3 7) ≡ true)
    ↔ (Shares (range 5 10) (range 3 7) × ¬ (EntersFromBelow (range 5 10) (range 3 7)))
overlaps-Shares_example = overlaps-Shares (range 5 10) (range 3 7) (omega arith) (omega arith)

-- Priorities 9, 2, 7: the item at place 1 is to be moved.
abbrev priorities : ℕ → ℕ
priorities zero = 9
priorities (suc zero) = 2
priorities (suc (suc i)) = 7

priorities_sorted : IsSortedBut (λ n. n) priorities 3 1
priorities_sorted zero (suc (suc j)) less lt ne ne' = omega arith
priorities_sorted zero (suc zero) less lt ne ne' = absurd (ne' refl)
priorities_sorted zero zero less lt ne ne' = absurd (omega arith)
priorities_sorted (suc i) j less lt ne ne' = absurd (omega arith)

array_resort-IsSorted_example :
    (to : ℕ) × (to < 3)
    × ((k : ℕ) → array_resort (λ n. n) priorities 3 1 k ≡ moved priorities 1 to k)
    × IsSorted (λ n. n) (array_resort (λ n. n) priorities 3 1) 3
array_resort-IsSorted_example =
    array_resort-IsSorted (λ n. n) priorities 3 1 priorities_sorted (omega arith)

abbrev intervals : ℕ → Range1d
intervals i = range (i * 2) (i * 2 + 3)

abbrev pool : DynamicMempool
pool = record {
  next_free = λ i. if i == 1 then some 2 else none;
  first_free = some 1;
  item_cnt = 3;
}

new-IsFree_example : IsFree (new 3) (slots 3 0)
new-IsFree_example = new-IsFree 2

get-IsFree_example : Hands (new 3) (slots 3 0)
get-IsFree_example = get-IsFree (new 3) (slots 3 0) (new-IsFree 2)

-- Slot 0 of three is taken, 1 and 2 are free.
pool-IsFree : IsFree pool (1 ∷ 2 ∷ [])
pool-IsFree = record {
  chain = Chain.cons 1 refl refl (Chain.cons 2 refl refl Chain.nil);
  taken = λ i lt out. ground arith;
  fits = omega arith;
}

size-IsFree_example : size pool ≡ some 1
size-IsFree_example = size-IsFree pool (1 ∷ 2 ∷ []) pool-IsFree

get-release_example :
    (m' m'' : DynamicMempool) × (release 0 pool ≡ ok tt m')
    × IsFree m' (0 ∷ 1 ∷ 2 ∷ [])
    × (get m' ≡ ok 0 m'')
    × IsFree m'' (1 ∷ 2 ∷ [])
    × ((release_assertions 0 pool ≡ true) ↔ (1 ≤ 2))
    × ((get_assertions m' ≡ true) ↔ (2 ≤ 2))
get-release_example = get-release pool 0 (1 ∷ 2 ∷ []) pool-IsFree (omega arith) refl (omega arith)

-- 10.0.0.0/8 to 192.168.1.1
abbrev acl : RuleIpv4Acl
acl = record {
  sip = range 167772160 184549375;
  dip = range 3232235777 3232235777;
  sport = range 0 65535;
  dport = range 80 80;
  proto = range 6 6;
}

abbrev tagged : TaggedRule
tagged = record { rule = acl; priority = 4; tag = 5 }

rule_from_array-rule_to_array_16b_example :
    All IsProper (rule_to_array_16b acl)
    × (rule_from_array (rule_to_array_16b acl)
        ≡ record { rule = acl; priority = minus_one; tag = minus_one })
rule_from_array-rule_to_array_16b_example =
    rule_from_array-rule_to_array_16b tagged (omega arith, omega arith) (omega arith, omega arith)
      (inr (omega arith, omega arith)) (inl refl) (omega arith) (omega arith) (omega arith)
      (omega arith) (omega arith)

rule_to_array_16b-meets_example :
    (meets (rule_to_array_16b acl) (1 ∷ 2561 ∷ 257 ∷ 49320 ∷ 1000 ∷ 80 ∷ 6 ∷ []) ≡ true)
    ↔ (in_rule acl (exact_array_to_rule_le (1 ∷ 2561 ∷ 257 ∷ 49320 ∷ 1000 ∷ 80 ∷ 6 ∷ [])) ≡ true)
rule_to_array_16b-meets_example =
    rule_to_array_16b-meets acl 1 2561 257 49320 1000 80 6 (omega arith, omega arith)
      (omega arith, omega arith) (inr (omega arith, omega arith)) (inl refl) (omega arith)
      (omega arith) (omega arith) (omega arith)

reverse_endianity-RangeReversed_example :
    RangeReversed 4 acl.sip (reverse_endianity acl).sip
    × RangeReversed 4 acl.dip (reverse_endianity acl).dip
    × RangeReversed 2 acl.sport (reverse_endianity acl).sport
    × RangeReversed 2 acl.dport (reverse_endianity acl).dport
    × RangeReversed 2 acl.proto (reverse_endianity acl).proto
    × (reverse_endianity (reverse_endianity acl) ≡ acl)
reverse_endianity-RangeReversed_example =
    reverse_endianity-RangeReversed acl (omega arith, omega arith) (omega arith, omega arith)
      (omega arith, omega arith) (omega arith, omega arith) (omega arith, omega arith)

get_mask_le-IsCommonPrefix_example :
    IsPrefixMask 2 (get_mask_le 2 (range 4660 4671))
    × IsCommonPrefix 2 4660 4671 (get_mask_le 2 (range 4660 4671)).1
get_mask_le-IsCommonPrefix_example = get_mask_le-IsCommonPrefix 2 (range 4660 4671)

-- 0x1234 and 0x123f have 12 bits in common.
mask_of_twelve : get_mask_le 2 (range 4660 4671) ≡ (65520, 12)
unfolding get_mask_le
mask_of_twelve = refl
