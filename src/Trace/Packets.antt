-- ===== src/Trace/Packets.antt =====
-- src/rule_parser/trace_tools.cpp: the packets of `generate_packets_from_ruleset`.
use pclass_vectorized.Prelude.{
  ℕ, zero, suc, ◌+◌, ◌-◌, ◌≤◌, ◌≡◌, refl, arith, Bool, true, leb, ◌%◌, ◌^◌, List, [], ◌∷◌, ◌++◌,
  ltb, ◌==◌, length, length-append, Bool-cases, inl, inr, All, All-append, ap,
}
use pclass_vectorized.Rule.{RuleIpv4Acl}
use pclass_vectorized.Rule.Halves.{in_rule}
use pclass_vectorized.RuleReader.Text.{Result, success, failure, ◌>>=◌}
use pclass_vectorized.Trace.{
  header_loop, header_round, header_gen, generate_packets_from_ruleset, pareto_distrib, choose,
  random_corner, repeat, take,
}
use pclass_vectorized.Trace.Corners.{IsRule, seven_words, packet_rule, random_corner-in_rule}

-- What the value has, if there is one.
abbrev pub OnSuccess : {A : Type 0} → (A → Type 0) → Result A → Type 0
OnSuccess P (success a) = P a
OnSuccess P (failure e) = Unit

OnSuccess-bind :
    {A B : Type 0} (P : A → Type 0) (Q : B → Type 0) (r : Result A) (f : A → Result B)
    → OnSuccess P r
    → ((a : A) → r ≡ success a → P a → OnSuccess Q (f a))
    → OnSuccess Q (r >>= f)
OnSuccess-bind P Q (success a) f h next = next a refl h
OnSuccess-bind P Q (failure e) f h next = tt

OnSuccess-any : {A : Type 0} (r : Result A) → OnSuccess (λ a. Unit) r
OnSuccess-any (success a) = tt
OnSuccess-any (failure e) = tt

-- The packet meets one of the rules.
abbrev pub MeetsOne : List RuleIpv4Acl → Bool → (ℕ → ℕ) → Type 0
MeetsOne filters big_endian packet =
    (i : ℕ) × (r : RuleIpv4Acl) × (choose filters i ≡ success r)
    × (in_rule r (packet_rule big_endian (seven_words packet)) ≡ true)

chosen-IsRule :
    (filters : List RuleIpv4Acl) (i : ℕ) (r : RuleIpv4Acl)
    → All IsRule filters
    → choose filters i ≡ success r
    → IsRule r
chosen-IsRule [] i r all e = cc
chosen-IsRule (x ∷ xs) zero r all e = let same : x ≡ r = cc e in rw same at all.0
chosen-IsRule (x ∷ xs) (suc i) r all e = chosen-IsRule xs i r all.1 e

length-repeat : (n : ℕ) (p : ℕ → ℕ) → length (repeat n p) ≡ n
length-repeat zero p = refl
length-repeat (suc n) p = ap suc (length-repeat n p)

All-repeat : (P : (ℕ → ℕ) → Type 0) (n : ℕ) (p : ℕ → ℕ) → P p → All P (repeat n p)
All-repeat P zero p h = tt
All-repeat P (suc n) p h = (h, All-repeat P n p h)

length-take : {A : Type 0} (n : ℕ) (xs : List A) → n ≤ length xs → length (take n xs) ≡ n
length-take zero xs le = refl
length-take (suc n) [] le = absurd (omega arith)
length-take (suc n) (x ∷ xs) le = ap suc (length-take n xs (omega arith))

All-take : {A : Type 0} (P : A → Type 0) (n : ℕ) (xs : List A) → All P xs → All P (take n xs)
All-take P zero xs h = tt
All-take P (suc n) [] h = tt
All-take P (suc n) (x ∷ xs) (h, more) = (h, All-take P n xs more)

module _ {Rand : Type 0} (draw : ℕ → Rand → ℕ × Rand) (filters : List RuleIpv4Acl)
    (big_endian : Bool) (rules : All IsRule filters) where
  -- One round adds a packet at least, and only packets that meet a rule.
  Adds : List (ℕ → ℕ) × Rand → Type 0
  Adds m = (1 ≤ length m.0) × All (MeetsOne filters big_endian) m.0

  pareto_distrib-one : (rand : Rand) → OnSuccess (λ c. c.0 ≡ 1) (pareto_distrib draw 1 rand)
  unfolding pareto_distrib
  pareto_distrib-one rand = elim (Bool-cases ((draw 1 rand).0 == 0)) [
    | inl zero_bit ↦ rw zero_bit refl
    | inr one_bit ↦ rw one_bit tt
  ]

  header_round-Adds : (rand : Rand) → OnSuccess Adds (header_round draw filters 1 big_endian rand)
  unfolding header_round Adds
  header_round-Adds rand =
      let fi = (draw (length filters - 1) rand).0 in
      let rand0 = (draw (length filters - 1) rand).1 in
      OnSuccess-bind (λ r. Unit) Adds (choose filters fi) _ (OnSuccess-any (choose filters fi))
        λ r chosen u.
          let corner = random_corner draw r big_endian (λ i. 0) rand0 in
          let meets =
            random_corner-in_rule draw r big_endian (λ i. 0) rand0
              (chosen-IsRule filters fi r rules chosen) in
          OnSuccess-bind (λ c. c.0 ≡ 1) Adds (pareto_distrib draw 1 corner.1) _
            (pareto_distrib-one corner.1)
            λ copies drawn one. (
              omega (arith, length-repeat copies.0 corner.0),
              All-repeat (MeetsOne filters big_endian) copies.0 corner.0 (fi, r, chosen, meets),
            )

  -- Enough packets, all of which meet a rule.
  Enough : ℕ → List (ℕ → ℕ) → Type 0
  Enough threshold out = (threshold ≤ length out) × All (MeetsOne filters big_endian) out

  header_loop-Enough :
      (fuel threshold : ℕ) (packets : List (ℕ → ℕ)) (rand : Rand)
      → threshold ≤ length packets + fuel
      → All (MeetsOne filters big_endian) packets
      → OnSuccess
          (Enough threshold)
          (header_loop draw fuel filters 1 threshold big_endian packets rand)
  unfolding header_loop Enough Adds
  header_loop-Enough zero threshold packets rand le all = (omega arith, all)
  header_loop-Enough (suc fuel) threshold packets rand le all =
      elim (Bool-cases (leb (2 ^ 31) (length packets))) [
        | inl over ↦ rw over tt
        | inr fits ↦ elim (Bool-cases (ltb (length packets) threshold)) [
          | inl less ↦
              rw (fits, less)
                (OnSuccess-bind Adds (Enough threshold)
                  (header_round draw filters 1 big_endian rand) _ (header_round-Adds rand)
                  λ more run added.
                    header_loop-Enough fuel threshold (packets ++ more.0) more.1
                      (omega (arith, length-append packets more.0, added.0))
                      (All-append (MeetsOne filters big_endian) packets more.0 all added.1))
          | inr done ↦ rw (fits, done) (ground arith, all)
        ]
      ]

-- If `generate_packets_from_ruleset` returns packets, they are as many as the lower 32 bits of the
-- number asked for say, and each one meets one of the rules, read in the order of bytes asked for.
pub generate_packets_from_ruleset-MeetsOne :
    {Rand : Type 0} (draw : ℕ → Rand → ℕ × Rand) (filters : List RuleIpv4Acl) (num_packets : ℕ)
    (big_endian : Bool) (rand : Rand)
    → All IsRule filters
    → OnSuccess
        (λ out. (length out ≡ num_packets % 2 ^ 32) × All (MeetsOne filters big_endian) out)
        (generate_packets_from_ruleset draw filters num_packets big_endian rand)
unfolding generate_packets_from_ruleset header_gen Enough
generate_packets_from_ruleset-MeetsOne draw [] num_packets big_endian rand rules = tt
generate_packets_from_ruleset-MeetsOne draw (r ∷ rs) num_packets big_endian rand rules =
    let n = num_packets % 2 ^ 32 in
    elim (Bool-cases (leb (2 ^ 31) n)) [
      | inl negative ↦ rw negative tt
      | inr positive ↦ rw positive (
          OnSuccess-bind (Enough draw (r ∷ rs) big_endian rules n)
            (λ out. (length out ≡ n) × All (MeetsOne (r ∷ rs) big_endian) out) _ _
            (header_loop-Enough draw (r ∷ rs) big_endian rules n n [] rand (omega arith) tt)
            λ out run enough.
              (length-take n out enough.0, All-take (MeetsOne (r ∷ rs) big_endian) n out enough.1))
    ]
