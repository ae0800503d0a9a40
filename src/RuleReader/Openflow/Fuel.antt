-- ===== src/RuleReader/Openflow/Fuel.antt =====
-- src/rule_parser/classbench_rule_parser.cpp: the text that the readers of an OpenFlow line leave.
use pclass_vectorized.Prelude.{
  ℕ, zero, suc, ◌+◌, ◌≤◌, Bool, true, false, Option, none, some, List, [], ◌∷◌, arith, leb, ◌^◌,
  if◌then◌else◌, length, Option-cases, inl, inr,
}
use pclass_vectorized.RuleReader.Text.{Result, success, failure, Failure, scan}
use pclass_vectorized.RuleReader.Openflow.{
  Cursor, Reader, pure, throw, and_then, ◌>>=◌, ◌>>◌, with_cursor, char_at, peek_at, tail, skip,
  span, read_while, read_int, stol,
}
use pclass_vectorized.RuleReader.Openflow.Values.{}

abbrev pub left : Option (List ℕ) → ℕ
left none = 0
left (some s) = length s

abbrev pub size : Cursor → ℕ
size c = left c.rest

-- A failure of the program, not of the model.
abbrev pub IsReal : Failure → Type 0
IsReal Failure.out_of_fuel = ⊥
IsReal _ = Unit

-- At most n characters are left, or the program fails.
abbrev pub Leaves : {A : Type 0} → ℕ → Result (A × Cursor) → Type 0
Leaves n (success (a, c)) = size c ≤ n
Leaves n (failure e) = IsReal e

pub record Shrinks {A : Type 0} (m : Reader A) : Type 0 where
  pub leaves : (c : Cursor) → Leaves (size c) (m c)

-- A conversion of a text fails as the program does.
abbrev pub Converts : {A : Type 0} → Result A → Type 0
Converts (success a) = Unit
Converts (failure e) = IsReal e

Leaves-weaken : {A : Type 0} (n m : ℕ) (r : Result (A × Cursor)) → n ≤ m → Leaves n r → Leaves m r
Leaves-weaken n m (success (a, c)) le h = omega arith
Leaves-weaken n m (failure e) le h = h

module _ {A B : Type 0} where
  Leaves-and_then :
      (n : ℕ) (r : Result (A × Cursor)) (k : A → Reader B)
      → Leaves n r
      → ((a : A) → Shrinks (k a))
      → Leaves n (and_then r k)
  Leaves-and_then n (failure e) k h more = h
  Leaves-and_then n (success (a, c)) k h more =
      Leaves-weaken (size c) n (k a c) h ((more a).leaves c)

  pub Shrinks-bind :
      {m : Reader A} {k : A → Reader B} → Shrinks m → ((a : A) → Shrinks (k a)) → Shrinks (m >>= k)
  Shrinks-bind {m} {k} h more = record {
    leaves = λ c. Leaves-and_then (size c) (m c) k (h.leaves c) more;
  }

  pub Shrinks-then : {m : Reader A} {n : Reader B} → Shrinks m → Shrinks n → Shrinks (m >> n)
  Shrinks-then h h' = Shrinks-bind h λ _. h'

pub Shrinks-pure : {A : Type 0} (a : A) → Shrinks (pure a)
Shrinks-pure a = record { leaves = λ c. omega arith }

pub Shrinks-throw : {A : Type 0} (e : Failure) → IsReal e → Shrinks (throw {A = A} e)
Shrinks-throw e h = record { leaves = λ c. h }

pub Shrinks-with_cursor : {A : Type 0} (r : Result A) → Converts r → Shrinks (with_cursor r)
Shrinks-with_cursor (success a) h = record { leaves = λ c. omega arith }
Shrinks-with_cursor (failure e) h = record { leaves = λ c. h }

left-tail : (o : Option (List ℕ)) → left (tail o) ≤ left o
left-tail none = omega arith
left-tail (some []) = omega arith
left-tail (some (x ∷ s)) = omega arith

pub skip-Shrinks : Shrinks skip
skip-Shrinks = record { leaves = λ c. left-tail c.rest }

char_at-Converts : (i : ℕ) (s : List ℕ) → Converts (char_at i s)
char_at-Converts zero [] = tt
char_at-Converts (suc i) [] = tt
char_at-Converts zero (x ∷ s) = tt
char_at-Converts (suc i) (x ∷ s) = char_at-Converts i s

pub peek_at-Shrinks : (i : ℕ) → Shrinks (peek_at i)
unfolding peek_at
peek_at-Shrinks i = record {
  leaves = λ c. elim (Option-cases c.rest) [
    | inl e ↦ rw e tt
    | inr (s, e) ↦
        rw e (rw e at ((Shrinks-with_cursor (char_at i s) (char_at-Converts i s)).leaves c))
  ];
}

span-left : (p : ℕ → Bool) (pos : ℕ) (s : List ℕ) → size (span p pos s).1 ≤ length s
span-left p pos [] = omega arith
span-left p pos (x ∷ s) = ground (arith, span-left p (pos + 1) s)

pub read_while-Shrinks : (p : ℕ → Bool) → Shrinks (read_while p)
unfolding read_while
read_while-Shrinks p = record {
  leaves =
      λ c. elim (Option-cases c.rest) [ inl e ↦ rw e tt | inr (s, e) ↦ rw e (span-left p c.pos s) ];
}

pub Converts-if :
    {A : Type 0} (b : Bool) (r t : Result A)
    → Converts r
    → Converts t
    → Converts (if b then r else t)
Converts-if true r t h h' = h
Converts-if false r t h h' = h'

pub Shrinks-if :
    {A : Type 0} (b : Bool) {m n : Reader A} → Shrinks m → Shrinks n → Shrinks (if b then m else n)
Shrinks-if true h h' = h
Shrinks-if false h h' = h'

stol-Converts : (base : ℕ) (s : List ℕ) → Converts (stol base s)
stol-Converts base [] = tt
stol-Converts base (c ∷ s) =
    Converts-if {A = ℕ} (leb (2 ^ 63) (scan base 0 (c ∷ s))) (failure Failure.out_of_range)
      (success (scan base 0 (c ∷ s))) tt tt

pub read_int-Shrinks : (base : ℕ) → Shrinks (read_int base)
unfolding read_int
read_int-Shrinks base =
    Shrinks-bind (read_while-Shrinks _)
      λ n. Shrinks-with_cursor (stol base n) (stol-Converts base n)
