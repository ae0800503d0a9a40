-- ===== src/RuleReader/Openflow/Remaining.antt =====
-- src/rule_parser/classbench_rule_parser.cpp: the text that the readers of the field values leave.
use pclass_vectorized.Prelude.{
  ℕ, zero, suc, ◌+◌, ◌≤◌, ◌<◌, ◌≡◌, refl, Bool, true, false, Option, none, some, List, [], ◌∷◌,
  arith, ◌==◌, leb, ◌^◌, ◌-◌, ◌%◌, if◌then◌else◌, length, length-append, Bool-cases, Option-cases,
  inl, inr,
}
use pclass_vectorized.Range.{Range1d}
use pclass_vectorized.RuleReader.Text.{success, failure, Failure, scan, skip_spaces}
use pclass_vectorized.RuleReader.Openflow.{Cursor, is_id_char}
use pclass_vectorized.RuleReader.Openflow.Values.{
  stoi, stoi_signed, stoi_unsigned, starts_with_digit, substr_pos_2, eth_mac_loop, read_eth_mac,
  ipv4_loop, read_ipv4, ip_round, read_ip, read_mask, range_or_mask, read_range, before_equals,
  last_break, value_from, value_break, value_parts, value_at, read_value,
}
use pclass_vectorized.RuleReader.Openflow.Fuel.{
  left, size, Leaves, Shrinks, Converts, Shrinks-bind, Shrinks-then, Shrinks-pure, Shrinks-throw,
  Shrinks-with_cursor, skip-Shrinks, peek_at-Shrinks, Converts-if, Shrinks-if, read_int-Shrinks,
}

stoi_unsigned-Converts : (minus : Bool) (s : List ℕ) → Converts (stoi_unsigned minus s)
stoi_unsigned-Converts minus s =
    let v = scan 10 0 s in
    let bound = if minus then 2 ^ 31 + 1 else 2 ^ 31 in
    let value = success (if minus then (2 ^ 64 - v) % 2 ^ 64 else v) in
    Converts-if {A = ℕ} (starts_with_digit s)
      (if leb bound v then failure Failure.out_of_range else value)
      (failure Failure.invalid_argument)
      (Converts-if {A = ℕ} (leb bound v) (failure Failure.out_of_range) value tt tt) tt

stoi_signed-Converts : (s : List ℕ) → Converts (stoi_signed s)
stoi_signed-Converts [] = tt
stoi_signed-Converts (c ∷ s) =
    let plain = stoi_unsigned false (c ∷ s) in
    Converts-if {A = ℕ} (c == b'-') (stoi_unsigned true s)
      (if c == b'+' then stoi_unsigned false s else plain) (stoi_unsigned-Converts true s)
      (Converts-if {A = ℕ} (c == b'+') (stoi_unsigned false s) plain
        (stoi_unsigned-Converts false s) (stoi_unsigned-Converts false (c ∷ s)))

stoi-Converts : (s : List ℕ) → Converts (stoi s)
unfolding stoi
stoi-Converts s = stoi_signed-Converts (skip_spaces s)

substr-Shrinks : Shrinks substr_pos_2
unfolding substr_pos_2
substr-Shrinks = record {
  leaves = λ c. elim (Option-cases c.rest) [ inl e ↦ rw e tt | inr (s, e) ↦ rw e (omega arith) ];
}

eth_mac_loop-Shrinks : (n val : ℕ) → Shrinks (eth_mac_loop n val)
unfolding eth_mac_loop
eth_mac_loop-Shrinks zero val = Shrinks-pure val
eth_mac_loop-Shrinks (suc n) val = Shrinks-bind substr-Shrinks λ t.
    Shrinks-bind (Shrinks-with_cursor (stoi t) (stoi-Converts t)) λ x.
      Shrinks-bind (peek_at-Shrinks 3) λ c.
        Shrinks-then
          (Shrinks-if (c == b'/') (Shrinks-throw Failure.runtime_error tt) (Shrinks-pure tt))
          (Shrinks-then skip-Shrinks
            (Shrinks-then skip-Shrinks (Shrinks-then skip-Shrinks (eth_mac_loop-Shrinks n _))))

pub read_eth_mac-Shrinks : Shrinks read_eth_mac
unfolding read_eth_mac
read_eth_mac-Shrinks = Shrinks-bind (eth_mac_loop-Shrinks 6 0) λ val. Shrinks-pure _

ipv4_loop-Shrinks : (n addr : ℕ) → Shrinks (ipv4_loop n addr)
unfolding ipv4_loop
ipv4_loop-Shrinks zero addr = Shrinks-pure addr
ipv4_loop-Shrinks (suc n) addr =
    Shrinks-bind (read_int-Shrinks 10) λ x. Shrinks-then skip-Shrinks (ipv4_loop-Shrinks n _)

read_ipv4-Shrinks : Shrinks read_ipv4
unfolding read_ipv4
read_ipv4-Shrinks = Shrinks-bind (ipv4_loop-Shrinks 4 0) λ addr. Shrinks-pure _

ip_round-Shrinks : (i : ℕ) (r : Range1d) → Shrinks (ip_round i r)
ip_round-Shrinks i r = Shrinks-bind (peek_at-Shrinks i) λ c.
    Shrinks-if (c == b':') (Shrinks-throw Failure.runtime_error tt)
      (Shrinks-if (c == b'.') read_ipv4-Shrinks (Shrinks-pure r))

pub read_ip-Shrinks : (r : Range1d) → Shrinks (read_ip r)
unfolding read_ip
read_ip-Shrinks r =
    Shrinks-bind (ip_round-Shrinks 0 r)
      λ r'. Shrinks-bind (ip_round-Shrinks 1 r') (ip_round-Shrinks 2)

read_mask-Shrinks : Shrinks read_mask
unfolding read_mask
read_mask-Shrinks = Shrinks-then skip-Shrinks (
    Shrinks-bind (read_int-Shrinks 16) λ a. Shrinks-then skip-Shrinks (
      Shrinks-then skip-Shrinks
        (Shrinks-then skip-Shrinks (Shrinks-bind (read_int-Shrinks 16) λ m. Shrinks-pure _))))

range_or_mask-Shrinks : (a : ℕ) → Shrinks (range_or_mask a)
range_or_mask-Shrinks zero =
    Shrinks-bind (peek_at-Shrinks 0) λ c. Shrinks-if (c == b'x') read_mask-Shrinks (Shrinks-pure _)
range_or_mask-Shrinks (suc a) = Shrinks-pure _

pub read_range-Shrinks : Shrinks read_range
unfolding read_range
read_range-Shrinks = Shrinks-bind (read_int-Shrinks 10) λ a. range_or_mask-Shrinks _

-- The parts of a text around its first `=`, and around its last break, are not longer than it.
abbrev FitsBefore : List ℕ → Option (List ℕ × List ℕ) → Type 0
FitsBefore s none = Unit
FitsBefore s (some (u, t)) = length u + length t < length s

before_equals-FitsBefore : (s : List ℕ) → FitsBefore s (before_equals s)
before_equals-FitsBefore [] = tt
before_equals-FitsBefore (x ∷ s) =
    let later = before_equals-FitsBefore s in
    elim (Bool-cases (x == b'=')) [
      | inl e ↦ rw e (omega arith)
      | inr e ↦ rw e (elim (Option-cases (before_equals s)) [
        | inl none_later ↦ rw none_later tt
        | inr ((u, t), found) ↦ rw found (omega (arith, rw found at later))
      ])
    ]

abbrev FitsBreak : List ℕ → Option (List ℕ × List ℕ) → Type 0
FitsBreak u none = Unit
FitsBreak u (some (v, w)) = length v + length w ≡ length u

last_break-FitsBreak : (u : List ℕ) → FitsBreak u (last_break u)
last_break-FitsBreak [] = tt
last_break-FitsBreak (x ∷ u) =
    let later = last_break-FitsBreak u in
    elim (Option-cases (last_break u)) [
      | inl none_later ↦
          rw none_later
            (elim (Bool-cases (is_id_char x)) [ inl e ↦ rw e tt | inr e ↦ rw e (omega arith) ])
      | inr ((v, w), found) ↦ rw found (omega (arith, rw found at later))
    ]

value_break-left :
    (start : ℕ) (s u t : List ℕ) (o : Option (List ℕ × List ℕ))
    → length u + length t < length s
    → FitsBreak u o
    → size (value_break start s t o).1 ≤ suc (length s)
value_break-left start s u t none h fits = omega arith
value_break-left start s u t (some (v, w)) h fits = omega (arith, length-append w (b'=' ∷ t))

value_parts-left :
    (start : ℕ) (s : List ℕ) (o : Option (List ℕ × List ℕ))
    → FitsBefore s o
    → size (value_parts start s o).1 ≤ suc (length s)
value_parts-left start s none fits = omega arith
value_parts-left start s (some (u, t)) fits =
    value_break-left start s u t (last_break u) fits (last_break-FitsBreak u)

value_from-left : (start : ℕ) (s : List ℕ) → size (value_from start s).1 ≤ suc (length s)
value_from-left start s = value_parts-left start s (before_equals s) (before_equals-FitsBefore s)

value_at-Leaves : (o : Option (List ℕ)) (c : Cursor) → c.rest ≡ o → Leaves (left o) (value_at o c)
value_at-Leaves none c e = tt
value_at-Leaves (some []) c e = rw e (omega arith)
value_at-Leaves (some (x ∷ s)) c e = elim (Bool-cases (x == b'=')) [
  | inl h ↦ rw h (value_from-left (c.pos + 1) s)
  | inr h ↦ rw h (rw e (omega arith))
]

pub read_value-Shrinks : Shrinks read_value
unfolding read_value
read_value-Shrinks = record { leaves = λ c. value_at-Leaves c.rest c refl }
