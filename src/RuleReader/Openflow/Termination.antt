-- ===== src/RuleReader/Openflow/Termination.antt =====
-- src/rule_parser/classbench_rule_parser.cpp: the loop of `RuleReader::parse_openflow` over a line.
use pclass_vectorized.Prelude.{
  ℕ, zero, suc, ◌+◌, ◌≤◌, ◌<◌, ◌≡◌, Bool, ◌||◌, Option, none, some, List, [], ◌∷◌, arith, length,
  Bool-cases, Option-cases, inl, inr,
}
use pclass_vectorized.Rule.OpenFlow.{RuleOf151, new_of_rule}
use pclass_vectorized.RuleReader.Text.{Result, success, failure, text, same_text}
use pclass_vectorized.RuleReader.Openflow.{
  Cursor, pure, and_then, ◌>>=◌, span, read_while, is_separator, is_id_char, skip_space_and_comas,
  read_id,
}
use pclass_vectorized.RuleReader.Openflow.Lines.{
  read_field, read_entry, entry_of, entries, parse_line, parse_lines, parse_openflow, is_comment,
  add_rule,
}
use pclass_vectorized.RuleReader.Openflow.Fuel.{
  size, IsReal, Leaves, Shrinks, Shrinks-bind, Shrinks-then, Shrinks-pure, Shrinks-if, skip-Shrinks,
  read_while-Shrinks, read_int-Shrinks,
}
use pclass_vectorized.RuleReader.Openflow.Remaining.{
  read_eth_mac-Shrinks, read_ip-Shrinks, read_range-Shrinks, read_value-Shrinks,
}

read_field-Shrinks : (id : List ℕ) (r : RuleOf151) → Shrinks (read_field id r)
unfolding read_field
read_field-Shrinks id r =
    Shrinks-if (same_text id (text "in_port"))
      (Shrinks-then skip-Shrinks (Shrinks-bind (read_int-Shrinks 10) λ d. Shrinks-pure _))
      (Shrinks-if (same_text id (text "eth_type"))
        (Shrinks-then skip-Shrinks (Shrinks-bind (read_int-Shrinks 10) λ d. Shrinks-pure _))
        (Shrinks-if (same_text id (text "dl_src"))
          (Shrinks-then skip-Shrinks (Shrinks-bind read_eth_mac-Shrinks λ m. Shrinks-pure _))
          (Shrinks-if (same_text id (text "dl_dst"))
            (Shrinks-then skip-Shrinks (Shrinks-bind read_eth_mac-Shrinks λ m. Shrinks-pure _))
            (Shrinks-if (same_text id (text "nw_proto"))
              (Shrinks-then skip-Shrinks (Shrinks-bind (read_int-Shrinks 10) λ d. Shrinks-pure _))
              (Shrinks-if (same_text id (text "nw_src"))
                (Shrinks-then skip-Shrinks
                  (Shrinks-bind (read_ip-Shrinks r.ipv4_src) λ a. Shrinks-pure _))
                (Shrinks-if (same_text id (text "nw_dst"))
                  (Shrinks-then skip-Shrinks
                    (Shrinks-bind (read_ip-Shrinks r.ipv4_dst) λ a. Shrinks-pure _))
                  (Shrinks-if (same_text id (text "tp_dst"))
                    (Shrinks-then skip-Shrinks
                      (Shrinks-bind read_range-Shrinks λ p. Shrinks-pure _))
                    (Shrinks-if (same_text id (text "tp_src"))
                      (Shrinks-then skip-Shrinks
                        (Shrinks-bind read_range-Shrinks λ p. Shrinks-pure _))
                      (Shrinks-if (same_text id (text "dl_vlan") || same_text id (text "vlan_vid"))
                        (Shrinks-then skip-Shrinks
                          (Shrinks-bind read_range-Shrinks λ v. Shrinks-pure _))
                        (Shrinks-then read_value-Shrinks (Shrinks-pure r)))))))))))

-- What a round of the loop leaves: less than n characters if there was an entry.
abbrev Takes : ℕ → Result (Option RuleOf151 × Cursor) → Type 0
Takes n (success (none, c)) = Unit
Takes n (success (some r, c)) = size c < n
Takes n (failure e) = IsReal e

Takes-weaken : (n m : ℕ) (o : Result (Option RuleOf151 × Cursor)) → n ≤ m → Takes n o → Takes m o
Takes-weaken n m (success (none, c)) le h = tt
Takes-weaken n m (success (some r, c)) le h = omega arith
Takes-weaken n m (failure e) le h = h

field-Takes :
    (m n : ℕ) (o : Result (RuleOf151 × Cursor))
    → Leaves m o
    → m < n
    → Takes n (and_then o λ r'. pure (some r'))
field-Takes m n (success (r, c)) h lt = omega arith
field-Takes m n (failure e) h lt = h

span_sum :
    (p : ℕ → Bool) (pos : ℕ) (s : List ℕ)
    → size (span p pos s).1 + length (span p pos s).0 ≡ length s
span_sum p pos [] = omega arith
span_sum p pos (x ∷ s) = ground (arith, span_sum p (pos + 1) s)

-- What a name read from n characters leaves.
abbrev Splits : ℕ → Result (List ℕ × Cursor) → Type 0
Splits n (success (id, c)) = size c + length id ≤ n
Splits n (failure e) = IsReal e

read_while-Splits : (p : ℕ → Bool) (c : Cursor) → Splits (size c) (read_while p c)
unfolding read_while
read_while-Splits p c = elim (Option-cases c.rest) [
  | inl e ↦ rw e tt
  | inr (s, e) ↦ rw e (omega (arith, span_sum p c.pos s))
]

entry_of-Takes :
    (n : ℕ) (r : RuleOf151) (id : List ℕ) (c : Cursor)
    → size c + length id ≤ n
    → Takes n (entry_of r id c)
entry_of-Takes n r [] c h = tt
entry_of-Takes n r (x ∷ id) c h =
    field-Takes (size c) n (read_field (x ∷ id) r c) ((read_field-Shrinks (x ∷ id) r).leaves c)
      (omega arith)

id-Takes :
    (n : ℕ) (r : RuleOf151) (o : Result (List ℕ × Cursor))
    → Splits n o
    → Takes n (and_then o (entry_of r))
id-Takes n r (success (id, c)) h = entry_of-Takes n r id c h
id-Takes n r (failure e) h = h

separators-Takes :
    (n : ℕ) (r : RuleOf151) (o : Result (Unit {0} × Cursor))
    → Leaves n o
    → Takes n (and_then o λ _. read_id >>= entry_of r)
separators-Takes n r (success (u, c)) h =
    Takes-weaken (size c) n (and_then (read_id c) (entry_of r)) h
      (id-Takes (size c) r (read_id c) (read_while-Splits is_id_char c))
separators-Takes n r (failure e) h = h

read_entry-Takes : (r : RuleOf151) (c : Cursor) → Takes (size c) (read_entry r c)
unfolding read_entry
read_entry-Takes r c =
    let separators =
      Shrinks-then (read_while-Shrinks is_separator) (Shrinks-pure {A = Unit {0}} tt) in
    separators-Takes (size c) r (skip_space_and_comas c) (separators.leaves c)

-- The result is one of the program.
abbrev pub Ends : {A : Type 0} → Result A → Type 0
Ends (success a) = Unit
Ends (failure e) = IsReal e

round-Ends :
    (fuel n : ℕ) (r : RuleOf151) (o : Result (Option RuleOf151 × Cursor))
    → Takes n o
    → n ≤ fuel
    → ((r' : RuleOf151) (c : Cursor) → size c < fuel → Ends (entries fuel r' c))
    → Ends (and_then o λ x. elim x [ none ↦ pure r | some r' ↦ entries fuel r' ])
round-Ends fuel n r (success (none, c)) h le next = tt
round-Ends fuel n r (success (some r', c)) h le next = next r' c (omega arith)
round-Ends fuel n r (failure e) h le next = h

entries-Ends : (fuel : ℕ) (r : RuleOf151) (c : Cursor) → size c < fuel → Ends (entries fuel r c)
unfolding entries
entries-Ends zero r c lt = absurd (omega arith)
entries-Ends (suc fuel) r c lt =
    round-Ends fuel (size c) r (read_entry r c) (read_entry-Takes r c) (omega arith)
      (entries-Ends fuel)

parse_line-Ends : (line : List ℕ) → Ends (parse_line line)
unfolding parse_line
parse_line-Ends line = entries-Ends (length line + 1) new_of_rule _ (omega arith)

add_rule-Ends :
    (o : Result (RuleOf151 × Cursor)) (rest : Result (List RuleOf151))
    → Ends o
    → Ends rest
    → Ends (add_rule o rest)
add_rule-Ends (failure e) rest h h' = h
add_rule-Ends (success (r, c)) (failure e) h h' = h'
add_rule-Ends (success (r, c)) (success rs) h h' = tt

parse_lines-Ends : (lines : List (List ℕ)) → Ends (parse_lines lines)
unfolding parse_lines
parse_lines-Ends [] = tt
parse_lines-Ends (line ∷ lines) =
    let rest = parse_lines-Ends lines in
    elim (Bool-cases (is_comment line)) [
      | inl e ↦ rw e rest
      | inr e ↦
          rw e (add_rule-Ends (parse_line line) (parse_lines lines) (parse_line-Ends line) rest)
    ]

-- The loops of `parse_openflow` end on every file: each round over a line takes a character of it at
-- least, so that the result is the list of the rules or a failure of the program, never the bound on
-- the rounds.
pub parse_openflow-Ends : (lines : List (List ℕ)) → Ends (parse_openflow lines)
unfolding parse_openflow
parse_openflow-Ends [] = tt
parse_openflow-Ends (header ∷ lines) = parse_lines-Ends lines
