-- ===== src/RuleReader/Openflow/Values.antt =====
-- src/rule_parser/classbench_rule_parser.cpp: `read_eth_mac`, `read_ipv4`, `read_ip`, `read_range` and
-- `read_value`.
use Prim.Native.Nat.{bit_or}
use pclass_vectorized.Prelude.{
  ℕ, zero, suc, ◌+◌, ◌-◌, ◌*◌, ◌%◌, ◌^◌, Bool, true, false, Option, none, some, List, [], ◌∷◌, ◌++◌,
  leb, ◌==◌, if◌then◌else◌, length,
}
use pclass_vectorized.Range.{Range1d, range}
use pclass_vectorized.RuleReader.Text.{
  Result, success, failure, Failure, skip_spaces, is_digit, scan,
}
use pclass_vectorized.RuleReader.Openflow.{
  Cursor, Reader, pure, throw, ◌>>=◌, ◌>>◌, with_cursor, peek_at, skip, is_id_char, read_int,
}

-- `stoi`; a negative number is the `uint64_t` that it becomes in the only use.
abbrev pub starts_with_digit : List ℕ → Bool
starts_with_digit [] = false
starts_with_digit (c ∷ s) = is_digit c

abbrev pub stoi_unsigned : Bool → List ℕ → Result ℕ
stoi_unsigned minus s =
    let v = scan 10 0 s in
    let bound = if minus then 2 ^ 31 + 1 else 2 ^ 31 in
    if starts_with_digit s
    then if leb bound v
      then failure Failure.out_of_range
      else success (if minus then (2 ^ 64 - v) % 2 ^ 64 else v)
    else failure Failure.invalid_argument

abbrev pub stoi_signed : List ℕ → Result ℕ
stoi_signed [] = failure Failure.invalid_argument
stoi_signed (c ∷ s) =
    if c == b'-'
    then stoi_unsigned true s
    else if c == b'+'
    then stoi_unsigned false s
    else stoi_unsigned false (c ∷ s)

unfoldable pub stoi : List ℕ → Result ℕ
stoi s = stoi_signed (skip_spaces s)

abbrev pub take : {A : Type 0} → ℕ → List A → List A
take zero xs = []
take (suc n) [] = []
take (suc n) (x ∷ xs) = x ∷ take n xs

-- `line.substr(pos, pos + 2)`: the second number is a length.
unfoldable pub substr_pos_2 : Reader (List ℕ)
substr_pos_2 c = elim c.rest [
  | none ↦ failure Failure.out_of_range
  | some s ↦ success (take (c.pos + 2) s, c)
]

-- The rounds of the loop of `read_eth_mac`.
unfoldable pub eth_mac_loop : ℕ → ℕ → Reader ℕ
eth_mac_loop zero val = pure val
eth_mac_loop (suc n) val = do
  text ← substr_pos_2
  x ← with_cursor (stoi text)
  c ← peek_at 3
  if c == b'/' then throw Failure.runtime_error else pure tt
  skip
  skip
  skip
  eth_mac_loop n (bit_or (val * 2 ^ 8 % 2 ^ 64) x)

unfoldable pub read_eth_mac : Reader Range1d
unfolding eth_mac_loop
read_eth_mac = do val ← eth_mac_loop 6 0; pure (range val val)

-- The rounds of the loop of `read_ipv4`.
unfoldable pub ipv4_loop : ℕ → ℕ → Reader ℕ
ipv4_loop zero addr = pure addr
ipv4_loop (suc n) addr = do
  x ← read_int 10
  skip
  ipv4_loop n (bit_or (addr * 2 ^ 8 % 2 ^ 32) (x % 2 ^ 32))

unfoldable pub read_ipv4 : Reader Range1d
unfolding ipv4_loop
read_ipv4 = do addr ← ipv4_loop 4 0; pure (range addr addr)

-- One round of the loop of `read_ip`; `read_ipv6` only throws.
abbrev pub ip_round : ℕ → Range1d → Reader Range1d
ip_round i ipv4 = do
  c ← peek_at i
  if c == b':' then throw Failure.runtime_error else if c == b'.' then read_ipv4 else pure ipv4

unfoldable pub read_ip : Range1d → Reader Range1d
read_ip ipv4 = ip_round 0 ipv4 >>= λ r. ip_round 1 r >>= ip_round 2

-- The rest of `read_range` behind 0x.
unfoldable pub read_mask : Reader Range1d
read_mask = do
  skip
  a ← read_int 16
  skip
  skip
  skip
  m ← read_int 16
  pure (range (a % 2 ^ 16) ((a % 2 ^ 16 + (2 ^ 16 - 1 - m % 2 ^ 16)) % 2 ^ 16))

abbrev pub range_or_mask : ℕ → Reader Range1d
range_or_mask zero = do c ← peek_at 0; if c == b'x' then read_mask else pure (range 0 0)
range_or_mask (suc a) = pure (range (suc a) (suc a))

unfoldable pub read_range : Reader Range1d
read_range = do a ← read_int 10; range_or_mask (a % 2 ^ 16)

-- The text in front of the first `=`, and the text behind it.
abbrev pub before_equals : List ℕ → Option (List ℕ × List ℕ)
before_equals [] = none
before_equals (x ∷ s) =
    let rest = before_equals s in
    if x == b'=' then some ([], s) else elim rest [ none ↦ none | some (u, t) ↦ some (x ∷ u, t) ]

-- The text in front of the last character that is none of an identifier, and the text from it on.
abbrev pub last_break : List ℕ → Option (List ℕ × List ℕ)
last_break [] = none
last_break (x ∷ s) = elim (last_break s) [
  | some (v, w) ↦ some (x ∷ v, w)
  | none ↦ if is_id_char x then none else some ([], x ∷ s)
]

-- `read_value` behind its `=`, at position `start`. If there is nothing in front of the next
-- identifier the length wraps around, so that the value is all of the text, and the position is that
-- of the `=` again.
abbrev pub value_break : ℕ → List ℕ → List ℕ → Option (List ℕ × List ℕ) → List ℕ × Cursor
value_break start s t none = (s, record { pos = start - 1; rest = some (b'=' ∷ s) })
value_break start s t (some (v, w)) =
    (v, record { pos = start + length v; rest = some (w ++ b'=' ∷ t) })

abbrev pub value_parts : ℕ → List ℕ → Option (List ℕ × List ℕ) → List ℕ × Cursor
value_parts start s none = (s, record { pos = start + length s; rest = some [] })
value_parts start s (some (u, t)) = value_break start s t (last_break u)

abbrev pub value_from : ℕ → List ℕ → List ℕ × Cursor
value_from start s = value_parts start s (before_equals s)

abbrev pub value_at : Option (List ℕ) → Reader (List ℕ)
value_at none c = failure Failure.undefined
value_at (some []) c = success ([], c)
value_at (some (x ∷ s)) c =
    if x == b'=' then success (value_from (c.pos + 1) s) else success ([], c)

unfoldable pub read_value : Reader (List ℕ)
read_value c = value_at c.rest c
