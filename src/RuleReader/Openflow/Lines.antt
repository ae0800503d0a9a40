-- ===== src/RuleReader/Openflow/Lines.antt =====
-- src/rule_parser/classbench_rule_parser.cpp: `RuleReader::parse_openflow`.
use pclass_vectorized.Prelude.{
  ℕ, zero, suc, ◌+◌, ◌%◌, ◌^◌, Bool, true, ◌||◌, Option, none, some, List, [], ◌∷◌, ◌==◌,
  if◌then◌else◌, length,
}
use pclass_vectorized.Range.{Range1d, range}
use pclass_vectorized.Rule.OpenFlow.{RuleOf151, new_of_rule}
use pclass_vectorized.RuleReader.Text.{Result, success, failure, Failure, text, same_text}
use pclass_vectorized.RuleReader.Openflow.{
  Cursor, Reader, pure, throw, ◌>>=◌, ◌>>◌, skip, skip_space_and_comas, read_id, read_int,
}
use pclass_vectorized.RuleReader.Openflow.Values.{read_eth_mac, read_ip, read_range, read_value}

-- A number of w bits, as a range.
abbrev pub exact : ℕ → ℕ → Range1d
exact w d = range (d % 2 ^ w) (d % 2 ^ w)

-- The value of the field with this name, behind its `=`; the others are skipped, and printed.
unfoldable pub read_field : List ℕ → RuleOf151 → Reader RuleOf151
read_field id r =
    if same_text id (text "in_port")
    then (do skip; d ← read_int 10; pure (record r { in_port = exact 32 d }))
    else if same_text id (text "eth_type")
    then (do skip; d ← read_int 10; pure (record r { eth_type = exact 16 d }))
    else if same_text id (text "dl_src")
    then (do skip; m ← read_eth_mac; pure (record r { eth_src = m }))
    else if same_text id (text "dl_dst")
    then (do skip; m ← read_eth_mac; pure (record r { eth_dst = m }))
    else if same_text id (text "nw_proto")
    then (do skip; d ← read_int 10; pure (record r { ip_proto = exact 8 d }))
    else if same_text id (text "nw_src")
    then (do skip; a ← read_ip r.ipv4_src; pure (record r { ipv4_src = a }))
    else if same_text id (text "nw_dst")
    then (do skip; a ← read_ip r.ipv4_dst; pure (record r { ipv4_dst = a }))
    else if same_text id (text "tp_dst")
    then (do skip; p ← read_range; pure (record r { tcp_dst = p; udp_dst = p }))
    else if same_text id (text "tp_src")
    then (do skip; p ← read_range; pure (record r { tcp_src = p; udp_src = p }))
    else if same_text id (text "dl_vlan") || same_text id (text "vlan_vid")
    then (do skip; v ← read_range; pure (record r { vlan_vid = v }))
    else (do read_value; pure r)

-- One round of the loop over a line; nothing at its end, where no identifier follows.
abbrev pub entry_of : RuleOf151 → List ℕ → Reader (Option RuleOf151)
entry_of r [] = pure none
entry_of r (c ∷ s) = do r' ← read_field (c ∷ s) r; pure (some r')

unfoldable pub read_entry : RuleOf151 → Reader (Option RuleOf151)
read_entry r = do skip_space_and_comas; id ← read_id; entry_of r id

-- The loop over a line.
unfoldable pub entries : ℕ → RuleOf151 → Reader RuleOf151
entries zero r = throw Failure.out_of_fuel
entries (suc fuel) r = read_entry r >>= λ o. elim o [ none ↦ pure r | some r' ↦ entries fuel r' ]

-- A line: each round takes a character at least, so that this is fuel enough.
unfoldable pub parse_line : List ℕ → Result (RuleOf151 × Cursor)
parse_line line = entries (length line + 1) new_of_rule (record { pos = 0; rest = some line })

abbrev pub is_comment : List ℕ → Bool
is_comment [] = true
is_comment (c ∷ s) = c == b'#'

abbrev pub add_rule :
    Result (RuleOf151 × Cursor) → Result (List RuleOf151) → Result (List RuleOf151)
add_rule (failure e) rest = failure e
add_rule (success (r, c)) (failure e) = failure e
add_rule (success (r, c)) (success rs) = success (r ∷ rs)

-- The loop over the lines.
unfoldable pub parse_lines : List (List ℕ) → Result (List RuleOf151)
parse_lines [] = success []
parse_lines (line ∷ lines) =
    let rest = parse_lines lines in
    if is_comment line then rest else add_rule (parse_line line) rest

-- The first line is the header.
unfoldable pub parse_openflow : List (List ℕ) → Result (List RuleOf151)
parse_openflow [] = success []
parse_openflow (header ∷ lines) = parse_lines lines
