-- ===== src/RuleReader/Openflow.antt =====
-- src/rule_parser/classbench_rule_parser.cpp: the functions that read a line of an OpenFlow dump from
-- a position on: `skip_space_and_comas`, `read_id`, `read_int` and the readers of the field values.
pub mod Values
pub mod Lines
pub mod Fuel
pub mod Remaining
pub mod Termination
pub mod Fields
use pclass_vectorized.Prelude.{
  ℕ, zero, suc, ◌+◌, ◌-◌, ◌*◌, ◌/◌, ◌%◌, ◌^◌, Bool, true, false, ◌&&◌, ◌||◌, Option, none, some,
  List, [], ◌∷◌, ltb, leb, ◌==◌, if◌then◌else◌,
}
use pclass_vectorized.RuleReader.Text.{Result, success, failure, Failure, is_digit, scan}

-- The position in the line and the text from there on. The character at the end of a string is 0; one
-- place further there is no text, and reading there is undefined.
pub record Cursor : Type 0 where
  pub pos : ℕ
  pub rest : Option (List ℕ)

abbrev pub Reader : Type 0 → Type 0
Reader A = Cursor → Result (A × Cursor)

abbrev pub pure : {A : Type 0} → A → Reader A
pure a c = success (a, c)

abbrev pub throw : {A : Type 0} → Failure → Reader A
throw e c = failure e

abbrev pub and_then : {A B : Type 0} → Result (A × Cursor) → (A → Reader B) → Result (B × Cursor)
and_then (success (a, c)) k = k a c
and_then (failure e) k = failure e

infixl 5 ◌>>=◌ ◌>>◌
abbrev pub ◌>>=◌ : {A B : Type 0} → Reader A → (A → Reader B) → Reader B
m >>= k = λ c. and_then (m c) k

abbrev pub ◌>>◌ : {A B : Type 0} → Reader A → Reader B → Reader B
m >> n = m >>= λ _. n

-- `line[pos + i]`
abbrev pub char_at : ℕ → List ℕ → Result ℕ
char_at zero [] = success 0
char_at (suc i) [] = failure Failure.undefined
char_at zero (x ∷ s) = success x
char_at (suc i) (x ∷ s) = char_at i s

abbrev pub with_cursor : {A : Type 0} → Result A → Reader A
with_cursor (success a) c = success (a, c)
with_cursor (failure e) c = failure e

unfoldable pub peek_at : ℕ → Reader ℕ
peek_at i c = elim c.rest [
  | none ↦ failure Failure.undefined
  | some s ↦ with_cursor (char_at i s) c
]

abbrev pub tail : Option (List ℕ) → Option (List ℕ)
tail none = none
tail (some []) = none
tail (some (x ∷ s)) = some s

-- `pos++`
abbrev pub skip : Reader (Unit {0})
skip c = success (tt, record { pos = c.pos + 1; rest = tail c.rest })

-- The characters from here on that pass the test, and the cursor behind them.
abbrev pub span : (ℕ → Bool) → ℕ → List ℕ → List ℕ × Cursor
span p pos [] = ([], record { pos = pos; rest = some [] })
span p pos (x ∷ s) =
    let (taken, c) = span p (pos + 1) s in
    if p x then (x ∷ taken, c) else ([], record { pos = pos; rest = some (x ∷ s) })

unfoldable pub read_while : (ℕ → Bool) → Reader (List ℕ)
read_while p c = elim c.rest [
  | none ↦ failure Failure.undefined
  | some s ↦ success (span p c.pos s)
]

-- `skip_space_and_comas`
abbrev pub is_separator : ℕ → Bool
is_separator c = c == b' ' || c == b','

abbrev pub skip_space_and_comas : Reader (Unit {0})
skip_space_and_comas = do read_while is_separator; pure tt

-- `isalnum(c)` or the underscore
abbrev pub is_id_char : ℕ → Bool
is_id_char c = is_digit c || leb b'A' c && leb c b'Z' || leb b'a' c && leb c b'z' || c == b'_'

abbrev pub read_id : Reader (List ℕ)
read_id = read_while is_id_char

-- `stol(n, 0, base)` of a text of decimal digits
abbrev pub stol : ℕ → List ℕ → Result ℕ
stol base [] = failure Failure.invalid_argument
stol base (c ∷ s) =
    let v = scan base 0 (c ∷ s) in
    if leb (2 ^ 63) v then failure Failure.out_of_range else success v

unfoldable pub read_int : ℕ → Reader ℕ
read_int base = do n ← read_while is_digit; with_cursor (stol base n)
