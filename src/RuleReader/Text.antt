-- ===== src/RuleReader/Text.antt =====
-- src/rule_parser/classbench_rule_parser.cpp: what the readers and printers use of the streams and
-- strings of the standard library, `RuleReader::atoui` and both `RuleReader::split`.
pub mod Numerals
pub mod Pieces
use Prim.Native.Char.{code}
use Prim.Native.String.{String}
use pclass_vectorized.Prelude.{
  ℕ, zero, suc, ◌+◌, ◌-◌, ◌*◌, ◌/◌, ◌%◌, ◌^◌, ◌≡◌, refl, Bool, true, false, ◌&&◌, ◌||◌, not, Option,
  none, some, List, [], ◌∷◌, ◌++◌, ltb, leb, ◌==◌, if◌then◌else◌, get_elem?,
}

-- `runtime_error`, `io_failure` (`ifstream::failure`), `invalid_argument` and `out_of_range` are the
-- exceptions of these names; `undefined` is a read outside of a vector or an array, and `out_of_fuel`
-- the bound of the model on the rounds of a loop.
pub data Failure : Type 0 where
  runtime_error io_failure invalid_argument out_of_range undefined out_of_fuel : Failure

pub data Result (A : Type 0) : Type 0 where
  success : A → Result A
  failure : Failure → Result A

infixl 5 ◌>>=◌
abbrev pub ◌>>=◌ : {A B : Type 0} → Result A → (A → Result B) → Result B
success a >>= f = f a
failure e >>= f = failure e

pub bind-success :
    {A B : Type 0} (r : Result A) (f : A → Result B) {b : B}
    → r >>= f ≡ success b
    → (a : A) × (r ≡ success a) × (f a ≡ success b)
bind-success (success a) f h = (a, refl, h)
bind-success (failure e) f h = cc

-- The codes of a string literal.
abbrev pub text : String → List ℕ
text String.[] = []
text (String.◌∷◌ c s) = code c ∷ text s

-- `v[i]` of a vector
abbrev pub item : {A : Type 0} → List A → ℕ → Result A
item [] i = failure Failure.undefined
item (x ∷ xs) zero = success x
item (x ∷ xs) (suc i) = item xs i

abbrev pub same_text : List ℕ → List ℕ → Bool
same_text [] [] = true
same_text [] (y ∷ ys) = false
same_text (x ∷ xs) [] = false
same_text (x ∷ xs) (y ∷ ys) = (x == y) && same_text xs ys

-- `isspace`
abbrev pub is_space : ℕ → Bool
is_space c = c == b' ' || leb 9 c && leb c 13

-- `isdigit`
abbrev pub is_digit : ℕ → Bool
is_digit c = leb b'0' c && leb c b'9'

abbrev pub digit_char : ℕ → ℕ
digit_char d = if ltb d 10 then b'0' + d else b'A' + (d - 10)

-- The digit that a character stands for, if it is one of the base.
abbrev pub digit_value : ℕ → Option ℕ
digit_value c =
    if is_digit c
    then some (c - b'0')
    else if leb b'A' c && leb c b'F'
    then some (c - b'A' + 10)
    else if leb b'a' c && leb c b'f'
    then some (c - b'a' + 10)
    else none

abbrev pub digit : ℕ → ℕ → Option ℕ
digit base c = elim (digit_value c) [ none ↦ none | some d ↦ if ltb d base then some d else none ]

-- The value of the digits at the start of a text, behind those read so far.
unfoldable pub scan : ℕ → ℕ → List ℕ → ℕ
scan base v [] = v
scan base v (c ∷ s) = elim (digit base c) [ none ↦ v | some d ↦ scan base (v * base + d) s ]

-- A number as `<<` prints it; 20 digits are enough for 64 bits.
unfoldable pub numeral : ℕ → ℕ → ℕ → List ℕ
numeral base zero n = []
numeral base (suc fuel) n =
    let rest = numeral base fuel (n / base) in
    if ltb n base then digit_char n ∷ [] else rest ++ digit_char (n % base) ∷ []

abbrev pub decimal : ℕ → List ℕ
decimal n = numeral 10 20 n

abbrev pub skip_spaces : List ℕ → List ℕ
skip_spaces [] = []
skip_spaces (c ∷ s) = let rest = skip_spaces s in if is_space c then rest else c ∷ s

-- `reader >> val` for an `unsigned` of 32 bits: a value that does not fit gives the greatest one, a
-- minus sign wraps around, and no digit at all gives 0.
abbrev read_unsigned : Bool → List ℕ → ℕ
read_unsigned minus s =
    let v = scan 10 0 s in
    if leb (2 ^ 32) v then 2 ^ 32 - 1 else if minus then (2 ^ 32 - v) % 2 ^ 32 else v

abbrev read_signed : List ℕ → ℕ
read_signed [] = 0
read_signed (c ∷ s) =
    if c == b'-'
    then read_unsigned true s
    else if c == b'+'
    then read_unsigned false s
    else read_unsigned false (c ∷ s)

unfoldable pub atoui : List ℕ → ℕ
unfolding scan
atoui s = read_signed (skip_spaces s)

abbrev pub prepend : ℕ → List (List ℕ) → List (List ℕ)
prepend c [] = (c ∷ []) ∷ []
prepend c (x ∷ xs) = (c ∷ x) ∷ xs

-- `split`: the texts between the delimiters; the text behind the last one only if it is not empty.
unfoldable pub split : List ℕ → ℕ → List (List ℕ)
split [] delim = []
split (c ∷ s) delim = let rest = split s delim in if c == delim then [] ∷ rest else prepend c rest

abbrev pub ends_word : List ℕ → Bool
ends_word [] = true
ends_word (c ∷ s) = is_space c

-- The words of a line, as `istream_iterator<string>` reads them.
unfoldable pub words : List ℕ → List (List ℕ)
words [] = []
words (c ∷ s) =
    let rest = words s in
    if is_space c then rest else if ends_word s then (c ∷ []) ∷ rest else prepend c rest
