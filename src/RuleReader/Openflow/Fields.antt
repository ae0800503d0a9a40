-- ===== src/RuleReader/Openflow/Fields.antt =====
-- src/rule_parser/classbench_rule_parser.cpp: what `read_range` and `read_ip` return.
use pclass_vectorized.Prelude.{ℕ, ◌≡◌, true, some, List, ◌∷◌, arith}
use pclass_vectorized.Range.{Range1d}
use pclass_vectorized.RuleReader.Text.{success, is_digit}
use pclass_vectorized.RuleReader.Openflow.{peek_at}
use pclass_vectorized.RuleReader.Openflow.Values.{read_ip}

-- An address whose first number has three digits is not read: the range and the position stay as
-- they are, since only the first three characters are compared with the dot and the colon.
pub read_ip_three :
    (r : Range1d) (pos x y z : ℕ) (s : List ℕ)
    → is_digit x ≡ true
    → is_digit y ≡ true
    → is_digit z ≡ true
    → read_ip r (record { pos = pos; rest = some (x ∷ y ∷ z ∷ s) })
      ≡ success (r, record { pos = pos; rest = some (x ∷ y ∷ z ∷ s) })
unfolding read_ip peek_at
read_ip_three r pos x y z s hx hy hz = ground (arith)
