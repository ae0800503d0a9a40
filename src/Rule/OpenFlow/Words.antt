-- ===== src/Rule/OpenFlow/Words.antt =====
-- src/rule_parser/rule.cpp: the words of an OpenFlow rule.
use pclass_vectorized.Prelude.{◌≡◌, refl, length}
use pclass_vectorized.Rule.OpenFlow.{RuleOf151, of_rule_to_array_16b}

-- 98 of the 177 words of the array are written for every rule.
pub length-of_rule_to_array_16b : (r : RuleOf151) → length (of_rule_to_array_16b r) ≡ 98
unfolding of_rule_to_array_16b
length-of_rule_to_array_16b r = refl
