-- ===== src/RuleReader.antt =====
-- src/rule_parser/classbench_rule_parser.cpp and include/pcv/rule_parser/classbench_rule_parser.h:
-- the readers of rule files and the printers of rules. A file is the list of its lines and a text
-- the list of its character codes; opening and closing files is not modelled.
pub mod Text
pub mod Ipv4
pub mod Classbench
pub mod Printer
pub mod Openflow
pub mod Msu
pub mod Files
