-- ===== src/Lib.antt =====
-- pclass-vectorized: packet classification with layered B-trees (partition sort).
--
-- A classifier holds rules, each with a range for every field of a packet, a priority and an id, and
-- finds the best rule for a packet. `PartitionSortClassifer` keeps its rules in several trees; each
-- tree is a B-tree of ranges of one field, whose keys lead to B-trees of the next field, in an order
-- of the fields that is the tree's own. Chains of levels with one key may be compressed into a node.
--
-- The files and the code they model (paths from the repository's root):
--   Prelude              helpers: lists and arrays indexed by native numbers, states with faults
--   Range                include/pcv/common/range.h (Range1d); Range/PrefixLength is from
--                        src/rule_parser/classbench_rule_parser.cpp
--   Mempool/Dynamic      include/pcv/partition_sort/mempool_dynamic.h (DynamicMempool)
--   Mempool/Static       include/pcv/partition_sort/mempool.h (StaticMempool), and in Static/Spec what a
--                        pool promises as a list of free slots
--   BTree                include/pcv/partition_sort/b_tree.h, b_tree_cfg.h, b_tree_node.h, key_info.h,
--                        rule_value_int.h: nodes, keys, values, the tree with its memory
--   BTree/Navigator      b_tree_node_navigator.h: links between nodes
--   BTree/Search         b_tree_search.h: one node (Search), a packet's bytes (Search/Packet), all
--                        levels and paths of rules (Search/Levels)
--   BTree/Insert         b_tree_insert.h, with the cookie, split_child and compression in child modules
--   BTree/Views          nodes without their links to parents, on which the proofs about split_child,
--                        insert_non_full and insert_to_root work
--   BTree/Remove         b_tree_remove.h, with borrowing and merging in Remove/Rebalance
--   BTree/KeyIterator    b_tree_key_iterator.h; BTree/CollisionCheck b_tree_collision_check.h;
--   BTree/ToRules        b_tree_to_rules.h
--   ArrayResort          include/pcv/common/array_resorter.h
--   Scheduling           include/pcv/partition_sort/weighted_interval_scheduling_solver.h
--   DimensionOrder       include/pcv/partition_sort/dimension_order_resolver.h
--   Classifier           include/pcv/partition_sort/partition_sort_classifier.h, with the equalities of
--                        include/pcv/common/array_hasher.h and rulespec_hasher.h; Classifier/BTrees is
--                        b_tree_impl.h (BTreeImp), the trees it is used with
--   ListClassifier       benchmarks/list/list_classifier.h, the reference classifier
--   Rule                 include/pcv/rule_parser/rule.h, rule_vec_utils.h, src/rule_parser/rule.cpp;
--                        the OpenFlow rule, with its printer, is in Rule/OpenFlow, the words of
--                        packets in Rule/PacketWords, those of ranges in Rule/PacketWords/Masked
--   RuleReader           src/rule_parser/classbench_rule_parser.cpp: texts and numbers (Text), addresses
--                        (Ipv4), the formats (Classbench, Msu, Openflow), whole files (Files), and the
--                        printers of IPv4 rules (Printer)
--   Trace                src/rule_parser/trace_tools.cpp: packets at the corners of rules
--   Tests                runs and examples
-- The other child modules hold proofs and are named for what they prove.
--
-- State is passed explicitly. A tree is a memory of nodes (a function from slot numbers), the pool
-- that manages the slots, the root and the order of the dimensions; an operation is a function from a
-- tree to a value and a tree, or to a fault. A pointer is a slot number, a null pointer is `none`. The
-- classifier is modelled over an interface of tree operations (`TreeOps`), which stands for its
-- template parameter. Unsigned integers are natural numbers; where the source truncates, the model
-- takes the remainder. The model is that of a build with NDEBUG: assertions are compiled out, but a
-- key more in a full node, which would be written behind its arrays, is a failure, and the assertions
-- of the dynamic pool on its links are functions that its theorems speak of.
--
-- Recursion through links runs on fuel, one unit for each node or level that is entered: a search
-- enters at most as many nodes of a level as it is high, and each level once, and `size` of a pool
-- gives its walk one unit more than there are slots. `insert` of the classifier may call
-- itself when a tree is rebuilt, and runs on fuel as well.
--
-- The loop over a line of an OpenFlow dump runs on the length of the line and one, since each round
-- takes a character. A file is the list of its lines, a text the list of its character codes; a read
-- outside of a vector or behind the end of a string is a failure of its own.
--
-- `std::sort` is a parameter; what is relied on is that it permutes its input, and where a theorem
-- says so that it sorts.
--
-- Not modelled: the spinlocks (the pools are instantiated without), input and output of files, the
-- printer of trees, the mock of the memory pool, the AVX2 search that no code calls, and the
-- benchmarks.
pub mod Prelude
pub mod Range
pub mod Mempool
pub mod BTree
mod Tests
pub mod ArrayResort
pub mod Scheduling
pub mod DimensionOrder
pub mod ListClassifier
pub mod Classifier
pub mod Rule
pub mod RuleReader
pub mod Trace
