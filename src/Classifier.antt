-- ===== src/Classifier.antt =====
-- include/pcv/partition_sort/partition_sort_classifier.h: the classifier that keeps its rules in
-- several trees (`PartitionSortClassifer`), over any type of trees. A pointer to a `tree_info` is a
-- number; the array `trees` holds such pointers, and `info` is what they point to.
pub mod Tree
pub mod Maps
pub mod Search
pub mod Update
pub mod BTrees
