-- ===== src/Mempool.antt =====
-- include/pcv/partition_sort/mempool.h and mempool_dynamic.h: pools of objects of one size, with a
-- singly linked list of the free slots. A pointer into the pool is the index of its slot.
pub mod Slots
pub mod Dynamic
pub mod Static
