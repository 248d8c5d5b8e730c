-- ===== src/Util.antt =====
-- The tools of src/util.
pub mod Base64
pub mod PriorityQueue
pub mod LockfreeQueue
pub mod MemoryPool
pub mod LinkedList
