-- ===== src/Tests.antt =====
-- Concrete inputs that show what the theorems apply to. The costs are natural numbers, with a largest
-- one for FLT_MAX.
pub mod Numbers
pub mod Graphs
pub mod Buckets
pub mod Heaps
pub mod Walks
pub mod Paths
pub mod Files
pub mod Helpers
