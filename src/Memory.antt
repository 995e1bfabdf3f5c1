-- ===== src/Memory.antt =====
-- The memory store's coordination of readers and writers.
pub mod Consistency
