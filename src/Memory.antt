-- ===== src/Memory.antt =====
-- The memory system of the processor chip: bus arbiter, ranges of physical memory, and the mapper
-- that finds the range of an address and times the accesses.
mod Tests
pub mod Bus
pub mod Range
pub mod Mapper
pub mod Access
