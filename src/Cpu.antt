-- ===== src/Cpu.antt =====
-- The processor, cpu.h, cpu.cc, ISA.h, cpzero.h, cpzero.cc, cpzeroreg.h and tlbentry.h: an R3000 with
-- five pipeline stages, its coprocessor 0, and its exceptions.
mod Tests
pub mod Except
pub mod Zero
pub mod Alu
pub mod Unaligned
pub mod Decode
pub mod Control
pub mod Forward
pub mod Handle
pub mod Stores
