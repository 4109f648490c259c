-- ===== src/Accelerator.antt =====
-- The accelerator chips, accelerator.h, accelerator.cc and dbuf.cc: the bus inside such a chip, the
-- registers and the state machine of its network interface, its top module, and the double buffer.
-- What one accelerator puts on its bus and does in a cycle is virtual in the source, and a parameter.
mod Tests
pub mod Config
pub mod LocalBus
pub mod Nif
pub mod Burst
pub mod Reply
pub mod Registers
pub mod Outgoing
pub mod Dma
pub mod Top
pub mod DoubleBuffer
