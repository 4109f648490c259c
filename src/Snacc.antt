-- ===== src/Snacc.antt =====
-- The accelerator SNACC, snacccore.h, snacccore.cc, snaccmodules.h and snaccmodules.cc: its fixed-point
-- numbers, its multiply-and-add unit, the arbiter of its shared buffer, its cores, and its registers,
-- with snacc.h and snacc.cc.
mod Tests
pub mod Fixed
pub mod Mad
pub mod Core
pub mod Execute
pub mod Conf
pub mod Instructions
pub mod Cycle
pub mod Top
pub mod Select
