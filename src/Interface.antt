-- ===== src/Interface.antt =====
-- The router interface of the processor, routerinterface.h and routerinterface.cc: its registers on
-- the bus (`RouterIOReg`), the ranges through which the processor starts transfers (`RouterRange`), and
-- the state machine that turns them into packets (`RouterInterface`).
mod Tests
pub mod Config
pub mod Machine
pub mod Top
pub mod Access
pub mod Registers
