-- ===== src/Router.antt =====
-- The router that joins stacked chips, router.h and router.cc.
mod Tests
pub mod Flit
pub mod OutputChannel
pub mod Link
pub mod Crossbar
pub mod InputChannel
pub mod Node
