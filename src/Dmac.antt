-- ===== src/Dmac.antt =====
-- The DMA controller, dmac.h and dmac.cc: its registers, and the state machine that copies words over
-- the bus. `none` is a null pointer that the mapper follows, for an address that no range has.
-- `exception_pending` is set by `DMAC::exception` in the calls of one step and cleared at its end, so
-- it is read off the exceptions that the step has raised. `counter` does not wrap.
mod Tests
pub mod Config
pub mod Machine
pub mod Holder

-- DMAC_STAT_IDLE and the others.
pub data State : Type 0 where
  idle reading read_req writing write_req read_done write_done exit : State
